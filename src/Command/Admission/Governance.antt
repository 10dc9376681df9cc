-- ===== src/Command/Admission/Governance.antt =====
-- SQL as written, from admission.go to connect.go and run.go, by who its caller is.
use anfra.Prelude.{
  ℕ, String, ◌≡◌, ap, ◌∙◌, ◌⊎◌, inl, inr, true, false, not, ◌||◌, Option, none, some, arith, str_eq,
  Bool-cases, Option-cases, Result, ok, err, ◌>>=◌, require, >>=-eq-ok,
}
use anfra.Query.Input.{QueryInput}
use anfra.Command.Admission.{
  data_perms_missing, no_node, no_canal_query, limit_invalid, local_repo_not_allowed,
  unknown_data_source, unknown, outside, CommandContext, Refusal, DataSources, QueryRun, raw,
  ungoverned_mode, admit, resolve_data_sources, data_perms_unenforceable, require_sidecars,
  check_ungoverned, connect_ungoverned, sql_sources, named, for_tenant, compiled, new_query_run,
  invoke, local_repo_not_allowed, unknown_data_source, unknown, outside,
}

named-ok :
    (q : QueryInput) (r : Result Refusal (String × String)) {x : String × String}
    → named q r ≡ ok x
    → r ≡ ok x
named-ok q (ok r) e = e
named-ok q (err data_perms_missing) e = cc
named-ok q (err data_perms_unenforceable) e = cc
named-ok q (err no_node) e = cc
named-ok q (err no_canal_query) e = cc
named-ok q (err limit_invalid) e = cc
named-ok q (err (local_repo_not_allowed _)) e = cc
named-ok q (err (unknown_data_source _)) e = cc
named-ok q (err (unknown _)) e = cc
named-ok q (err (outside _)) e = cc

-- Connecting SQL as written, when it succeeds.
connect-ok :
    (ctx : CommandContext) (sources : DataSources) (name text : String) {ds sql : String}
    → connect_ungoverned ctx.data_perms sources name text ≡ ok (ds, sql)
    → (ctx.data_perms.governed ≡ false) × (text ≡ sql) × (sources name ungoverned_mode ≡ ok ds)
unfolding connect_ungoverned check_ungoverned
connect-ok ctx sources name text {ds} {sql} e =
    let (u, checked, e1) = >>=-eq-ok (check_ungoverned ctx.data_perms) _ e in
    let (found, got, e2) = >>=-eq-ok (sources name ungoverned_mode) _ e1 in
    (ground (arith, checked), cc, cc)

sources-ok :
    (load : Result Refusal DataSources) (ctx : CommandContext) {sources : DataSources}
    → sql_sources load ctx ≡ ok sources
    → resolve_data_sources load ctx ≡ ok sources
unfolding sql_sources
sources-ok load ctx e = (>>=-eq-ok (check_ungoverned ctx.data_perms) _ e).2

raw_inj :
    {a b x y : String}
    → ◌≡◌ {A = Result Refusal QueryRun} (ok (raw a b)) (ok (raw x y))
    → (a ≡ x) × (b ≡ y)
raw_inj e = (cc, cc)

run-raw :
    (load : Result Refusal DataSources) (extract : String → Option (String × Option ℕ))
    (ctx : CommandContext) (q : QueryInput) {ds sql : String}
    → new_query_run load extract ctx q ≡ ok (raw ds sql)
    → (ctx.data_perms.governed ≡ false)
      × (str_eq q.lang "sql" ≡ true)
      × (q.query ≡ sql)
      × ((sources : DataSources) × (resolve_data_sources load ctx ≡ ok sources)
          × (sources q.data_source ungoverned_mode ≡ ok ds))
unfolding new_query_run
run-raw load extract ctx q {ds} {sql} e = elim (Bool-cases (str_eq q.lang "sql")) [
  | inl lang ↦
      let (sources, found, e1) = >>=-eq-ok (sql_sources load ctx) _ (as_written lang) in
      let (conn, made, e2) =
        >>=-eq-ok (named q (connect_ungoverned ctx.data_perms sources q.data_source q.query)) _
          e1 in
      let (u, ready, e3) = >>=-eq-ok (require_sidecars ctx false true) _ e2 in
      let connected =
        connect-ok ctx sources q.data_source q.query {ds = conn.0} {sql = conn.1}
          (named-ok q (connect_ungoverned ctx.data_perms sources q.data_source q.query) made) in
      let same = raw_inj e3 in
      (
        connected.0,
        lang,
        connected.1 ∙ same.1,
        (sources, sources-ok load ctx {sources = sources} found, connected.2 ∙ ap ok same.0),
      )
  | inr lang ↦ absurd (not_raw (Option-cases (extract q.query)) lang)
]
  where
    as_written :
        str_eq q.lang "sql" ≡ true
        → (sql_sources load ctx >>= λ sources.
            named q (connect_ungoverned ctx.data_perms sources q.data_source q.query) >>= λ conn.
            require_sidecars ctx false true >>= λ u. ok (raw conn.0 conn.1))
          ≡ ok (raw ds sql)
    as_written lang = ground (arith)

    not_raw :
        (extract q.query ≡ none) ⊎ ((x : String × Option ℕ) × (extract q.query ≡ some x))
        → str_eq q.lang "sql" ≡ false
        → ⊥
    not_raw (inl failed) lang = ground (arith)
    not_raw (inr ((t, limit), read)) lang =
        let e0 : ((require_sidecars ctx true true >>= λ u.
        resolve_data_sources load ctx >>= λ sources. ok (compiled t limit))
            ≡ ok (raw ds sql)) =
          ground (arith) in
        let (u, ready, e1) = >>=-eq-ok (require_sidecars ctx true true) _ e0 in
        let (sources, found, e2) = >>=-eq-ok (resolve_data_sources load ctx) _ e1 in cc

-- What admission lets through is the context, its client bound to its tenant.
admit-ok :
    (ctx : CommandContext) {a : CommandContext}
    → admit ctx ≡ ok a
    → (ctx.data_perms.decided ≡ true)
      × (not ctx.is_local || ctx.allow_local ≡ true)
      × (record ctx { canal_query = for_tenant ctx.tenant ctx.canal_query } ≡ a)
unfolding admit
admit-ok ctx {a} e =
    let (u, decided, e1) = >>=-eq-ok (require ctx.data_perms.decided data_perms_missing) _ e in
    let (v, allowed, e2) =
      >>=-eq-ok (require (not ctx.is_local || ctx.allow_local) (local_repo_not_allowed ctx.repo)) _
        e1 in
    (ground (arith, decided), ground (arith, allowed), cc)

-- If an invocation is accepted with SQL as written, then the host decided the caller's data
-- permissions and left the caller ungoverned, the repo is not a local one the host did not allow,
-- the input decoded to a "sql" query with that very text, and a data source of the invocation
-- answered the query's name in the ungoverned mode.
pub invoke-raw :
    (load : Result Refusal DataSources) (extract : String → Option (String × Option ℕ))
    (decode : String → Result Refusal QueryInput) (ctx : CommandContext) (text : String)
    {ds : String} {sql : String}
    → invoke load extract decode ctx text ≡ ok (raw ds sql)
    → (ctx.data_perms.decided ≡ true)
      × (ctx.data_perms.governed ≡ false)
      × (not ctx.is_local || ctx.allow_local ≡ true)
      × ((q : QueryInput) × (decode text ≡ ok q)
          × (str_eq q.lang "sql" ≡ true)
          × (q.query ≡ sql)
          × ((sources : DataSources) × (resolve_data_sources load ctx ≡ ok sources)
              × (sources q.data_source ungoverned_mode ≡ ok ds)))
unfolding invoke resolve_data_sources
invoke-raw load extract decode ctx text {ds} {sql} e =
    let (a, admitted, e1) = >>=-eq-ok (admit ctx) _ e in
    let (q, decoded, e2) = >>=-eq-ok (decode text) _ e1 in
    let (free, lang, same_text, (sources, found, connected)) =
      run-raw load extract a q {ds = ds} {sql = sql} e2 in
    let (decided, allowed, same) = admit-ok ctx {a = a} admitted in
    (
      decided,
      ap (λ c. c.data_perms.governed) same ∙ free,
      allowed,
      (
        q,
        decoded,
        lang,
        same_text,
        (sources, ap (λ c. resolve_data_sources load c) same ∙ found, connected),
      ),
    )

-- For a caller whose data permissions are decided and governed, on a repo the host allows, an
-- invocation whose input decodes to a "sql" query is refused as unenforceable, whatever the data
-- sources and the sidecars are.
pub invoke-governed :
    (load : Result Refusal DataSources) (extract : String → Option (String × Option ℕ))
    (decode : String → Result Refusal QueryInput) (ctx : CommandContext) (text : String)
    (q : QueryInput)
    → ctx.data_perms.decided ≡ true
    → ctx.data_perms.governed ≡ true
    → not ctx.is_local || ctx.allow_local ≡ true
    → decode text ≡ ok q
    → str_eq q.lang "sql" ≡ true
    → invoke load extract decode ctx text ≡ err data_perms_unenforceable
unfolding invoke
invoke-governed load extract decode ctx text q decided governed allowed decoded sql = ground (arith)
