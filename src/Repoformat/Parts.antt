-- ===== src/Repoformat/Parts.antt =====
-- shared/repoformat/repoformat.go: what a publish carries, by the parts of a path.
use anfra.Prelude.{
  String, ◌≡◌, refl, ◌≢◌, ◌↔◌, ◌⊎◌, true, false, List, [], ◌∷◌, arith, eq_iff, All, has_prefix,
  has_suffix, split_on,
}
use anfra.Repoformat.{no_refused, under_apps, publishable}

-- A part that may be published.
pub record IsPlain (p : String) : Type 0 where
  pub filled : p ≢ ""
  pub visible : has_prefix p "." ≡ false
  pub not_installed : p ≢ "node_modules"

no_refused_iff : (ps : List String) → no_refused ps ≡ true ↔ All IsPlain ps
unfolding no_refused
no_refused_iff ps = (to ps, from ps)
  where
    to : (ps : List String) → no_refused ps ≡ true → All IsPlain ps
    to [] h = tt
    to (p ∷ ps) h = (
      record {
        filled = ground (arith, eq_iff p "");
        visible = ground (arith);
        not_installed = ground (arith, eq_iff p "node_modules");
      },
      to ps (ground (arith)),
    )

    from : (ps : List String) → All IsPlain ps → no_refused ps ≡ true
    from [] h = refl
    from (p ∷ ps) (plain, rest) = ground (
      arith,
      eq_iff p "",
      eq_iff p "node_modules",
      plain.filled,
      plain.visible,
      plain.not_installed,
      from ps rest,
    )

-- A path is publishable exactly when each of its parts is non-empty, does not start with "." and is
-- not "node_modules", and the path has a first part "apps" and another after it, or ends, in lower
-- case, in ".aml".
pub publishable_iff :
    (lower : String → String) (path : String)
    → publishable lower path ≡ true ↔ (
        All IsPlain (split_on path 47)
        × ((under_apps (split_on path 47) ≡ true) ⊎ (has_suffix (lower path) ".aml" ≡ true)))
unfolding publishable
publishable_iff lower path = (
  λ h. ((no_refused_iff (split_on path 47)).0 (ground arith), ground arith),
  λ (plain, kind). ground (arith, (no_refused_iff (split_on path 47)).1 plain),
)
