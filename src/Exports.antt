-- ===== src/Exports.antt =====
-- internal/exports/exports.go: the files of exports, their links and the sweep. A file stands as its
-- name in the folder and when it was last written; a link's path is such a name.
pub mod Sweeping
mod Tests
use anfra.Prelude.{
  ℕ, ◌+◌, String, Bool, true, false, not, ◌||◌, Option, none, some, List, [], ◌∷◌, str_eq, ltb,
  if◌then◌else◌, is_some, lookup,
}

pub record Link : Type 0 where
  pub path : String
  pub filename : String
  pub content_type : String
  pub expires_at : ℕ

-- `Files`, with what is in its folder, which other processes write to as well.
pub record Files : Type 0 where
  pub ttl : ℕ
  pub swept : Bool
  pub links : List (String × Link)
  pub folder : List (String × ℕ)

abbrev pub delete {ℓ} : {A : Type ℓ} → String → List (String × A) → List (String × A)
delete k [] = []
delete k ((j, a) ∷ m) = let rest = delete k m in if str_eq j k then rest else (j, a) ∷ rest

-- `remove`
pub remove : String → Files → Files
remove token fs = elim (lookup token fs.links) [
  | none ↦ fs
  | some l ↦ record fs { links = delete token fs.links; folder = delete l.path fs.folder }
]

abbrev pub is_expired : ℕ → Option Link → Bool
is_expired now none = false
is_expired now (some l) = ltb l.expires_at now

-- The tokens whose links have expired, of these.
abbrev pub expired : ℕ → List (String × Link) → List (String × Link) → List String
expired now links [] = []
expired now links ((token, _) ∷ rest) =
    let others = expired now links rest in
    if is_expired now (lookup token links) then token ∷ others else others

pub remove_all : List String → Files → Files
unfolding remove
remove_all [] fs = fs
remove_all (token ∷ tokens) fs = remove_all tokens (remove token fs)

-- The files that are linked, or were written within a link's life.
abbrev pub kept : Files → ℕ → List (String × ℕ) → List (String × ℕ)
kept fs now [] = []
kept fs now ((name, written) ∷ rest) =
    let others = kept fs now rest in
    if is_some (lookup name fs.links) || not (ltb (written + fs.ttl) now)
    then (name, written) ∷ others
    else others

-- `Sweep`
pub sweep : ℕ → Files → Files
unfolding remove_all
sweep now fs =
    let left = remove_all (expired now fs.links fs.links) fs in
    record left { folder = kept left now left.folder }

-- What a link serves, of the files in the folder: the name that a download has and its content type.
abbrev pub serve : ℕ → List (String × ℕ) → Option Link → Option (String × String)
serve now folder none = none
serve now folder (some l) =
    if ltb l.expires_at now
    then none
    else if is_some (lookup l.path folder)
    then some (l.filename, l.content_type)
    else none

-- `Open`
pub open_file : ℕ → String → Files → Option (String × String)
open_file now token fs = serve now fs.folder (lookup token fs.links)

-- `prepare`, at an export: the first one sweeps.
pub prepare : ℕ → Files → Files
unfolding sweep
prepare now fs = if fs.swept then fs else record (sweep now fs) { swept = true }

-- `Create`, for a new token: none where a file of that name is there.
pub create : ℕ → String → Files → Option Files
unfolding prepare
create now token fs =
    let ready = prepare now fs in
    if is_some (lookup token ready.folder)
    then none
    else some (record ready { folder = (token, now) ∷ ready.folder })

-- `Done`, of an export whose file could be closed or not, last written at a time.
pub finish : Bool → ℕ → ℕ → String → String → String → Files → Files
finish closed now written token filename content_type fs =
    if closed
    then record fs {
      links =
          (
            token,
            record {
              path = token;
              filename = filename;
              content_type = content_type;
              expires_at = now + fs.ttl;
            },
          )
          ∷ delete token fs.links;
      folder = (token, written) ∷ delete token fs.folder;
    }
    else record fs { folder = delete token fs.folder }

-- `Abort`
pub abort : String → Files → Files
abort token fs = record fs { folder = delete token fs.folder }

-- The tokens that have links.
abbrev pub tokens : List (String × Link) → List String
tokens [] = []
tokens ((token, _) ∷ links) = token ∷ tokens links

-- `Close`
pub close : Files → Files
unfolding remove_all
close fs = remove_all (tokens fs.links) fs
