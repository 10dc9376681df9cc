-- ===== src/Repoformat.antt =====
-- shared/repoformat: which of a repo's files a publish carries. A path is as the source takes it,
-- relative to the repo and with slashes; `lower` is Go's `strings.ToLower`.
pub mod Parts
use anfra.Prelude.{
  String, Bool, true, false, ◌&&◌, ◌||◌, List, [], ◌∷◌, str_eq, ltb, if◌then◌else◌, length, cat,
  has_prefix, has_suffix, split_on,
}

-- `AppsDir`
abbrev pub apps_dir : String
apps_dir = "apps"

abbrev pub refused_part : String → Bool
refused_part p = str_eq p "" || has_prefix p "." || str_eq p "node_modules"

-- The loop over the parts: false at the first refused one.
no_refused : List String → Bool
no_refused [] = true
no_refused (p ∷ ps) = if refused_part p then false else no_refused ps

abbrev pub under_apps : List String → Bool
under_apps [] = false
under_apps (p ∷ ps) = str_eq p apps_dir && ltb 1 (length (p ∷ ps))

pub publishable : (String → String) → String → Bool
unfolding no_refused
publishable lower path =
    let parts = split_on path 47 in
    no_refused parts && (under_apps parts || has_suffix (lower path) ".aml")

pub data_app : (String → String) → String → Bool
unfolding publishable
data_app lower path =
    has_prefix path (cat apps_dir "/") && has_suffix (lower path) ".html" && publishable lower path
