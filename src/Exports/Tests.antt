-- ===== src/Exports/Tests.antt =====
-- An export whose link lives, and one of another process written long ago.
use anfra.Prelude.{
  ◌≡◌, refl, sym, ap, ◌∙◌, inl, inr, true, Option, none, some, [], ◌∷◌, str_eq, eq_iff, Bool-cases,
  lookup,
}
use anfra.Exports.{Link, Files, sweep, open_file}
use anfra.Exports.Sweeping.{IsPlaced, sweep-live}

abbrev orders : Link
orders = record {
  path = "t1";
  filename = "orders.csv";
  content_type = "text/csv";
  expires_at = 900;
}

abbrev files : Files
files = record {
  ttl = 100;
  swept = true;
  links = ("t1", orders) ∷ [];
  folder = ("t0", 5) ∷ ("t1", 5) ∷ [];
}

files-IsPlaced : IsPlaced files
files-IsPlaced token l h = elim (Bool-cases (str_eq "t1" token)) [
  | inl same ↦
      let e : ◌≡◌ {A = Option Link} (some orders) (some l) = sym (rw same refl) ∙ h in
      let its : orders ≡ l = cc in ap (λ (x : Link). x.path) (sym its) ∙ (eq_iff "t1" token).0 same
  | inr other ↦ absurd (let e : lookup token files.links ≡ none = rw other refl in cc)
]

sweep_test : (sweep 500 files).folder ≡ ("t1", 5) ∷ []
unfolding sweep
sweep_test = refl

sweep-live_example : open_file 600 "t1" (sweep 500 files) ≡ open_file 600 "t1" files
sweep-live_example = sweep-live 500 600 "t1" orders files files-IsPlaced refl refl
