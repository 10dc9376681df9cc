-- ===== src/Query/Input/Tests.antt =====
-- Inputs of a query run, as internal/command/query/input.go checks them.
use anfra.Prelude.{◌≡◌, refl, ◌≢◌, ◌↔◌, false, none, str_eq, is_blank, ok}
use anfra.Query.Input.{QueryRunInput, Outside, check}
use anfra.Query.Input.Accepted.{IsSqlRun, IsAqlRun, check_iff}

-- No text has a limit, and one zone is known.
abbrev outside : Outside
outside = record { extract_limit = λ _. ok none; is_location = λ z. str_eq z "Europe/Paris" }

-- A page is asked for without its size.
abbrev half_paged : QueryRunInput
half_paged = record {
  base = record { query = "orders"; lang = "aql"; dataset = "shop"; data_source = "" };
  has_input = false;
  page = 2;
  page_size = 0;
  timezone = "";
}

check_iff_example :
    (half_paged.lang ≡ "sql" → (check outside half_paged ≡ none) ↔ IsSqlRun half_paged)
    × (half_paged.lang ≢ "sql" → (check outside half_paged ≡ none) ↔ IsAqlRun outside half_paged)
check_iff_example = check_iff outside half_paged

abbrev paged : QueryRunInput
paged = record half_paged { page_size = 50; timezone = "Europe/Paris" }

paged-accepted : check outside paged ≡ none
unfolding check is_blank
paged-accepted = refl

-- A dataset of no-break spaces alone is none.
unnamed-refused :
    check outside (record paged { base = record paged.base { dataset = "\u{a0}" } }) ≢ none
unfolding check is_blank
unnamed-refused h = cc
