-- ===== src/Appstep/Tests.antt =====
-- A step of a query run, with the token it connects by kept out of the log.
use anfra.Prelude.{String, ◌≡◌, refl, some, List, [], ◌∷◌, arith}
use anfra.Appstep.{str, StepDefinition, Param, Step, Description, describe, step_string}
use anfra.Appstep.Redaction.{step_string-Agree}

abbrev connect : StepDefinition
connect = record {
  name = "canalquery.connect";
  template = "Connecting to {source}";
  sensitive = "token" ∷ [];
}

abbrev with_token : String → List Param
with_token token =
    record { key = "source"; value = str "shop" } ∷ record { key = "token"; value = str token } ∷ []

step_string-Agree_example :
    step_string (record { def = connect; params = with_token "k1" })
    ≡ step_string (record { def = connect; params = with_token "k2" })
step_string-Agree_example =
    step_string-Agree connect (with_token "k1") (with_token "k2")
      (refl, (λ _. refl), (refl, (λ h. absurd (ground (arith, h))), tt))

abbrev connecting : Step
connecting = record { def = connect; params = with_token "k1" }

abbrev described : Description
described = record {
  name = "canalquery.connect";
  params = record { key = "source"; value = str "shop" } ∷ [];
  text = "Connecting to 'shop'";
}

connecting-described : describe connecting ≡ some described
unfolding describe
connecting-described = refl
