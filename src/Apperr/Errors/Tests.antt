-- ===== src/Apperr/Errors/Tests.antt =====
-- Responses to the errors of shared/apperr, over a catalog of three codes.
use anfra.Prelude.{◌≡◌, true, false, none, some, [], ◌∷◌}
use anfra.Appstep.{Step}
use anfra.Apperr.Codes.{Code}
use anfra.Apperr.Codes.Tests.{codes}
use anfra.Apperr.Errors.{Error, leaf, new_error, response}
use anfra.Apperr.Errors.Disclosure.{response-new_error}

abbrev ise : Code
ise = some 0

abbrev failed : Code
failed = some 1

abbrev died : Code
died = some 2

abbrev connecting : Step
connecting = record {
  def = record { name = "canalquery.connect"; template = "Connecting"; sensitive = [] };
  params = [];
}

-- What no client should read.
abbrev secret : Error
secret = leaf (record {
  code = died;
  message = "password wrong for root";
  details = none;
  steps = connecting ∷ [];
  disclose_inner_steps = false;
})

abbrev refused : Error
refused = leaf (record {
  code = failed;
  message = "Unknown dataset";
  details = none;
  steps = connecting ∷ [];
  disclose_inner_steps = false;
})

response-new_error_example :
    response codes ise true (new_error codes ise true (some secret) failed "" none) "r1"
    ≡ response codes ise true (new_error codes ise true (some refused) failed "" none) "r1"
response-new_error_example = response-new_error codes ise secret refused failed "" none "r1"
