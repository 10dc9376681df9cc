-- ===== src/Cliauth/Tests.antt =====
-- A machine with one stored login that is about to expire, whose renewal's answer is lost.
use anfra.Prelude.{◌≡◌, refl, true, false, none, some, [], str_eq, if◌then◌else◌, err}
use anfra.Cliauth.{Org, StoredCredential, Checks, Disk, done, save}
use anfra.Cliauth.Manager.{Machine, Renewal, Removal, login_required, load_access_token, logout}
use anfra.Cliauth.Spent.{Off}
use anfra.Cliauth.Once.{Once, loads, starts, goes_on, Reach-Once}
use anfra.Cliauth.Signout.{logout-removed}

abbrev acme : Org
acme = record { origin = "https://bi.example.com"; slug = "acme" }

abbrev login : StoredCredential
login = record {
  org = acme;
  org_name = "Acme";
  grant_id = "g1";
  org_id = "o1";
  grant_expiry = 9_000;
  access_token = "a1";
  refresh_token = "r1";
  access_expiry = 1_000;
  token_endpoint = "https://bi.example.com/token";
  revocation_endpoint = "https://bi.example.com/revoke";
  pending = false;
}

abbrev lax : Checks
lax = record { valid_uuid = λ _. true; safe_token = λ _. true; safe_endpoint = λ _ _. true }

abbrev disk : Disk
disk = record {
  entries = λ key. if str_eq key "https://bi.example.com/o/acme" then some login else none;
  markers = λ key. false;
}

abbrev idle : Machine
idle = record { disk = disk; requests = [] }

abbrev lost : Renewal
lost = record {
  marking = done;
  pending_save = done;
  successor_save = done;
  removal = done;
  remarking = done;
  reply = none;
  started = 900;
  replied = 901;
}

abbrev renewed : Machine
renewed = (load_access_token lax 900 lost acme idle).0

Reach-Once_example : Once (load_access_token lax 910 lost acme renewed).0.requests
Reach-Once_example = Reach-Once lax disk (load_access_token lax 910 lost acme renewed).0 (
    goes_on (goes_on starts (loads 900 lost acme idle (λ r replied. absurd cc)))
      (loads 910 lost acme renewed (λ r replied. absurd cc)))

abbrev removal : Removal
removal = record { saving = done; removal = done; remarking = done; confirmed = true }

logout-removed_example :
    (load_access_token lax 900 lost acme (logout lax removal acme idle).0
      ≡ ((logout lax removal acme idle).0, err login_required))
    × Off "https://bi.example.com/o/acme" disk (logout lax removal acme idle).0.disk
unfolding logout save
logout-removed_example = logout-removed lax lax 900 removal lost acme idle refl
