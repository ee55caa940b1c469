-- ===== src/Tests/Admins.antt =====
-- Examples of the theorems on admins.
use nostr_storage_orchestrat.Common.{
  ℕ, ◌≡◌, refl, false, true, none, some, List, [], ◌∷◌, String, string_eq, nat_eq, ◌==◌,
  if◌then◌else◌,
}
use nostr_storage_orchestrat.Common.Utf8.{strip_slashes}
use nostr_storage_orchestrat.Nip98.{
  NostrEvent, Nip98Request, Library, no_body, already_used, remember, check_event, verify_nip98,
}
use nostr_storage_orchestrat.Db.Gate.{ServiceAccount, opened, unauthorized, failed, service_gate}
use nostr_storage_orchestrat.Proxy.Admin.Roles.{
  role_gate, anonymous, IsAnswered, IsChecked, role_gate-Guards,
}
use nostr_storage_orchestrat.Proxy.Admin.{
  AdminOptions, Backend, is_admin, ask_backend, admitted, admin_required, require_admin, new_keeper,
  keep_gate,
}
use nostr_storage_orchestrat.Proxy.Admin.Recent.{IsGated, require_admin-IsGated}

abbrev event_of : String → NostrEvent
event_of id = record {
  id = id;
  pubkey = "root";
  created_at = 1000;
  kind = 27235;
  tags = ("u" ∷ "http://proxy/admin/users" ∷ []) ∷ ("method" ∷ "GET" ∷ []) ∷ [];
}

-- A header is the id of its event.
abbrev library : Library
library = record {
  parse = λ raw. some (some (event_of raw));
  verify_throws = λ raw. true;
  verify_event = λ e. true;
  npub_encode = λ key. key;
  upper_case = λ s. s;
  lower_case = λ s. s;
  sha256 = λ body. "";
}

abbrev request_of : String → Nip98Request
request_of id = record {
  authorization = some id;
  method = "GET";
  derived_url = "http://proxy/admin/users";
  body = no_body;
}

abbrev options : AdminOptions
options = record { backend_url = some "http://backend"; service_nsec = some "nsec"; ttl_ms = none }

-- It answers at one time only.
abbrev backend : Backend
backend now npub = if now == 1000000 then some (npub == "root", 5) else none

abbrev earlier : List (Nip98Request × ℕ)
earlier = (request_of "first", 1000000) ∷ []

-- The answer is remembered while the backend is away.
is_remembered :
    (require_admin library options backend
      (request_of "second")
      1060004
      (keep_gate library options backend earlier new_keeper)).0
    ≡ admitted "root"
unfolding require_admin is_admin ask_backend keep_gate verify_nip98 check_event remember
    strip_slashes
is_remembered = refl

-- Past the ttl it is not.
is_forgotten :
    (require_admin library options backend
      (request_of "second")
      1060005
      (keep_gate library options backend earlier new_keeper)).0
    ≡ admin_required
unfolding require_admin is_admin ask_backend keep_gate verify_nip98 check_event remember
    strip_slashes
is_forgotten = refl

require_admin-IsGated_example :
    IsGated library options backend
      (request_of "second")
      1060004
      (keep_gate library options backend earlier new_keeper)
      ((require_admin library options backend
        (request_of "second")
        1060004
        (keep_gate library options backend earlier new_keeper)).0)
require_admin-IsGated_example =
    require_admin-IsGated library options backend earlier (request_of "second") 1060004

abbrev accounts : List ServiceAccount
accounts = record { npub = "root"; label = none; enabled = true; created_at = 0 } ∷ []

-- Both gates let the service through, once.
is_opened : (service_gate library (request_of "first") 1000000 accounts []).0 ≡ opened (some "root")
unfolding service_gate verify_nip98 check_event remember strip_slashes
is_opened = refl

is_used_up :
    (role_gate library true
      (request_of "first")
      1000001
      accounts
      ((service_gate library (request_of "first") 1000000 accounts []).1)).0
    ≡ unauthorized 401 already_used
unfolding service_gate role_gate verify_nip98 check_event remember strip_slashes
is_used_up = refl

role_gate-Guards_example :
    IsAnswered library
      (request_of "first")
      1000000
      accounts
      []
      (λ npub.
        IsChecked library
          (request_of "first")
          1000000
          accounts
          npub
          ((service_gate library (request_of "first") 1000000 accounts []).0))
      ((service_gate library (request_of "first") 1000000 accounts []).0)
    × (role_gate library true (request_of "first") 1000000 accounts [] ≡ (
      anonymous ((service_gate library (request_of "first") 1000000 accounts []).0),
      (service_gate library (request_of "first") 1000000 accounts []).1,
    ))
    × IsAnswered library
        (request_of "first")
        1000000
        accounts
        []
        (λ npub. (role_gate library false (request_of "first") 1000000 accounts []).0 ≡ failed)
        ((role_gate library false (request_of "first") 1000000 accounts []).0)
role_gate-Guards_example = role_gate-Guards library (request_of "first") 1000000 accounts []
