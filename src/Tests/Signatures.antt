-- ===== src/Tests/Signatures.antt =====
-- Examples of the theorems on signed requests.
use nostr_storage_orchestrat.Common.{◌≡◌, ◌≢◌, refl, true, none, some, [], ◌∷◌, arith}
use nostr_storage_orchestrat.Nip98.{
  NostrEvent, Nip98Request, Library, no_body, signer, Signer, VerifyOptions, remember, check_event,
  verify_nip98,
}
use nostr_storage_orchestrat.Common.Utf8.{strip_slashes}
use nostr_storage_orchestrat.Nip98.Replay.{verify_each}
use nostr_storage_orchestrat.Nip98.SingleUse.{verify_nip98_once}
use nostr_storage_orchestrat.Proxy.Token.{
  TokenLibrary, TokenOptions, check_scope, check_token, verify_auth_token,
}
use nostr_storage_orchestrat.Proxy.Token.Sound.{IsToken, verify_auth_token-IsToken}

abbrev event : NostrEvent
event = record {
  id = "e1";
  pubkey = "key";
  created_at = 1000;
  kind = 27235;
  tags = ("u" ∷ "http://api/users/" ∷ []) ∷ ("method" ∷ "GET" ∷ []) ∷ [];
}

abbrev library : Library
library = record {
  parse = λ raw. some (some event);
  verify_throws = λ raw. true;
  verify_event = λ e. true;
  npub_encode = λ key. key;
  upper_case = λ s. s;
  lower_case = λ s. s;
  sha256 = λ body. "";
}

abbrev request : Nip98Request
request = record {
  authorization = some "Nostr e1";
  method = "GET";
  derived_url = "http://api/users";
  body = no_body;
}

abbrev default_options : VerifyOptions
default_options = record { expected_url = none; max_skew_seconds = 300 }

abbrev someone : Signer
someone = record { pubkey = "key"; npub = "key" }

verify_nip98_once_example :
    (verify_nip98 library default_options request 1250 (
      verify_each library default_options []
        ((verify_nip98 library default_options request 900 []).1))).0
    ≢ signer someone
unfolding verify_nip98 check_event remember strip_slashes
verify_nip98_once_example =
    verify_nip98_once library default_options request request event someone someone 900 1250 [] []
      (omega arith) ("Nostr e1", refl, refl, refl) ("Nostr e1", refl, refl, refl) refl tt

abbrev token : NostrEvent
token = record event {
  kind = 24242;
  tags = ("t" ∷ "upload" ∷ []) ∷ ("expiration" ∷ "2000" ∷ []) ∷ ("x" ∷ "photo" ∷ []) ∷ [];
}

abbrev token_library : TokenLibrary
token_library = record {
  parse = λ raw. some (some token);
  verify_throws = λ raw. true;
  verify_event = λ e. true;
  npub_encode = λ key. key;
  lower_case = λ s. s;
  seconds = λ s. some 2000;
}

abbrev for_photo : TokenOptions
for_photo = record { hash = some "photo"; require_hash_scope = true }

verify_auth_token-IsToken_example :
    (e : NostrEvent) × (token_library.parse "Nostr token" ≡ some (some e))
    × IsToken token_library "upload" for_photo 1500 e
    × ("key" ≡ token_library.npub_encode e.pubkey)
unfolding verify_auth_token check_token check_scope
verify_auth_token-IsToken_example =
    verify_auth_token-IsToken token_library "Nostr token" "upload" "key" for_photo 1500 refl
