-- ===== src/Tests/Worlds.antt =====
-- A world of the proxy for the examples: one account with one blob, on one node.
use nostr_storage_orchestrat.Common.{
  ℕ, ◌+◌, ◌*◌, refl, true, none, some, [], ◌∷◌, String, string_eq,
}
use nostr_storage_orchestrat.Common.Int.{◌+ℤ◌}
use nostr_storage_orchestrat.Common.Js.{day_ms, epoch}
use nostr_storage_orchestrat.Lifecycle.Config.{default_lifecycle_config}
use nostr_storage_orchestrat.Nip98.{NostrEvent}
use nostr_storage_orchestrat.Db.{Blob}
use nostr_storage_orchestrat.Proxy.Token.{TokenLibrary}
use nostr_storage_orchestrat.Proxy.Client.{works}
use nostr_storage_orchestrat.Proxy.World.{Copy, World, Network}
use nostr_storage_orchestrat.Proxy.Account.{Service}
use nostr_storage_orchestrat.Proxy.Durable.{IsSound}
use nostr_storage_orchestrat.Proxy.Put.{Upload}
use nostr_storage_orchestrat.Tests.Data.{alice, photo, small_js}

abbrev pub photo_hash : String
photo_hash = "aaaaaaaaaaaaaaaaaaaaaaaaaaaaaaaaaaaaaaaaaaaaaaaaaaaaaaaaaaaaaaaa"

-- ten days before the plan of the account ends
abbrev pub noon : ℕ
noon = epoch + 19990 * day_ms

abbrev pub signed : String → NostrEvent
signed action = record {
  id = "e2";
  pubkey = "alice";
  created_at = 1000;
  kind = 24242;
  tags = ("expiration" ∷ "later" ∷ []) ∷ ("t" ∷ action ∷ []) ∷ ("x" ∷ photo_hash ∷ []) ∷ [];
}

-- A header is the action that its token allows.
abbrev pub header_library : TokenLibrary
header_library = record {
  parse = λ header. some (some (signed header));
  verify_throws = λ raw. true;
  verify_event = λ e. true;
  npub_encode = λ key. key;
  lower_case = λ s. s;
  seconds = λ t. some 99999999999;
}

abbrev pub service : Service
service = record {
  js = small_js;
  lib = header_library;
  config = default_lifecycle_config;
  ttl = 10000;
  replica_count = 2;
  sha256 = λ body. photo_hash;
}

abbrev pub stored_photo : Blob
stored_photo = record photo { hash = photo_hash }

abbrev pub photo_copy : Copy
photo_copy = record { node = "one"; hash = photo_hash; content = 1 ∷ 2 ∷ 3 ∷ [] }

abbrev pub world : World
world = record {
  db = record { users = alice ∷ []; blobs = stored_photo ∷ []; grants = []; notifications = [] };
  cache = [];
  registry = record { id = "one"; url = "http://10.0.0.1:80" } ∷ [];
  copies = photo_copy ∷ [];
  audit = [];
}

abbrev pub network : Network
network = record {
  account_read = λ n. true;
  account_reread = true;
  blob_read = true;
  blob_reread = true;
  write = works;
  audit_write = λ n. works;
  active = none;
  puts = λ c. true;
  gets = λ r. true;
  deletes = λ r. true;
}

abbrev pub upload : Upload
upload = record { authorization = some "upload"; client_hash = none; body = 1 ∷ 2 ∷ 3 ∷ [] }

pub world-IsSound : IsSound world.db world.copies
unfolding ◌+ℤ◌
world-IsSound = record {
  consistent = record { exact = (refl, tt); unique = (refl, tt); owned = (refl, tt) };
  durable = ((refl, (refl, tt)), tt);
}
