-- ===== src/Tests/Data.antt =====
-- The data of the examples.
use nostr_storage_orchestrat.Common.{
  ℕ, ◌+◌, ◌*◌, ◌≡◌, ◌≢◌, ◌==◌, string_eq, eq_iff, arith, refl, Option, none, some, [], ◌∷◌, String,
  false,
}
use nostr_storage_orchestrat.Common.Int.{ℤ, pos, ◌+ℤ◌}
use nostr_storage_orchestrat.Common.Js.{Value, num, int, at, day_ms, epoch, Runtime}
use nostr_storage_orchestrat.Db.{User, Blob, Db}
use nostr_storage_orchestrat.Db.Rows.{IsConsistent}

abbrev pub value_int : Value → Option ℤ
value_int (num (int n)) = some n
value_int _ = none

abbrev pub today : ℕ
today = epoch + 20000 * day_ms

-- A runtime that reads integers, and every text as one date.
abbrev pub small_js : Runtime
small_js = record { big_int = value_int; date_of = λ s. at today; lower_case = λ s. s }

abbrev pub alice : User
alice = record {
  npub = "alice";
  plan_expires_at = some (at today);
  storage_bytes = some (pos 100);
  used_storage = pos 10;
  created_at = 0;
}

abbrev pub photo : Blob
photo = record {
  hash = "photo";
  npub = "alice";
  size = pos 10;
  replicas = "one" ∷ [];
  created_at = 1;
}

abbrev pub small_db : Db
small_db = record { users = alice ∷ []; blobs = photo ∷ []; grants = []; notifications = [] }

pub small_db-IsConsistent : IsConsistent small_db
unfolding ◌+ℤ◌
small_db-IsConsistent = record { exact = (refl, tt); unique = (refl, tt); owned = (refl, tt) }

pub differ : (s t : String) → (s == t) ≡ false → s ≢ t
differ s t h = ground (arith, eq_iff s t)
