-- ===== src/Proxy/Placement.antt =====
-- proxy/blossom/src/servers.ts: which provider an upload goes to.
pub mod Fair
use Prim.Native.Nat.{bit_xor}
use nostr_storage_orchestrat.Common.{
  ℕ, zero, suc, ◌+◌, ◌*◌, ◌/◌, ◌%◌, ◌^◌, Bool, Option, none, some, List, [], ◌∷◌, ◌++◌, String,
  length, ltb, if◌then◌else◌,
}
use nostr_storage_orchestrat.Common.Order.{less}
use nostr_storage_orchestrat.Common.Utf8.{encode}

pub record ServerCandidate : Type 0 where
  pub id : String
  pub url : String

-- The decimal digits of a number below 10 ^ fuel, as bytes.
decimal : ℕ → ℕ → List ℕ
decimal zero n = []
decimal (suc fuel) n = elim (ltb n 10) [
  | Bool.true ↦ (48 + n) ∷ []
  | Bool.false ↦ decimal fuel (n / 10) ++ ((48 + n % 10) ∷ [])
]

-- `fnv1a`'s loop over the bytes
unfoldable pub fnv1a_from : ℕ → List ℕ → ℕ
fnv1a_from hash [] = hash
fnv1a_from hash (byte ∷ bytes) = fnv1a_from (bit_xor hash byte * 1099511628211 % 2 ^ 64) bytes

unfoldable pub fnv1a : List ℕ → ℕ
unfolding fnv1a_from
fnv1a bytes = fnv1a_from 14695981039346656037 bytes

abbrev insert_by_id : ServerCandidate → List ServerCandidate → List ServerCandidate
insert_by_id c [] = c ∷ []
insert_by_id c (d ∷ ds) =
    let rest = insert_by_id c ds in if less d.id c.id then d ∷ rest else c ∷ d ∷ ds

-- `[...candidates].sort(byId)`
abbrev pub sort_by_id : List ServerCandidate → List ServerCandidate
sort_by_id [] = []
sort_by_id (c ∷ cs) = insert_by_id c (sort_by_id cs)

abbrev pub get_elem? {ℓ} : {A : Type ℓ} → List A → ℕ → Option A
get_elem? [] i = none
get_elem? (x ∷ xs) zero = some x
get_elem? (x ∷ xs) (suc i) = get_elem? xs i

-- fnv1a of `${npub}:${timeSlot}`; a slot of an hour since the epoch has fewer than 16 digits
unfoldable pub placement : String → ℕ → ℕ
unfolding decimal fnv1a
placement npub now = fnv1a (encode npub ++ (58 ∷ decimal 16 (now / 3600000)))

-- `selectOwner`
unfoldable pub select_owner : String → List ServerCandidate → ℕ → Option ServerCandidate
unfolding placement
select_owner npub [] now = none
select_owner npub (c ∷ cs) now =
    let sorted = sort_by_id (c ∷ cs) in get_elem? sorted (placement npub now % length sorted)
