-- ===== src/Db/Grows.antt =====
-- Payments and accounts are never lost, and their keys stay distinct: what a request leaves of them.
use nostr_storage_orchestrat.Common.{
  ◌≡◌, ◌∙◌, Bool, true, false, some, [], ◌∷◌, ◌==◌, string_eq, if◌then◌else◌, arith, List, String,
  any, find, update_where,
}
use nostr_storage_orchestrat.Db.{User, Blob, EntitlementGrant, Db, has_npub}
use nostr_storage_orchestrat.Db.Rows.{any-update_where}

-- No two accounts have one npub, and no two grants one payment hash.
abbrev pub UniqueUsers : List User → Type 0
UniqueUsers [] = Unit
UniqueUsers (u ∷ us) = (any (has_npub u.npub) us ≡ false) × UniqueUsers us

abbrev pub has_hash : String → EntitlementGrant → Bool
has_hash hash g = g.payment_hash == hash

abbrev pub UniqueGrants : List EntitlementGrant → Type 0
UniqueGrants [] = Unit
UniqueGrants (g ∷ gs) = (any (has_hash g.payment_hash) gs ≡ false) × UniqueGrants gs

abbrev pub HasKeys : Db → Type 0
HasKeys db = UniqueUsers db.users × UniqueGrants db.grants

pub UniqueUsers-update_where :
    (p : User → Bool) (f : User → User) (us : List User)
    → ((u : User) → (f u).npub ≡ u.npub)
    → UniqueUsers us
    → UniqueUsers (update_where p f us)
UniqueUsers-update_where p f [] same h = tt
UniqueUsers-update_where p f (u ∷ us) same h =
    let key : (if p u then f u else u).npub ≡ u.npub = ground (arith, same u) in
    (rw key (any-update_where u.npub p f us same ∙ h.0), UniqueUsers-update_where p f us same h.1)

pub record Grows (db db' : Db) : Type 0 where
  pub grants :
      (p : EntitlementGrant → Bool) (g : EntitlementGrant)
      → find p db.grants ≡ some g
      → find p db'.grants ≡ some g
  pub keys : HasKeys db → HasKeys db'
  pub accounts : (n : String) → any (has_npub n) db.users ≡ true → any (has_npub n) db'.users ≡ true

pub Grows-refl : (db : Db) → Grows db db
Grows-refl db = record { grants = λ p g e. e; keys = λ k. k; accounts = λ n e. e }

pub Grows-trans : (a b c : Db) → Grows a b → Grows b c → Grows a c
Grows-trans a b c f g = record {
  grants = λ p x e. g.grants p x (f.grants p x e);
  keys = λ k. g.keys (f.keys k);
  accounts = λ n e. g.accounts n (f.accounts n e);
}

pub Grows-update :
    (db : Db) (p : User → Bool) (f : User → User) (bs : List Blob)
    → ((u : User) → (f u).npub ≡ u.npub)
    → Grows db (record db { users = update_where p f db.users; blobs = bs })
Grows-update db p f bs same = record {
  grants = λ q g e. e;
  keys = λ k. (UniqueUsers-update_where p f db.users same k.0, k.1);
  accounts = λ n e. any-update_where n p f db.users same ∙ e;
}
