-- ===== src/Proxy/Read/Owners.antt =====
-- Who may read a blob: it is served only while one of its owners may read.
use text.Mathlib.TextPositions.{eq_refl}
use nostr_storage_orchestrat.Common.{
  ℕ, ◌≡◌, refl, sym, ◌∙◌, ◌⊎◌, inl, inr, Bool, true, false, Option, none, some, List, [], ◌∷◌,
  String, any, find, Bool-cases, Option-cases, ◌==◌, string_eq, nat_eq, arith,
}
use nostr_storage_orchestrat.Db.{User, Blob, Db, has_npub, is_row}
use nostr_storage_orchestrat.Proxy.Client.{
  Answer, answer, api_error, unreachable, get_blob, get_user, user_of,
}
use nostr_storage_orchestrat.Proxy.World.{World, Network}
use nostr_storage_orchestrat.Proxy.Handler.{reply}
use nostr_storage_orchestrat.Proxy.Account.{Service}
use nostr_storage_orchestrat.Proxy.Put.Found.{lookup_some}
use nostr_storage_orchestrat.Proxy.Read.{
  parse_hash, Download, owner_accounts, may_read, answer_read, read_owners, handle_get_blob,
}

-- Whether an account, as the tables have it, may read.
abbrev pub reads : Service → ℕ → Db → String → Bool
reads s now db npub = may_read s now (find (has_npub npub) db.users)

pub get_user-true :
    (npub : String) (db : Db) → get_user true npub db ≡ answer (find (has_npub npub) db.users)
get_user-true npub db = elim (Option-cases (find (has_npub npub) db.users)) [
  | inl e ↦ rw (get_user, user_of, e) refl
  | inr (v, e) ↦ rw (get_user, user_of, e) refl
]

get_user_cases :
    (answered : Bool) (npub : String) (db : Db)
    → (get_user answered npub db ≡ unreachable)
      ⊎ (get_user answered npub db ≡ answer (find (has_npub npub) db.users))
get_user_cases false npub db = inl refl
get_user_cases true npub db = inr (get_user-true npub db)

-- The accounts that are read are those of the owners, in their order.
pub owner_accounts-any :
    (s : Service) (now : ℕ) (answered : String → Bool) (owners : List String) (db : Db)
    (accounts : List (Option User))
    → owner_accounts answered owners db ≡ some accounts
    → any (may_read s now) accounts ≡ any (reads s now db) owners
unfolding owner_accounts
owner_accounts-any s now answered [] db accounts h =
    let none_left : [] ≡ accounts = ground arith in rw (← none_left) refl
owner_accounts-any s now answered (owner ∷ owners) db accounts h =
    elim (get_user_cases (answered owner) owner db) [
      | inl e ↦ let h' = rw (owner_accounts, e) at h in cc
      | inr e ↦ elim (Option-cases (owner_accounts answered owners db)) [
        | inl f ↦ let h' = rw (owner_accounts, e, f) at h in cc
        | inr (us, f) ↦
            let h' = rw (owner_accounts, e, f) at h in
            let same : (find (has_npub owner) db.users ∷ us) ≡ accounts = ground arith in
            let rest = owner_accounts-any s now answered owners db us f in rw (← same, rest) refl
      ]
    ]

pub any_witness :
    (p : String → Bool) (owners : List String)
    → any p owners ≡ true
    → (o : String) × (p o ≡ true) × (any (λ x. x == o) owners ≡ true)
any_witness p [] h = cc
any_witness p (x ∷ xs) h = elim (Bool-cases (p x)) [
  | inl e ↦ (x, e, ground (arith, eq_refl x))
  | inr e ↦ let (o, f, g) = any_witness p xs (ground arith) in (o, f, ground arith)
]

-- What a read that is answered with success has behind it: the hash of the path, and an owner of it whose
-- plan lets it read (or whose account is gone).
abbrev pub IsReadable : Service → ℕ → String → World → Type 0
IsReadable s now path w =
    (hash : String) × (npub : String) × (parse_hash path ≡ some hash)
    × (any (is_row hash npub) w.db.blobs ≡ true)
    × (reads s now w.db npub ≡ true)

answer_read_lem :
    (s : Service) (net : Network) (now : ℕ) (hash : String) (body : Bool) (blob : Blob) (w : World)
    (accounts : List (Option User)) (status : ℕ) (d : Download)
    → answer_read s net now hash body blob w accounts ≡ reply status d
    → any (may_read s now) accounts ≡ true
unfolding answer_read
answer_read_lem s net now hash body blob w accounts status d h =
    elim (Bool-cases (any (may_read s now) accounts)) [
      | inl e ↦ e
      | inr e ↦ let h' = rw e at h in cc
    ]

pub Answer-cases :
    {A : Type 0} (a : Answer (Option A))
    → ((a ≡ answer none)
        ⊎ ((status : ℕ) × (e : String) × (a ≡ api_error status e))
        ⊎ (a ≡ unreachable))
      ⊎ ((x : A) × (a ≡ answer (some x)))
Answer-cases (answer none) = inl (inl refl)
Answer-cases (answer (some x)) = inr (x, refl)
Answer-cases (api_error status e) = inl (inr (inl (status, e, refl)))
Answer-cases unreachable = inl (inr (inr refl))

-- GET and HEAD of a blob succeed only where at least one account with a row of the hash may read at that
-- moment, or has no account any more.
pub handle_get_blob-IsReadable :
    (s : Service) (net : Network) (now : ℕ) (path : String) (body : Bool) (w : World) (status : ℕ)
    (d : Download)
    → handle_get_blob s net now path body w ≡ reply status d
    → IsReadable s now path w
unfolding handle_get_blob read_owners
handle_get_blob-IsReadable s net now path body w status d h =
    elim (Option-cases (parse_hash path)) [
      | inl e ↦ let h' = rw (handle_get_blob, e) at h in cc
      | inr (hash, e) ↦ elim (Answer-cases (get_blob net.blob_read hash w.db)) [
        | inl (inl f) ↦ let h' = rw (handle_get_blob, e, f) at h in cc
        | inl (inr (inl (st, x, f))) ↦ let h' = rw (handle_get_blob, e, f) at h in cc
        | inl (inr (inr f)) ↦ let h' = rw (handle_get_blob, e, f) at h in cc
        | inr ((blob, owners), f) ↦
            elim (Option-cases (owner_accounts net.account_read owners w.db)) [
              | inl g ↦ let h' = rw (handle_get_blob, e, f, read_owners, g) at h in cc
              | inr (accounts, g) ↦
                  let h' = rw (handle_get_blob, e, f, read_owners, g) at h in
                  let may = answer_read_lem s net now hash body blob w accounts status d h' in
                  let (npub, reads_it, owner) = any_witness (reads s now w.db) owners (
                    sym (owner_accounts-any s now net.account_read owners w.db accounts g) ∙ may) in
                  let (_, _, owned) = lookup_some net.blob_read hash w.db blob owners f in
                  (hash, npub, e, sym (owned npub) ∙ owner, reads_it)
            ]
      ]
    ]
