-- ===== src/Tests/Uploads.antt =====
-- Examples of the proxy's theorems.
use nostr_storage_orchestrat.Common.{
  ◌≡◌, ◌≢◌, refl, min, max, Bool, List, [], ◌∷◌, arith, ◌==◌, string_eq, not,
}
use nostr_storage_orchestrat.Proxy.Placement.{ServerCandidate, select_owner}
use nostr_storage_orchestrat.Proxy.Placement.Fair.{swap, select_owner-Reorder}
use nostr_storage_orchestrat.Proxy.RateLimit.{Options, admitted, requests, hit_limit}
use nostr_storage_orchestrat.Proxy.Upload.{upload_blob}
use nostr_storage_orchestrat.Proxy.Upload.Replicas.{Replicates, upload_blob-Replicates}
use nostr_storage_orchestrat.Proxy.Upload.Remaining.{UniqueIds}
use nostr_storage_orchestrat.Common.{some, []}
use nostr_storage_orchestrat.Proxy.Access.{
  Lookup, get, drop, get_user, run_calls, IsRecent, get_user-IsRecent,
}
use nostr_storage_orchestrat.Tests.Data.{alice, differ}

abbrev one : ServerCandidate
one = record { id = "one"; url = "http://10.0.0.1:80" }

abbrev two : ServerCandidate
two = record { id = "two"; url = "http://10.0.0.2:80" }

abbrev three : ServerCandidate
three = record { id = "three"; url = "http://10.0.0.3:80" }

abbrev roster : List ServerCandidate
roster = one ∷ two ∷ three ∷ []

roster-UniqueIds : UniqueIds roster
roster-UniqueIds = (
  (differ "two" "one" refl, (differ "three" "one" refl, tt)),
  ((differ "three" "two" refl, tt), (tt, tt)),
)

-- the first provider is down
abbrev put : ServerCandidate → Bool
put c = not (c.id == "one")

upload_blob-Replicates_example : Replicates put 2 roster (upload_blob put "alice" 0 2 roster)
upload_blob-Replicates_example =
    upload_blob-Replicates put "alice" 0 2 roster (omega arith) roster-UniqueIds

one_is_not_two : one.id ≢ two.id
one_is_not_two = differ "one" "two" refl

select_owner-Reorder_example :
    select_owner "alice" (one ∷ two ∷ three ∷ []) 7
    ≡ select_owner "alice" (two ∷ one ∷ three ∷ []) 7
select_owner-Reorder_example =
    select_owner-Reorder "alice" 7 (one ∷ two ∷ three ∷ []) (two ∷ one ∷ three ∷ [])
      (swap one_is_not_two)

abbrev options : Options
options = record { window_ms = 1000; max = 2 }

hit_limit_example :
    admitted options "ip" (("ip", 5) ∷ ("ip", 6) ∷ ("other", 6) ∷ ("ip", 7) ∷ []) []
    ≡ min (requests "ip" (("ip", 5) ∷ ("ip", 6) ∷ ("other", 6) ∷ ("ip", 7) ∷ [])) (max 1 2)
hit_limit_example =
    hit_limit options "ip" 5 (("ip", 6) ∷ ("other", 6) ∷ ("ip", 7) ∷ []) [] (omega arith)
      (λ b e. ground arith) (omega arith, (omega arith, (omega arith, tt)))

-- db-api answers with the account of the examples, at any time
abbrev lookup_alice : Lookup
lookup_alice = λ now npub. some alice

get_user-IsRecent_example : IsRecent 15 lookup_alice "alice" 20 (
    (get_user 15 lookup_alice "alice" 20
      (run_calls 15 lookup_alice ((10, get "alice") ∷ (11, drop "bob") ∷ []) [])).0)
get_user-IsRecent_example =
    get_user-IsRecent 15 lookup_alice ((10, get "alice") ∷ (11, drop "bob") ∷ []) "alice" 20
