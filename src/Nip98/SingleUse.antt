-- ===== src/Nip98/SingleUse.antt =====
-- A signed event authorizes one request at most, as long as the replay cache lives.
use nostr_storage_orchestrat.Common.{ℕ, ◌+◌, ◌≤◌, ◌≡◌, ◌≢◌, List, [], ◌∷◌, arith, false}
use nostr_storage_orchestrat.Nip98.{
  NostrEvent, Nip98Request, Library, signer, Signer, VerifyOptions, Seen, outside, verify_nip98,
}
use nostr_storage_orchestrat.Nip98.Replay.{
  Carries, AllBy, accepted, remember_again, verify_each, verify_each_keeps,
}

AllBy-mono : (a b : ℕ) (reqs : List (Nip98Request × ℕ)) → a ≤ b → AllBy a reqs → AllBy b reqs
AllBy-mono a b [] h r = tt
AllBy-mono a b ((req, now) ∷ rest) h r = (omega (arith, r.0), AllBy-mono a b rest h r.1)

windows :
    (created skew t later : ℕ)
    → skew ≤ 300
    → outside t created skew ≡ false
    → outside later created skew ≡ false
    → later ≤ t + 600
windows created skew t later small h k = ground arith

-- Once a request was accepted for an event, no later request that carries the event is accepted, whatever requests are
-- verified between them, where the skew is the default or less and no time in between is past the second request's.
pub verify_nip98_once :
    (lib : Library) (options : VerifyOptions) (first again : Nip98Request) (event : NostrEvent)
    (s s' : Signer) (t later : ℕ) (between : List (Nip98Request × ℕ)) (seen : Seen)
    → options.max_skew_seconds ≤ 300
    → Carries lib first event
    → Carries lib again event
    → (verify_nip98 lib options first t seen).0 ≡ signer s
    → AllBy later between
    → (verify_nip98 lib options again later
        (verify_each lib options between ((verify_nip98 lib options first t seen).1))).0
      ≢ signer s'
verify_nip98_once lib options first again event s s' t later between seen small c c' h by h' =
    let seen' = (verify_nip98 lib options first t seen).1 in
    let seen'' = verify_each lib options between seen' in
    let (inside, used, _) = accepted lib options first t event s seen c h in
    let (inside', _, fresh) = accepted lib options again later event s' seen'' c' h' in
    let near = windows event.created_at options.max_skew_seconds t later small inside inside' in
    let still =
      verify_each_keeps lib options between event.id t seen'
        (AllBy-mono later (t + 600) between near by) used in
    let stale = remember_again event.id t later seen'' near still in cc
