-- ===== src/Db/Entitlement/Calls.antt =====
-- The reads that an admitted entitlement request went through.
use nostr_storage_orchestrat.Common.{ℕ, ◌≡◌, ap, Bool, Option, String, string_eq, arith}
use nostr_storage_orchestrat.Common.Int.{ℤ}
use nostr_storage_orchestrat.Common.Js.{Value, get, Date, Runtime}
use nostr_storage_orchestrat.Db.Entitlement.{
  EntitlementMode, EntitlementSource, ParsedEntitlementRequest, Parsed, ok, ◌>>=◌, parse_duration,
  parse_source, parse_storage_bytes, parse_mode, parse_force, parse_payment_hash, parse_override,
  parse_body,
}

-- The calls that `parse_body` makes, where none of them throws.
pub record Calls (js : Runtime) (b : Value) (r : ParsedEntitlementRequest) : Type 0 where
  pub duration : parse_duration (get b "durationDays") ≡ ok r.duration_days
  pub bytes : parse_storage_bytes js (get b "storageBytes") ≡ ok r.storage_bytes
  pub source : parse_source (get b "source") ≡ ok r.source
  pub mode : parse_mode (get b "mode") ≡ ok r.mode
  pub force : parse_force (get b "force") r.source ≡ ok r.force
  pub hash : parse_payment_hash js (get b "paymentHash") r.source ≡ ok r.payment_hash
  pub override : parse_override js (get b "planExpiresAt") r.source ≡ ok r.plan_expires_at

abbrev request :
    ℕ
    → EntitlementSource
    → ℤ
    → Option EntitlementMode
    → Bool
    → Option String
    → Option Date
    → ParsedEntitlementRequest
request n s b m f h o = record {
  duration_days = n;
  storage_bytes = b;
  source = s;
  mode = m;
  force = f;
  payment_hash = h;
  plan_expires_at = o;
}

tail_ok :
    (n : ℕ) (s : EntitlementSource) (b : ℤ) (m : Option EntitlementMode) (f : Parsed Bool)
    (h : Parsed (Option String)) (o : Parsed (Option Date)) (r : ParsedEntitlementRequest)
    → (do force ← f; hash ← h; override ← o; ok (request n s b m force hash override)) ≡ ok r
    → (n ≡ r.duration_days)
      × (s ≡ r.source)
      × (b ≡ r.storage_bytes)
      × (m ≡ r.mode)
      × (f ≡ ok r.force)
      × (h ≡ ok r.payment_hash)
      × (o ≡ ok r.plan_expires_at)
tail_ok n s b m (ok f) (ok h) (ok o) r e = ground arith
tail_ok n s b m _ _ _ r e = cc

-- A chain of the seven reads that succeeds, over any reads.
chain_ok :
    (n : Parsed ℕ) (s : Parsed EntitlementSource) (b : Parsed ℤ)
    (m : Parsed (Option EntitlementMode)) (f : EntitlementSource → Parsed Bool)
    (h : EntitlementSource → Parsed (Option String)) (o : EntitlementSource → Parsed (Option Date))
    (r : ParsedEntitlementRequest)
    → (do
      duration ← n
      source ← s
      bytes ← b
      mode ← m
      force ← f source
      hash ← h source
      override ← o source
      ok (request duration source bytes mode force hash override))
      ≡ ok r
    → (n ≡ ok r.duration_days)
      × (b ≡ ok r.storage_bytes)
      × (s ≡ ok r.source)
      × (m ≡ ok r.mode)
      × (f r.source ≡ ok r.force)
      × (h r.source ≡ ok r.payment_hash)
      × (o r.source ≡ ok r.plan_expires_at)
chain_ok (ok n) (ok s) (ok b) (ok m) f h o r e =
    let (days, source, bytes, mode, force, hash, override) =
      tail_ok n s b m (f s) (h s) (o s) r e in
    (
      ap ok days,
      ap ok bytes,
      ap ok source,
      ap ok mode,
      rw (← source) force,
      rw (← source) hash,
      rw (← source) override,
    )
chain_ok _ _ _ _ f h o r e = cc

pub parse_body-Calls :
    (js : Runtime) (b : Value) (r : ParsedEntitlementRequest)
    → parse_body js b ≡ ok r
    → Calls js b r
unfolding parse_body
parse_body-Calls js b r e =
    let (n, s, source, mode, f, h, o) =
      chain_ok (parse_duration (get b "durationDays")) (parse_source (get b "source"))
        (parse_storage_bytes js (get b "storageBytes")) (parse_mode (get b "mode"))
        (parse_force (get b "force")) (parse_payment_hash js (get b "paymentHash"))
        (parse_override js (get b "planExpiresAt")) r e in
    record {
      duration = n;
      bytes = s;
      source = source;
      mode = mode;
      force = f;
      hash = h;
      override = o;
    }
