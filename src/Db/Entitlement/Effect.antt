-- ===== src/Db/Entitlement/Effect.antt =====
-- What an admitted request does to an account's plan.
use nostr_storage_orchestrat.Common.{
  ℕ, ◌+◌, ◌*◌, ◌≤◌, ◌<◌, max, ltb, ◌≡◌, refl, ◌⊎◌, Bool, true, false, Option, none, some, inl, inr,
  arith, Bool-cases, Option-cases,
}
use nostr_storage_orchestrat.Common.Js.{Date, at, invalid, epoch, add_days, day_ms}
use nostr_storage_orchestrat.Db.{User}
use nostr_storage_orchestrat.Db.Entitlement.{
  EntitlementMode, extend, upgrade, ParsedEntitlementRequest, Parsed, ok, throw, EntitlementEffect,
  is_live, base_time, compute_entitlement,
}

-- A plan runs where its expiry is a date after now, and has ended otherwise.
abbrev pub Runs : Option Date → ℕ → Type 0
Runs plan now = (e : ℕ) × (plan ≡ some (at e)) × (now < e)

abbrev pub HasEnded : Option Date → ℕ → Type 0
HasEnded plan now = (e : ℕ) → plan ≡ some (at e) → e ≤ now

live_cases :
    (plan : Option Date) (now : ℕ)
    → (Runs plan now × (is_live plan now ≡ true)) ⊎ (HasEnded plan now × (is_live plan now ≡ false))
live_cases none now = inr ((λ e h. cc), refl)
live_cases (some invalid) now = inr ((λ e h. cc), refl)
live_cases (some (at t)) now = elim (Bool-cases (ltb now t)) [
  | inl h ↦ inl ((t, refl, ground arith), h)
  | inr h ↦ inr ((λ e same. let one : t ≡ e = ground arith in rw (← one) (ground arith)), h)
]

-- The date from which the days of a purchase count: now or the old expiry, the later of the two. An account
-- without an expiry counts from now, or from 1970 where that is later, and an invalid expiry stays invalid.
abbrev pub CountsFrom : Option Date → ℕ → Date → Type 0
CountsFrom (some invalid) now d = d ≡ invalid
CountsFrom (some (at e)) now d = (x : ℕ) × (d ≡ at x) × (now ≤ x) × (e ≤ x) × ((x ≡ now) ⊎ (x ≡ e))
CountsFrom none now d = (x : ℕ) × (d ≡ at x) × (now ≤ x) × (epoch ≤ x) × ((x ≡ now) ⊎ (x ≡ epoch))

base_time-CountsFrom : (plan : Option Date) (now : ℕ) → CountsFrom plan now (base_time plan now)
base_time-CountsFrom none now = (max now epoch, refl, omega arith, omega arith, ground arith)
base_time-CountsFrom (some invalid) now = refl
base_time-CountsFrom (some (at e)) now = (max now e, refl, omega arith, omega arith, ground arith)

-- The new expiry: the override where there is one, and else the days of the purchase after that date.
abbrev pub Expires : User → ParsedEntitlementRequest → ℕ → Date → Type 0
Expires user request now d =
    (request.plan_expires_at ≡ some d)
    ⊎ ((request.plan_expires_at ≡ none)
        × ((from : Date) × CountsFrom user.plan_expires_at now from
            × (d ≡ add_days from request.duration_days)))

pub data Effects (user : User) (request : ParsedEntitlementRequest) (now : ℕ)
    (r : Parsed EntitlementEffect) : Type 0 where
  refused :
      Runs user.plan_expires_at now
      → request.force ≡ false
      → request.mode ≡ none
      → r ≡ throw 409 "mode_required"
      → Effects user request now r
  renewed :
      (d : Date)
      → Runs user.plan_expires_at now
      → request.force ≡ false
      → request.mode ≡ some extend
      → Expires user request now d
      → r ≡ ok (record { plan_expires_at = d; storage_bytes = user.storage_bytes })
      → Effects user request now r
  granted :
      (d : Date)
      → HasEnded user.plan_expires_at now ⊎ (request.force ≡ true) ⊎ (request.mode ≡ some upgrade)
      → Expires user request now d
      → r ≡ ok (record { plan_expires_at = d; storage_bytes = some request.storage_bytes })
      → Effects user request now r

abbrev new_expiry : User → ParsedEntitlementRequest → ℕ → Date
new_expiry user request now = elim request.plan_expires_at [
  | none ↦ add_days (base_time user.plan_expires_at now) request.duration_days
  | some d ↦ d
]

new_expiry-Expires :
    (user : User) (request : ParsedEntitlementRequest) (now : ℕ)
    → Expires user request now (new_expiry user request now)
new_expiry-Expires user request now = elim (Option-cases request.plan_expires_at) [
  | inl e ↦
      let base = base_time user.plan_expires_at now in
      let same : new_expiry user request now ≡ add_days base request.duration_days =
        rw (new_expiry, e) refl in
      inr (e, (base, base_time-CountsFrom user.plan_expires_at now, same))
  | inr (d, e) ↦
      let same : new_expiry user request now ≡ d = rw (new_expiry, e) refl in inl (rw same e)
]

-- A plan that runs, with no mode given and no force, is refused; one that is extended without force
-- keeps its allowance; in every other case the requested allowance is set. The expiry is the override,
-- or the given days after now or the old expiry, the later of the two.
pub compute_entitlement-Effects :
    (user : User) (request : ParsedEntitlementRequest) (now : ℕ)
    → Effects user request now (compute_entitlement user request now)
unfolding compute_entitlement
compute_entitlement-Effects user request now = elim (live_cases user.plan_expires_at now) [
  | inl (runs, el) ↦ live runs el request.force refl request.mode refl
  | inr (ended, el) ↦ granted d (inl ended) expires (ground arith)
]
  where
    d : Date
    d = new_expiry user request now

    expires : Expires user request now d
    expires = new_expiry-Expires user request now

    live :
        Runs user.plan_expires_at now
        → is_live user.plan_expires_at now ≡ true
        → (f : Bool) → request.force ≡ f
        → (m : Option EntitlementMode) → request.mode ≡ m
        → Effects user request now (compute_entitlement user request now)
    live runs el true ef m em = granted d (inr (inl ef)) expires (ground arith)
    live runs el false ef none em = refused runs ef em (ground arith)
    live runs el false ef (some extend) em = renewed d runs ef em expires (ground arith)
    live runs el false ef (some upgrade) em = granted d (inr (inr em)) expires (ground arith)

-- Without an override, and where the new expiry is a valid date, a purchase adds its days in full:
-- the new expiry is at least that many days after now, and at least that many days after the old
-- expiry.
pub compute_entitlement_adds :
    (user : User) (request : ParsedEntitlementRequest) (now x : ℕ) (effect : EntitlementEffect)
    → compute_entitlement user request now ≡ ok effect
    → request.plan_expires_at ≡ none
    → effect.plan_expires_at ≡ at x
    → (now + request.duration_days * day_ms ≤ x)
      × ((e : ℕ) → user.plan_expires_at ≡ some (at e) → e + request.duration_days * day_ms ≤ x)
unfolding compute_entitlement
compute_entitlement_adds user request now x effect h o valid = (ground arith, λ e old. ground arith)
