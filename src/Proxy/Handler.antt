-- ===== src/Proxy/Handler.antt =====
-- How a handler of the proxy runs: it changes the world and goes on, or it has answered. An exception is an answer too,
-- the one of the handler's `catch`, which each step that can throw is given.
use nostr_storage_orchestrat.Common.{ℕ, ◌≡◌, refl, ◌⊎◌, inl, inr, Bool, true, false, Option, String}
use nostr_storage_orchestrat.Common.Int.{ℤ}
use nostr_storage_orchestrat.Lifecycle.{UserStatus}
use nostr_storage_orchestrat.Proxy.Client.{Answer, answer, api_error, unreachable}
use nostr_storage_orchestrat.Proxy.World.{World}

-- The body of `sendAccessError`.
pub record AccessError : Type 0 where
  pub code : String
  pub status : UserStatus
  pub action : String
  pub used_storage : ℤ
  pub storage_bytes : Option ℤ

-- A status with a body, with `{ error }`, or the 403 of `sendAccessError`.
pub data Reply {ℓ} (R : Type ℓ) : Type ℓ where
  reply : ℕ → R → Reply R
  refused : ℕ → String → Reply R
  forbidden : AccessError → Reply R

abbrev pub is_reply : {R : Type 0} → Reply R → Bool
is_reply (reply status r) = true
is_reply _ = false

pub data Outcome {ℓ} (R A : Type ℓ) : Type ℓ where
  next : A → Outcome R A
  done : Reply R → Outcome R A

abbrev pub Handler : Type 0 → Type 0 → Type 0
Handler R A = World → Outcome R A × World

abbrev go_on : {R A B : Type 0} → (A → Handler R B) → Outcome R A × World → Outcome R B × World
go_on k (next a, w) = k a w
go_on k (done r, w) = (done r, w)

infixl 5 ◌>>=◌ ◌>>◌
abbrev pub ◌>>=◌ : {R A B : Type 0} → Handler R A → (A → Handler R B) → Handler R B
◌>>=◌ h k w = go_on k (h w)

abbrev pub ◌>>◌ : {R A B : Type 0} → Handler R A → Handler R B → Handler R B
h >> k = h >>= λ _. k

abbrev pub pure : {R A : Type 0} → A → Handler R A
pure a w = (next a, w)

abbrev pub respond : {R A : Type 0} → Reply R → Handler R A
respond r w = (done r, w)

-- `if (test) return …`
abbrev pub respond_if : {R : Type 0} → Bool → Reply R → Handler R (Unit {0})
respond_if true r w = (done r, w)
respond_if false r w = (next tt, w)

-- The value of a call that may throw, whose exception ends in `r`.
abbrev pub or_throw : {R A : Type 0} → Reply R → Answer A → Handler R A
or_throw r (answer a) w = (next a, w)
or_throw r (api_error status e) w = (done r, w)
or_throw r unreachable w = (done r, w)

abbrev settle : {R : Type 0} → Outcome R (Reply R) × World → Reply R × World
settle (next r, w) = (r, w)
settle (done r, w) = (r, w)

abbrev pub run_handler : {R : Type 0} → Handler R (Reply R) → World → Reply R × World
run_handler h w = settle (h w)

-- After a step: `Q` of its value where the handler goes on, `E` of its answer where it ends.
abbrev pub After :
    {R A : Type 0}
    → (A → World → Type 0)
    → (Reply R → World → Type 0)
    → Outcome R A × World
    → Type 0
After Q E (next a, w) = Q a w
After Q E (done r, w) = E r w

-- From `P` a step leads to `Q`, or ends in `E`.
pub record Triple {R A : Type 0} (P : World → Type 0) (h : Handler R A) (Q : A → World → Type 0)
    (E : Reply R → World → Type 0) : Type 0 where
  pub holds : (w : World) → P w → After Q E (h w)

pub Outcome-cases :
    {R A : Type 0} (o : Outcome R A × World)
    → ((a : A) × (w : World) × (o ≡ (next a, w)))
      ⊎ ((r : Reply R) × (w : World) × (o ≡ (done r, w)))
Outcome-cases (next a, w) = inl (a, w, refl)
Outcome-cases (done r, w) = inr (r, w, refl)

module _ {R A B : Type 0} {P : World → Type 0} {Q : A → World → Type 0} {S : B → World → Type 0}
    {E : Reply R → World → Type 0} where
  pub Triple-bind :
      (h : Handler R A) (k : A → Handler R B)
      → Triple P h Q E
      → ((a : A) → Triple (Q a) (k a) S E)
      → Triple P (h >>= k) S E
  Triple-bind h k first then = record {
    holds = λ w p.
        let begun = first.holds w p in
        elim (Outcome-cases (h w)) [
          | inl (a, w', e) ↦ rw (◌>>=◌, e) ((then a).holds w' (rw e at begun))
          | inr (r, w', e) ↦ rw (◌>>=◌, e) (rw e at begun)
        ];
  }

module _ {R : Type 0} {P : World → Type 0} {E : Reply R → World → Type 0} where
  pub run-Triple :
      (h : Handler R (Reply R))
      → Triple P h E E
      → (w : World) → P w
      → E (run_handler h w).0 (run_handler h w).1
  run-Triple h t w p =
      let ended = t.holds w p in
      elim (Outcome-cases (h w)) [
        | inl (r, w', e) ↦ rw (run_handler, e) (rw e at ended)
        | inr (r, w', e) ↦ rw (run_handler, e) (rw e at ended)
      ]

  pub respond_if-Triple :
      (test : Bool) (r : Reply R)
      → (test ≡ true → (w : World) → P w → E r w)
      → Triple P (respond_if test r) (λ _ w. (test ≡ false) × P w) E
  respond_if-Triple true r f = record { holds = λ w p. f refl w p }
  respond_if-Triple false r f = record { holds = λ w p. (refl, p) }

  pub or_throw-Triple :
      {A : Type 0} (r : Reply R) (a : Answer A)
      → ((w : World) → P w → E r w)
      → Triple P (or_throw r a) (λ x w. (a ≡ answer x) × P w) E
  or_throw-Triple r (answer x) f = record { holds = λ w p. (refl, p) }
  or_throw-Triple r (api_error status e) f = record { holds = λ w p. f w p }
  or_throw-Triple r unreachable f = record { holds = λ w p. f w p }

-- What is known before may be more, and what is wanted after may be less.
pub Triple-mono :
    {R A : Type 0} {P P' : World → Type 0} {Q Q' : A → World → Type 0}
    {E E' : Reply R → World → Type 0} (h : Handler R A)
    → ((w : World) → P' w → P w)
    → ((a : A) (w : World) → Q a w → Q' a w)
    → ((r : Reply R) (w : World) → E r w → E' r w)
    → Triple P h Q E
    → Triple P' h Q' E'
Triple-mono h before goes ends t = record {
  holds = λ w p.
      let held = t.holds w (before w p) in
      elim (Outcome-cases (h w)) [
        | inl (a, w', e) ↦ rw e (goes a w' (rw e at held))
        | inr (r, w', e) ↦ rw e (ends r w' (rw e at held))
      ];
}
