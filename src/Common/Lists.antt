-- ===== src/Common/Lists.antt =====
-- Lists measured by native numbers, and searched by Boolean tests.
use Prim.Native.Nat.{ℕ, suc, ◌+◌, ◌≤◌}
use mathlib.Core.Path.{◌≡◌, refl}
use mathlib.Core.Bool.{Bool, true, false, ◌&&◌, ◌||◌}
use mathlib.Core.List.{List, [], ◌∷◌, ◌++◌}
use mathlib.Core.Option.{Option, none, some}
use native.Mathlib.Omega.{arith}
use mathlib.Core.Logic.{inl, inr}
use nostr_storage_orchestrat.Common.Tests.{Bool-cases, if◌then◌else◌}

module _ {ℓ} {A : Type ℓ} where
  abbrev pub length : List A → ℕ
  length [] = 0
  length (x ∷ xs) = suc (length xs)

  -- The first element that passes, as `Array.prototype.find`.
  abbrev pub find : (A → Bool) → List A → Option A
  find p [] = none
  find p (x ∷ xs) = if p x then some x else find p xs

  -- Keeps what passes, as `Array.prototype.filter`.
  abbrev pub keep : (A → Bool) → List A → List A
  keep p [] = []
  keep p (x ∷ xs) = let rest = keep p xs in if p x then x ∷ rest else rest

  abbrev pub any : (A → Bool) → List A → Bool
  any p [] = false
  any p (x ∷ xs) = p x || any p xs

  abbrev pub all : (A → Bool) → List A → Bool
  all p [] = true
  all p (x ∷ xs) = p x && all p xs

  abbrev pub All {κ} : (A → Type κ) → List A → Type κ
  All P [] = Unit
  All P (x ∷ xs) = P x × All P xs

  pub length-append : (xs ys : List A) → length (xs ++ ys) ≡ length xs + length ys
  length-append [] ys = omega arith
  length-append (x ∷ xs) ys = omega (arith, length-append xs ys)

  pub length-keep-le : (p : A → Bool) (xs : List A) → length (keep p xs) ≤ length xs
  length-keep-le p [] = omega arith
  length-keep-le p (x ∷ xs) = ground (arith, length-keep-le p xs)

  abbrev pub count : (A → Bool) → List A → ℕ
  count p [] = 0
  count p (x ∷ xs) = let rest = count p xs in if p x then suc rest else rest

  -- Changes what passes, as an `UPDATE … WHERE`.
  abbrev pub update_where : (A → Bool) → (A → A) → List A → List A
  update_where p f [] = []
  update_where p f (x ∷ xs) = (if p x then f x else x) ∷ update_where p f xs

module _ {ℓ} {A : Type ℓ} where
  pub keep-keep : (p q : A → Bool) (xs : List A) → keep q (keep p xs) ≡ keep (λ x. p x && q x) xs
  keep-keep p q [] = refl
  keep-keep p q (x ∷ xs) = ground (arith, keep-keep p q xs)

  pub keep_congr : (p q : A → Bool) (xs : List A) → All (λ x. p x ≡ q x) xs → keep p xs ≡ keep q xs
  keep_congr p q [] h = refl
  keep_congr p q (x ∷ xs) h = ground (arith, h.0, keep_congr p q xs h.1)

  pub All-of {κ} : (P : A → Type κ) (xs : List A) → ((x : A) → P x) → All P xs
  All-of P [] f = tt
  All-of P (x ∷ xs) f = (f x, All-of P xs f)

  pub All-mono {κ μ} :
      (P : A → Type κ) (Q : A → Type μ) (xs : List A) → ((x : A) → P x → Q x) → All P xs → All Q xs
  All-mono P Q [] f h = tt
  All-mono P Q (x ∷ xs) f h = (f x h.0, All-mono P Q xs f h.1)

  pub All-append {κ} :
      (P : A → Type κ) (xs : List A) (x : A) → All P xs → P x → All P (xs ++ x ∷ [])
  All-append P [] x h px = (px, tt)
  All-append P (y ∷ xs) x h px = (h.0, All-append P xs x h.1 px)

  pub All-keep {κ} : (P : A → Type κ) (p : A → Bool) (xs : List A) → All P xs → All P (keep p xs)
  All-keep P p [] h = tt
  All-keep P p (x ∷ xs) h = elim (Bool-cases (p x)) [
    | inl e ↦ rw e (h.0, All-keep P p xs h.1)
    | inr e ↦ rw e (All-keep P p xs h.1)
  ]

  -- What is kept is found again, by any test that it passes.
  any-keep_each :
      (p : A → Bool) (same : A → A → Bool) (xs : List A)
      → ((x : A) → same x x ≡ true)
      → All (λ x. p x ≡ true → any (λ r. same r x) (keep p xs) ≡ true) xs
  any-keep_each p same [] h = tt
  any-keep_each p same (x ∷ xs) h = (
    λ e. ground (arith, h x),
    All-mono (λ y. p y ≡ true → any (λ r. same r y) (keep p xs) ≡ true)
        (λ y. p y ≡ true → any (λ r. same r y) (keep p (x ∷ xs)) ≡ true) xs
        (λ y f e. ground (arith, f e)) (any-keep_each p same xs h),
  )

  any-keep_only :
      (p : A → Bool) (same : A → A → Bool) (xs : List A) (y : A)
      → ((r : A) → same r y ≡ true → p r ≡ p y)
      → any (λ r. same r y) (keep p xs) ≡ true
      → p y ≡ true
  any-keep_only p same [] y h e = cc
  any-keep_only p same (x ∷ xs) y h e = ground (arith, h x, any-keep_only p same xs y h)

  -- A selection that respects `same` selects just what is the same as something selected.
  pub any-keep_self :
      (p : A → Bool) (same : A → A → Bool) (xs : List A)
      → ((x : A) → same x x ≡ true)
      → ((r y : A) → same r y ≡ true → p r ≡ p y)
      → All (λ x. any (λ r. same r x) (keep p xs) ≡ p x) xs
  any-keep_self p same xs self respects =
      All-mono (λ x. p x ≡ true → any (λ r. same r x) (keep p xs) ≡ true)
        (λ x. any (λ r. same r x) (keep p xs) ≡ p x) xs
        (λ x f. ground (arith, f, any-keep_only p same xs x (λ r. respects r x)))
        (any-keep_each p same xs self)
