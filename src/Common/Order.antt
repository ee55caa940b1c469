-- ===== src/Common/Order.antt =====
-- The order of texts, by their characters' numbers.
use Prim.Native.String.{String, compare, then, [], ◌∷◌}
use Prim.Native.String.compare
use Prim.Native.Char.{Char, code}
use Prim.Native.Nat.{ℕ, Ordering, compare as compare_ℕ}
use mathlib.Core.Path.{ap, ◌≡◌, refl, sym, ◌∙◌}
use mathlib.Core.Bool.{Bool, true, false}
use native.Mathlib.Omega.{arith}
use text.Mathlib.Text.{is_lt}
use text.Mathlib.TextEquality.{codes_equal}

-- `a < b` on texts; on characters up to U+FFFF, JavaScript's order by UTF-16 units is the same.
unfoldable pub less : String → String → Bool
less a b = is_lt (compare a b)

-- The comparison of two first characters decides, unless they are one.
after : ℕ → ℕ → Ordering → Bool
after a b rest = is_lt (then (compare_ℕ a b) rest)

after_trans :
    (a b c : ℕ) (o p q : Ordering)
    → (is_lt o ≡ true → is_lt p ≡ true → is_lt q ≡ true)
    → after a b o ≡ true
    → after b c p ≡ true
    → after a c q ≡ true
unfolding after
after_trans a b c o p q step h k = ground (arith, step)

less-nil-nil : less [] [] ≡ false
unfolding less
less-nil-nil = ap is_lt compare.nil-nil

less-nil-cons : (d : Char) (t : String) → less [] (d ∷ t) ≡ true
unfolding less
less-nil-cons d t = ap is_lt (compare.nil-cons d t)

less-cons-nil : (c : Char) (s : String) → less (c ∷ s) [] ≡ false
unfolding less
less-cons-nil c s = ap is_lt (compare.cons-nil c s)

less-cons-cons :
    (c d : Char) (s t : String) → less (c ∷ s) (d ∷ t) ≡ after (code c) (code d) (compare s t)
unfolding less after
less-cons-cons c d s t = ap is_lt (compare.cons-cons c d s t)

less_of : (a b : String) → less a b ≡ is_lt (compare a b)
unfolding less
less_of a b = refl

pub less_trans : (a b c : String) → less a b ≡ true → less b c ≡ true → less a c ≡ true
less_trans [] [] c h k = ground (arith, less-nil-nil)
less_trans [] (y ∷ b) [] h k = ground (arith, less-cons-nil y b)
less_trans [] (y ∷ b) (z ∷ c) h k = less-nil-cons z c
less_trans (x ∷ a) [] c h k = ground (arith, less-cons-nil x a)
less_trans (x ∷ a) (y ∷ b) [] h k = ground (arith, less-cons-nil y b)
less_trans (x ∷ a) (y ∷ b) (z ∷ c) h k =
    less-cons-cons x z a c
    ∙ after_trans (code x) (code y) (code z) (compare a b) (compare b c) (compare a c)
        (λ h k. sym (less_of a c) ∙ less_trans a b c (less_of a b ∙ h) (less_of b c ∙ k))
        (sym (less-cons-cons x y a b) ∙ h) (sym (less-cons-cons y z b c) ∙ k)

after_asym :
    (a b : ℕ) (o p : Ordering)
    → (is_lt o ≡ true → is_lt p ≡ false)
    → after a b o ≡ true
    → after b a p ≡ false
unfolding after
after_asym a b o p step h = ground (arith, step)

pub less_asym : (a b : String) → less a b ≡ true → less b a ≡ false
less_asym [] [] h = less-nil-nil
less_asym [] (y ∷ b) h = less-cons-nil y b
less_asym (x ∷ a) [] h = ground (arith, less-cons-nil x a)
less_asym (x ∷ a) (y ∷ b) h =
    less-cons-cons y x b a
    ∙ after_asym (code x) (code y) (compare a b) (compare b a)
        (λ h. sym (less_of b a) ∙ less_asym a b (less_of a b ∙ h))
        (sym (less-cons-cons x y a b) ∙ h)

after_total :
    (a b : ℕ) (o p : Ordering)
    → after a b o ≡ false
    → after b a p ≡ false
    → (compare_ℕ a b ≡ Ordering.eq) × (is_lt o ≡ false) × (is_lt p ≡ false)
unfolding after
after_total a b o p h k = ground arith

pub less_total : (a b : String) → less a b ≡ false → less b a ≡ false → a ≡ b
less_total [] [] h k = refl
less_total [] (y ∷ b) h k = ground (arith, less-nil-cons y b)
less_total (x ∷ a) [] h k = ground (arith, less-nil-cons x a)
less_total (x ∷ a) (y ∷ b) h k =
    let (e, o, p) =
      after_total (code x) (code y) (compare a b) (compare b a) (sym (less-cons-cons x y a b) ∙ h)
        (sym (less-cons-cons y x b a) ∙ k) in
    λ i. codes_equal x y e i ∷ less_total a b (less_of a b ∙ o) (less_of b a ∙ p) i
