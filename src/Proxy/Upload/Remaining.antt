-- ===== src/Proxy/Upload/Remaining.antt =====
-- The candidates that remain after one was taken.
use text.Mathlib.TextPositions.{eq_refl}
use nostr_storage_orchestrat.Common.{
  suc, ◌≡◌, refl, sym, ◌≢◌, inl, inr, Bool, true, List, [], ◌∷◌, String, length, count, All, arith,
  Bool-cases, eq_iff, ◌==◌, string_eq, if◌then◌else◌,
}
use nostr_storage_orchestrat.Proxy.Placement.{ServerCandidate}
use nostr_storage_orchestrat.Proxy.Placement.Fair.{In}
use nostr_storage_orchestrat.Proxy.Upload.{remove}

abbrev pub Differs : String → ServerCandidate → Type 0
Differs id c = c.id ≢ id

-- No two candidates have one id: they come from a map.
abbrev pub UniqueIds : List ServerCandidate → Type 0
UniqueIds [] = Unit
UniqueIds (c ∷ cs) = All (Differs c.id) cs × UniqueIds cs

pub All_at :
    (P : ServerCandidate → Type 0) (c : ServerCandidate) (cs : List ServerCandidate)
    → In c cs
    → All P cs
    → P c
All_at P c [] m a = absurd m
All_at P c (d ∷ cs) (inl e) a = rw e a.0
All_at P c (d ∷ cs) (inr m) a = All_at P c cs m a.1

-- What one removal does.
pub record Removes (c : ServerCandidate) (cs rest : List ServerCandidate) : Type 0 where
  pub shorter : suc (length rest) ≡ length cs
  pub counts :
      (p : ServerCandidate → Bool) → count p cs ≡ (if p c then suc (count p rest) else count p rest)
  pub unique : UniqueIds rest
  pub others : (d : ServerCandidate) → In d rest → In d cs × Differs c.id d

All-remove :
    (P : ServerCandidate → Type 0) (id : String) (cs : List ServerCandidate)
    → All P cs
    → All P (remove id cs)
All-remove P id [] a = tt
All-remove P id (c ∷ cs) a = elim (Bool-cases (c.id == id)) [
  | inl e ↦ rw e a.1
  | inr e ↦ rw e (a.0, All-remove P id cs a.1)
]

pub remove-Removes :
    (c : ServerCandidate) (cs : List ServerCandidate)
    → UniqueIds cs
    → In c cs
    → Removes c cs (remove c.id cs)
remove-Removes c [] u m = absurd m
remove-Removes c (d ∷ cs) u (inl e) =
    let first : (d.id == c.id) ≡ true = rw e (eq_refl d.id) in
    let gone : remove c.id (d ∷ cs) ≡ cs = ground arith in
    rw gone record {
      shorter = refl;
      counts = λ p. ground arith;
      unique = u.1;
      others = λ x m. (inr m, All_at (Differs c.id) x cs m (rw e u.0));
    }
remove-Removes c (d ∷ cs) u (inr m) =
    let r = remove-Removes c cs u.1 m in
    let later : c.id ≢ d.id = All_at (Differs d.id) c cs m u.0 in
    let kept : remove c.id (d ∷ cs) ≡ d ∷ remove c.id cs = ground (arith, eq_iff d.id c.id) in
    rw kept record {
      shorter = omega (arith, r.shorter);
      counts = λ p. ground (arith, r.counts p);
      unique = (All-remove (Differs d.id) c.id cs u.0, r.unique);
      others = λ x n. elim n [
        | inl e ↦ (inl e, rw e (λ p. later (sym p)))
        | inr n' ↦ (inr (r.others x n').0, (r.others x n').1)
      ];
    }
