-- ===== src/Locks/Exclusion.antt =====
-- A spin lock is held by one thread at most, which runs without interrupts.
use sar_osx.Base.{
  All, ℕ, zero, suc, ◌+◌, ◌≡◌, refl, sym, ap, ◌∙◌, inl, inr, Bool, true, false, some, List, [], ◌∷◌,
  arith, if◌then◌else◌, Bool-cases, get_elem?, set,
}
use mathlib.Core.Path.{subst}
use sar_osx.Locks.{
  Phase, outside, holding, leaving, Thread, SpinLock, put, restored, acquire, lock_attempt,
  try_lock_attempt, At, Step, lock_starts, lock_attempts, exchange_fails, try_lock_starts,
  try_lock_attempts, unlock_stores, unlock_ends, IsOutside, Reach, start, step,
}

-- How much the elements of a list weigh together.
module _ {A : Type 0} (weight : A → ℕ) where
  unfoldable pub total : List A → ℕ
  total [] = 0
  total (x ∷ xs) = weight x + total xs

  pub total-set :
      (xs : List A) (i : ℕ) (x y : A)
      → get_elem? xs i ≡ some x
      → total (set xs i y) + weight x ≡ total xs + weight y
  unfolding total
  total-set [] i x y e = cc
  total-set (z ∷ xs) zero x y e = let same : z ≡ x = cc in rw same (omega arith)
  total-set (z ∷ xs) (suc i) x y e = omega (arith, total-set xs i x y e)

pub All-set :
    {A : Type 0} (P : A → Type 0) (xs : List A) (i : ℕ) (y : A)
    → All P xs
    → P y
    → All P (set xs i y)
All-set P [] i y a p = tt
All-set P (x ∷ xs) zero y a p = (p, a.1)
All-set P (x ∷ xs) (suc i) y a p = (a.0, All-set P xs i y a.1 p)

pub All-get :
    {A : Type 0} (P : A → Type 0) (xs : List A) (i : ℕ) (x : A)
    → All P xs
    → get_elem? xs i ≡ some x
    → P x
All-get P [] i x a e = cc
All-get P (y ∷ xs) zero x a e = let same : y ≡ x = cc in subst P same a.0
All-get P (y ∷ xs) (suc i) x a e = All-get P xs i x a.1 e

abbrev pub holds : Phase → ℕ
holds (holding saved) = 1
holds _ = 0

abbrev pub holder : Thread → ℕ
holder t = holds t.phase

abbrev pub is_outside : Phase → Bool
is_outside outside = true
is_outside _ = false

-- Interrupts are off in a thread that has called and not come back.
abbrev pub IsShielded : Thread → Type 0
IsShielded t = is_outside t.phase ≡ false → t.interrupts ≡ false

pub record IsSafe (s : SpinLock) : Type 0 where
  pub holders : total holder s.threads ≡ (if s.locked then 1 else 0)
  pub shielded : All IsShielded s.threads

put-IsSafe :
    (s : SpinLock) (i : ℕ) (t t' : Thread)
    → IsSafe s
    → At s i t
    → holder t ≡ 0
    → holder t' ≡ 0
    → IsShielded t'
    → IsSafe (put s i t')
put-IsSafe s i t t' v at none_before none_after shield = record {
  holders = omega (arith, total-set holder s.threads i t t' at, v.holders);
  shielded = All-set IsShielded s.threads i t' v.shielded shield;
}

acquire-IsSafe :
    (s : SpinLock) (i : ℕ) (t : Thread) (saved : Bool)
    → IsSafe s
    → At s i t
    → holder t ≡ 0
    → t.interrupts ≡ false
    → s.locked ≡ false
    → IsSafe (acquire s i t saved)
acquire-IsSafe s i t saved v at none_before off free =
    let t' : Thread = record t { phase = holding saved } in
    let before : total holder s.threads ≡ 0 = ground (arith, v.holders) in
    record {
      holders = omega (arith, total-set holder s.threads i t t' at, before);
      shielded = All-set IsShielded s.threads i t' v.shielded (λ _. off);
    }

shielded-At :
    (s : SpinLock) (i : ℕ) (t : Thread) (p : Phase)
    → IsSafe s
    → At s i t
    → t.phase ≡ p
    → is_outside p ≡ false
    → t.interrupts ≡ false
shielded-At s i t p v at e inside =
    All-get IsShielded s.threads i t v.shielded at (ap is_outside e ∙ inside)

Step-IsSafe : {s s' : SpinLock} → Step s s' → IsSafe s → IsSafe s'
unfolding lock_attempt try_lock_attempt
Step-IsSafe {s} (lock_starts i t at e) v = put-IsSafe s i t _ v at (ap holds e) refl (λ _. refl)
Step-IsSafe {s} (lock_attempts i t saved at e) v = elim (Bool-cases s.locked) [
  | inl l ↦ simp l v
  | inr f ↦ rw f (acquire-IsSafe s i t saved v at (ap holds e) (shielded-At s i t _ v at e refl) f)
]
Step-IsSafe exchange_fails v = v
Step-IsSafe {s} (try_lock_starts i t at e) v = put-IsSafe s i t _ v at (ap holds e) refl (λ _. refl)
Step-IsSafe {s} (try_lock_attempts i t saved at e) v = elim (Bool-cases s.locked) [
  | inl l ↦
      subst (λ b. IsSafe (if b then put s i (restored t saved) else acquire s i t saved)) (sym l)
        (put-IsSafe s i t (restored t saved) v at (ap holds e) refl (λ b. cc))
  | inr f ↦ rw f (acquire-IsSafe s i t saved v at (ap holds e) (shielded-At s i t _ v at e refl) f)
]
Step-IsSafe {s} (unlock_stores i t saved at e) v =
    let t' : Thread = record t { phase = leaving saved } in
    let one : holder t ≡ 1 = ap holds e in
    record {
      holders = ground (arith, total-set holder s.threads i t t' at, v.holders);
      shielded =
          All-set IsShielded s.threads i t' v.shielded
            (λ _. shielded-At s i t (holding saved) v at e refl);
    }
Step-IsSafe {s} (unlock_ends i t saved at e) v =
    put-IsSafe s i t (restored t saved) v at (ap holds e) refl (λ b. cc)

total_outside : (l : List Thread) → All IsOutside l → (total holder l ≡ 0) × All IsShielded l
unfolding total
total_outside [] a = (refl, tt)
total_outside (t ∷ l) a =
    let ih = total_outside l a.1 in
    (
      omega (arith, ap holds a.0, ih.0),
      (λ b. let bad : true ≡ false = sym (ap is_outside a.0) ∙ b in cc, ih.1),
    )

-- In every state that threads can reach from a new lock, whatever the order of their steps: exactly one
-- thread holds a guard if the lock is locked and none if it is not, and a thread between its call and
-- its return has interrupts off.
pub Reach-IsSafe : {s : SpinLock} → Reach s → IsSafe s
Reach-IsSafe (start l a) = let b = total_outside l a in record { holders = b.0; shielded = b.1 }
Reach-IsSafe (step r next) = Step-IsSafe next (Reach-IsSafe r)
