-- ===== src/Scheduler/Pick.antt =====
-- Which process `pick_next` of src/proc.rs takes from the queue.
use sar_osx.Base.{
  All, All-map, All-append, ℕ, suc, ◌≤◌, ◌<◌, ◌≡◌, refl, sym, ap, ◌∙◌, ◌⊎◌, inl, inr, true, false,
  Option, none, some, List, [], ◌∷◌, ◌++◌, arith, leb, Bool-cases, Option-cases,
}
use sar_osx.Scheduler.{is_runnable, Process, find_best, remove_at, pick_next}
use mathlib.Core.Path.{subst}

-- A runnable process of the list has at least (more than) this priority number.
abbrev pub AtLeast : ℕ → Process → Type 0
AtLeast k q = is_runnable q.state ≡ true → k ≤ q.priority

abbrev pub MoreThan : ℕ → Process → Type 0
MoreThan k q = is_runnable q.state ≡ true → k < q.priority

abbrev pub Waits : Process → Type 0
Waits q = is_runnable q.state ≡ false

-- The queue around the process that was taken: those before it that are runnable come strictly later
-- in priority, those behind it not earlier.
pub record Picked (queue : List Process) (p : Process) (rest : List Process) : Type 0 where
  pub before : List Process
  pub after : List Process
  pub was : queue ≡ before ++ p ∷ after
  pub left : rest ≡ before ++ after
  pub ready : is_runnable p.state ≡ true
  pub first : All (MoreThan p.priority) before
  pub least : All (AtLeast p.priority) after

record Found (queue : List Process) (i k : ℕ) : Type 0 where
  p : Process
  rest : List Process
  removed : remove_at queue i ≡ (some p, rest)
  prio : p.priority ≡ k
  picked : Picked queue p rest

find_best-none : (l : List Process) → find_best l ≡ none → All Waits l
unfolding find_best
find_best-none [] e = tt
find_best-none (x ∷ xs) e = elim (Option-cases (find_best xs)) [
  | inl n ↦ elim (Bool-cases (is_runnable x.state)) [
    | inl r ↦ let bad : ◌≡◌ {A = Option (ℕ × ℕ)} (some (0, x.priority)) none = rw (n, r) at e in cc
    | inr r ↦ (r, find_best-none xs n)
  ]
  | inr ((i, k), s) ↦ elim (Bool-cases (is_runnable x.state)) [
    | inl r ↦ elim (Bool-cases (leb x.priority k)) [
      | inl t ↦
          let bad : ◌≡◌ {A = Option (ℕ × ℕ)} (some (0, x.priority)) none = rw (s, r, t) at e in cc
      | inr t ↦ let bad : ◌≡◌ {A = Option (ℕ × ℕ)} (some (suc i, k)) none = rw (s, r, t) at e in cc
    ]
    | inr r ↦ let bad : ◌≡◌ {A = Option (ℕ × ℕ)} (some (suc i, k)) none = rw (s, r) at e in cc
  ]
]

-- The head of the queue is the best.
head-Found :
    (x : Process) (xs : List Process)
    → is_runnable x.state ≡ true
    → All (AtLeast x.priority) xs
    → Found (x ∷ xs) 0 x.priority
unfolding remove_at
head-Found x xs r h = record {
  p = x;
  rest = xs;
  removed = refl;
  prio = refl;
  picked = record {
    before = [];
    after = xs;
    was = refl;
    left = refl;
    ready = r;
    first = tt;
    least = h;
  };
}

-- The best stands in the tail.
tail-Found :
    (x : Process) (xs : List Process) (i k : ℕ)
    → MoreThan k x
    → Found xs i k
    → Found (x ∷ xs) (suc i) k
unfolding remove_at
tail-Found x xs i k h f = record {
  p = f.p;
  rest = x ∷ f.rest;
  removed = rw f.removed;
  prio = f.prio;
  picked = record {
    before = x ∷ f.picked.before;
    after = f.picked.after;
    was = ap (λ l. x ∷ l) f.picked.was;
    left = ap (λ l. x ∷ l) f.picked.left;
    ready = f.picked.ready;
    first = ((λ r. omega (arith, h r, f.prio)), f.picked.first);
    least = f.picked.least;
  };
}

Picked-AtLeast : (l : List Process) (i k m : ℕ) → Found l i k → m ≤ k → All (AtLeast m) l
Picked-AtLeast l i k m f le = rw f.picked.was (
    All-append (AtLeast m) f.picked.before (f.p ∷ f.picked.after)
      (All-map (λ q h r. omega (arith, h r, f.prio)) f.picked.before f.picked.first)
      (
        (λ r. omega (arith, f.prio)),
        All-map (λ q h r. omega (arith, h r, f.prio)) f.picked.after f.picked.least,
      ))

Found-at :
    {l : List Process} {a b : ℕ} (i k : ℕ)
    → ◌≡◌ {A = Option (ℕ × ℕ)} (some (a, b)) (some (i, k))
    → Found l a b
    → Found l i k
Found-at {l} {a} {b} i k e f =
    let p : a ≡ i = cc in
    let q : b ≡ k = cc in subst (λ t. Found l i t) q (subst (λ t. Found l t b) p f)

find_best-some : (l : List Process) (i k : ℕ) → find_best l ≡ some (i, k) → Found l i k
unfolding find_best
find_best-some [] i k e = cc
find_best-some (x ∷ xs) i k e = elim (Option-cases (find_best xs)) [
  | inl n ↦ elim (Bool-cases (is_runnable x.state)) [
    | inl r ↦ Found-at i k (rw (n, r) at e) (
        head-Found x xs r
          (All-map (λ q w t. let bad : true ≡ false = sym t ∙ w in cc) xs (find_best-none xs n)))
    | inr r ↦ let bad : ◌≡◌ {A = Option (ℕ × ℕ)} none (some (i, k)) = rw (n, r) at e in cc
  ]
  | inr ((j, m), s) ↦
      let f = find_best-some xs j m s in
      elim (Bool-cases (is_runnable x.state)) [
        | inl r ↦ elim (Bool-cases (leb x.priority m)) [
          | inl t ↦
              Found-at i k (rw (s, r, t) at e)
                (head-Found x xs r (Picked-AtLeast xs j m x.priority f (ground arith)))
          | inr t ↦ Found-at i k (rw (s, r, t) at e) (tail-Found x xs j m (λ _. ground arith) f)
        ]
        | inr r ↦
            Found-at i k (rw (s, r) at e)
              (tail-Found x xs j m (λ w. let bad : true ≡ false = sym w ∙ r in cc) f)
      ]
]

-- `pick_next` takes the first of the runnable processes of least priority number, and leaves the
-- others in their order; it takes none exactly when none is runnable.
pub pick_next_lem :
    (queue : List Process)
    → (((pick_next queue).0 ≡ none) × ((pick_next queue).1 ≡ queue) × All Waits queue)
      ⊎ ((p : Process) × ((pick_next queue).0 ≡ some p) × Picked queue p (pick_next queue).1)
unfolding pick_next
pick_next_lem queue = elim (Option-cases (find_best queue)) [
  | inl n ↦ inl (rw n, rw n, find_best-none queue n)
  | inr ((i, k), s) ↦
      let f = find_best-some queue i k s in inr (f.p, rw (s, f.removed), rw (s, f.removed) f.picked)
]
