-- ===== src/Locks/Readers.antt =====
-- Readers and writers exclude each other.
use sar_osx.Base.{
  All, ℕ, zero, suc, ◌+◌, ◌-◌, ◌%◌, ◌^◌, ◌≤◌, ◌<◌, ◌≡◌, refl, sym, ap, ◌⊎◌, inl, inr, some, List,
  [], ◌∷◌, arith, ltb, ◌==◌, ltb→lt, Bool-cases, length, get_elem?, set, length-set,
}
use mathlib.Core.Path.{subst}
use sar_osx.Locks.RwLock.{
  RwPhase, idle, wants_read, wants_write, reads, writes, read_loaded, RwSpinLock, minus_one, move,
  load_state, read_exchange, write_exchange, drop_read, drop_write, Is, RwStep, read_starts,
  read_loads, read_exchanges, read_retries, write_starts, write_exchanges, exchange_fails,
  read_drops, write_drops, IsIdle, RwReach, start, step,
}
use sar_osx.Locks.Exclusion.{total, total-set, All-set, All-get}

abbrev pub reader : RwPhase → ℕ
reader reads = 1
reader _ = 0

abbrev pub writer : RwPhase → ℕ
writer writes = 1
writer _ = 0

-- A value that was loaded for an exchange was not negative.
abbrev pub IsLoaded : RwPhase → Type 0
IsLoaded (read_loaded n) = n < 2 ^ 31
IsLoaded _ = Unit

-- The word says how many read, or that one writes.
pub record IsExclusive (s : RwSpinLock) : Type 0 where
  pub word :
      ((total writer s.threads ≡ 0) × (s.state ≡ total reader s.threads))
      ⊎ ((total writer s.threads ≡ 1) × (total reader s.threads ≡ 0) × (s.state ≡ minus_one))
  pub loaded : All IsLoaded s.threads
  pub few : length s.threads < 2 ^ 31

total_le : (l : List RwPhase) → total reader l + total writer l ≤ length l
unfolding total
total_le [] = omega arith
total_le (idle ∷ l) = omega (arith, total_le l)
total_le (wants_read ∷ l) = omega (arith, total_le l)
total_le (wants_write ∷ l) = omega (arith, total_le l)
total_le (reads ∷ l) = omega (arith, total_le l)
total_le (writes ∷ l) = omega (arith, total_le l)
total_le (read_loaded n ∷ l) = omega (arith, total_le l)

move-IsExclusive :
    (s : RwSpinLock) (i : ℕ) (p q : RwPhase)
    → IsExclusive s
    → Is s i p
    → (reader p ≡ 0) × (writer p ≡ 0)
    → (reader q ≡ 0) × (writer q ≡ 0)
    → IsLoaded q
    → IsExclusive (move s i q)
move-IsExclusive s i p q v at none_before none_after l =
    let r = total-set reader s.threads i p q at in
    let w = total-set writer s.threads i p q at in
    record {
      word = elim v.word [
        | inl (a, b) ↦ inl (
          omega (arith, w, none_before.1, none_after.1),
          omega (arith, r, none_before.0, none_after.0),
        )
        | inr (a, b, c) ↦ inr (
          omega (arith, w, none_before.1, none_after.1),
          omega (arith, r, none_before.0, none_after.0),
          c,
        )
      ];
      loaded = All-set IsLoaded s.threads i q v.loaded l;
      few = omega (arith, v.few, length-set s.threads i q);
    }

-- A change of the word along with the phase of a thread.
change-IsExclusive :
    (s : RwSpinLock) (i : ℕ) (p q : RwPhase) (state : ℕ)
    → IsExclusive s
    → Is s i p
    → IsLoaded q
    → (let readers = total reader s.threads + reader q - reader p in
        let writers = total writer s.threads + writer q - writer p in
        ((writers ≡ 0) × (state ≡ readers)) ⊎ ((writers ≡ 1) × (readers ≡ 0) × (state ≡ minus_one)))
    → IsExclusive (record { state = state; threads = set s.threads i q })
change-IsExclusive s i p q state v at l new =
    let r = total-set reader s.threads i p q at in
    let w = total-set writer s.threads i p q at in
    record {
      word = elim new [
        | inl (a, b) ↦ inl (omega (arith, w, a), omega (arith, r, b))
        | inr (a, b, c) ↦ inr (omega (arith, w, a), omega (arith, r, b), c)
      ];
      loaded = All-set IsLoaded s.threads i q v.loaded l;
      few = omega (arith, v.few, length-set s.threads i q);
    }

weight_le :
    {A : Type 0} (weight : A → ℕ) (l : List A) (i : ℕ) (x : A)
    → get_elem? l i ≡ some x
    → weight x ≤ total weight l
unfolding total
weight_le weight [] i x e = cc
weight_le weight (y ∷ l) zero x e = let same : y ≡ x = cc in rw same (omega arith)
weight_le weight (y ∷ l) (suc i) x e = omega (arith, weight_le weight l i x e)

read_exchange-IsExclusive :
    (s : RwSpinLock) (i loaded : ℕ)
    → IsExclusive s
    → Is s i (read_loaded loaded)
    → IsExclusive (read_exchange s i loaded)
unfolding read_exchange
read_exchange-IsExclusive s i n v at =
    let low : n < 2 ^ 31 = All-get IsLoaded s.threads i (read_loaded n) v.loaded at in
    let few = v.few in
    let all = total_le s.threads in
    elim (Bool-cases (s.state == n)) [
      | inr f ↦
          simp f (move-IsExclusive s i (read_loaded n) wants_read v at (refl, refl) (refl, refl) tt)
      | inl e ↦
          let same : s.state ≡ n = ground arith in
          simp e (
            change-IsExclusive s i (read_loaded n) reads ((n + 1) % 2 ^ 32) v at tt (elim v.word [
              | inl (a, b) ↦ inl (omega arith, omega arith)
              | inr (a, b, c) ↦ absurd (omega arith)
            ]))
    ]

write_exchange-IsExclusive :
    (s : RwSpinLock) (i : ℕ) → IsExclusive s → Is s i wants_write → IsExclusive (write_exchange s i)
unfolding write_exchange
write_exchange-IsExclusive s i v at = elim (Bool-cases (s.state == 0)) [
  | inr f ↦ simp f v
  | inl e ↦
      let same : s.state ≡ 0 = ground arith in
      simp e (
        change-IsExclusive s i wants_write writes minus_one v at tt (elim v.word [
          | inl (a, b) ↦ inr (omega arith, omega arith, refl)
          | inr (a, b, c) ↦ absurd (omega arith)
        ]))
]

load_state-IsExclusive :
    (s : RwSpinLock) (i : ℕ) → IsExclusive s → Is s i wants_read → IsExclusive (load_state s i)
unfolding load_state
load_state-IsExclusive s i v at = elim (Bool-cases (ltb s.state (2 ^ 31))) [
  | inr f ↦ simp f v
  | inl e ↦ simp e (
      move-IsExclusive s i wants_read (read_loaded s.state) v at (refl, refl) (refl, refl)
        (ltb→lt s.state (2 ^ 31) e))
]

drop_read-IsExclusive :
    (s : RwSpinLock) (i : ℕ) → IsExclusive s → Is s i reads → IsExclusive (drop_read s i)
drop_read-IsExclusive s i v at =
    let one : 1 ≤ total reader s.threads = weight_le reader s.threads i reads at in
    let few = v.few in
    let all = total_le s.threads in
    change-IsExclusive s i reads idle ((s.state + minus_one) % 2 ^ 32) v at tt (elim v.word [
      | inl (a, b) ↦ inl (omega arith, omega arith)
      | inr (a, b, c) ↦ absurd (omega arith)
    ])

drop_write-IsExclusive :
    (s : RwSpinLock) (i : ℕ) → IsExclusive s → Is s i writes → IsExclusive (drop_write s i)
drop_write-IsExclusive s i v at =
    let one : 1 ≤ total writer s.threads = weight_le writer s.threads i writes at in
    change-IsExclusive s i writes idle 0 v at tt (elim v.word [
      | inl (a, b) ↦ absurd (omega arith)
      | inr (a, b, c) ↦ inl (omega arith, omega arith)
    ])

RwStep-IsExclusive : {s s' : RwSpinLock} → RwStep s s' → IsExclusive s → IsExclusive s'
RwStep-IsExclusive {s} (read_starts i at) v =
    move-IsExclusive s i idle wants_read v at (refl, refl) (refl, refl) tt
RwStep-IsExclusive {s} (read_loads i at) v = load_state-IsExclusive s i v at
RwStep-IsExclusive {s} (read_exchanges i n at) v = read_exchange-IsExclusive s i n v at
RwStep-IsExclusive {s} (read_retries i n at) v =
    move-IsExclusive s i (read_loaded n) wants_read v at (refl, refl) (refl, refl) tt
RwStep-IsExclusive {s} (write_starts i at) v =
    move-IsExclusive s i idle wants_write v at (refl, refl) (refl, refl) tt
RwStep-IsExclusive {s} (write_exchanges i at) v = write_exchange-IsExclusive s i v at
RwStep-IsExclusive exchange_fails v = v
RwStep-IsExclusive {s} (read_drops i at) v = drop_read-IsExclusive s i v at
RwStep-IsExclusive {s} (write_drops i at) v = drop_write-IsExclusive s i v at

All-idle :
    (l : List RwPhase) → All IsIdle l → (total reader l ≡ 0) × (total writer l ≡ 0) × All IsLoaded l
unfolding total
All-idle [] a = (refl, refl, tt)
All-idle (p ∷ l) a =
    let ih = All-idle l a.1 in
    (
      omega (arith, ap reader a.0, ih.0),
      omega (arith, ap writer a.0, ih.1),
      (subst IsLoaded (sym a.0) tt, ih.2),
    )

-- In every state that fewer than 2 ^ 31 threads can reach from a new lock, whatever the order of their
-- steps: either no thread writes and the word is the number of those that read, or one writes, none
-- reads and the word is -1.
pub RwReach-IsExclusive : {s : RwSpinLock} → RwReach s → IsExclusive s
RwReach-IsExclusive (start l a few) =
    let b = All-idle l a in record { word = inl (b.1, sym b.0); loaded = b.2; few = few }
RwReach-IsExclusive (step r next) = RwStep-IsExclusive next (RwReach-IsExclusive r)
