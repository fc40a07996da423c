-- ===== src/Paging/Grows.antt =====
-- Changes of the page tables of src/mm/vmm.rs that leave every table and every walk as it was, but for
-- tables that are added.
use sar_osx.Base.{
  ℕ, zero, suc, ◌+◌, ◌*◌, ◌/◌, ◌^◌, ◌<◌, bit_and, ◌≡◌, refl, ◌∙◌, inl, inr, true, false, Option,
  some, arith, ◌==◌, Bool-cases,
}
use sar_osx.Base.Bits.{bit_and_low}
use sar_osx.Paging.{pte_addr_mask, Memory, is_set}
use sar_osx.Paging.Tree.{Place, child, is_large, IsTree, digit, leaf_from}

pub digit-lt : (n v : ℕ) → digit n v < 512
digit-lt n v = omega (arith, bit_and_low 9 (v / 2 ^ (12 + 9 * n)))

pub small-not_large : (height e : ℕ) → is_set e 128 ≡ false → is_large height e ≡ false
small-not_large height e h = elim (Bool-cases (height == 1)) [
  | inl q ↦ rw (q, h) refl
  | inr q ↦ rw q refl
]

-- What a change of the tables keeps, for the tables that were there.
pub record Grows (k : ℕ) (place : ℕ → Option Place) (m : Memory) (place' : ℕ → Option Place)
    (m' : Memory) : Type 0 where
  pub tree : IsTree k place' m'
  pub keeps : (t : ℕ) (w : Place) → place t ≡ some w → place' t ≡ some w
  pub same :
      (t : ℕ) (w : Place) (i : ℕ)
      → place t ≡ some w
      → is_set (m.entries t i) 1 ≡ true
      → m'.entries t i ≡ m.entries t i
  pub data_kept :
      (t : ℕ) (w : Place) (i : ℕ) → place t ≡ some w → w.height ≡ 0 → m'.entries t i ≡ m.entries t i
  pub view :
      (n t : ℕ) (w : Place) (v : ℕ)
      → place t ≡ some w
      → w.height ≡ n
      → leaf_from m' v n t ≡ leaf_from m v n t

pub Grows-refl : {k : ℕ} {pl : ℕ → Option Place} {m : Memory} → IsTree k pl m → Grows k pl m pl m
Grows-refl h = record {
  tree = h;
  keeps = λ t w e. e;
  same = λ t w i e p. refl;
  data_kept = λ t w i e p. refl;
  view = λ n t w v e p. refl;
}

pub Grows-trans :
    {k : ℕ} {pl : ℕ → Option Place} {m : Memory} {pl' : ℕ → Option Place} {m' : Memory}
    {pl'' : ℕ → Option Place} {m'' : Memory}
    → Grows k pl m pl' m'
    → Grows k pl' m' pl'' m''
    → Grows k pl m pl'' m''
Grows-trans g h = record {
  tree = h.tree;
  keeps = λ t w e. h.keeps t w (g.keeps t w e);
  same = λ t w i e p. let one = g.same t w i e p in h.same t w i (g.keeps t w e) (rw one p) ∙ one;
  data_kept = λ t w i e p. h.data_kept t w i (g.keeps t w e) p ∙ g.data_kept t w i e p;
  view = λ n t w v e p. h.view n t w v (g.keeps t w e) p ∙ g.view n t w v e p;
}

-- A walk looks only at tables in their places.
pub untouched-leaf :
    {k : ℕ} {pl : ℕ → Option Place} {m : Memory} (m' : Memory)
    → IsTree k pl m
    → ((x : ℕ) (w : Place) (j : ℕ) → pl x ≡ some w → m'.entries x j ≡ m.entries x j)
    → (n x : ℕ) (w : Place) (v : ℕ) → pl x ≡ some w
    → w.height ≡ n
    → leaf_from m' v n x ≡ leaf_from m v n x
unfolding leaf_from
untouched-leaf m' h eq zero x w v e hw = rw (eq x w (digit 0 v) e) refl
untouched-leaf {k} {m = m} m' h eq (suc n) x w v e hw =
    rw (eq x w (digit (suc n) v) e)
      (elim (Bool-cases (is_large (suc n) (m.entries x (digit (suc n) v)))) [
        | inl l ↦ rw l refl
        | inr l ↦ elim (Bool-cases (is_set (m.entries x (digit (suc n) v)) 1)) [
          | inr q ↦ rw (l, q) refl
          | inl q ↦
              let below = h.links x w n (digit (suc n) v) e hw (digit-lt (suc n) v) q (rw hw l) in
              rw (l, q)
                (untouched-leaf m' h eq n (bit_and (m.entries x (digit (suc n) v)) pte_addr_mask)
                  (child k w (digit (suc n) v)) v below (omega arith))
        ]
      ])
