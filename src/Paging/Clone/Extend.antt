-- ===== src/Paging/Clone/Extend.antt =====
-- New tables of src/proc/fork.rs beside those that are there: what a copy of tables keeps, a frame that
-- becomes an empty table, and an entry that is linked in a new table.
use sar_osx.Base.{
  ℕ, zero, suc, ◌*◌, ◌/◌, ◌^◌, ◌≤◌, ◌<◌, bit_and, ◌≡◌, refl, sym, ap, ◌∙◌, ◌⊎◌, inl, inr, true,
  false, ◌&&◌, Option, none, some, arith, ◌==◌, if◌then◌else◌, ==_iff, Bool-cases,
}
use sar_osx.Pmm.{BuddyAllocator, alloc}
use sar_osx.Pmm.Alloc.{alloc-none}
use sar_osx.Paging.{pte_addr_mask, Memory, is_set, set_entry, fill_zero, zeroed, alloc_zeroed_frame}
use sar_osx.Paging.Tree.{Place, child, is_large, IsTree, digit, leaf_from}
use sar_osx.Paging.Grows.{digit-lt, untouched-leaf}
use sar_osx.Paging.Frame.{
  given_frame, given_fresh, given_apart, given_apart_self, given-IsValid, given_once, given_low,
}

-- The tables that were there are as they were.
pub record Extends (k : ℕ) (pl : ℕ → Option Place) (m : Memory) (pl' : ℕ → Option Place)
    (m' : Memory) : Type 0 where
  pub tree : IsTree k pl' m'
  pub keeps : (t : ℕ) (w : Place) → pl t ≡ some w → pl' t ≡ some w
  pub same : (t : ℕ) (w : Place) (i : ℕ) → pl t ≡ some w → m'.entries t i ≡ m.entries t i

pub Extends-refl :
    {k : ℕ} {pl : ℕ → Option Place} {m : Memory} → IsTree k pl m → Extends k pl m pl m
Extends-refl h = record { tree = h; keeps = λ t w e. e; same = λ t w i e. refl }

pub Extends-trans :
    {k : ℕ} {pl : ℕ → Option Place} {m : Memory} {pl' : ℕ → Option Place} {m' : Memory}
    {pl'' : ℕ → Option Place} {m'' : Memory}
    → Extends k pl m pl' m'
    → Extends k pl' m' pl'' m''
    → Extends k pl m pl'' m''
Extends-trans g h = record {
  tree = h.tree;
  keeps = λ t w e. h.keeps t w (g.keeps t w e);
  same = λ t w i e. h.same t w i (g.keeps t w e) ∙ g.same t w i e;
}

pub Extends-leaf :
    {k : ℕ} {pl : ℕ → Option Place} {m : Memory} {pl' : ℕ → Option Place} {m' : Memory}
    → IsTree k pl m
    → Extends k pl m pl' m'
    → (n x : ℕ) (w : Place) (v : ℕ) → pl x ≡ some w
    → w.height ≡ n
    → leaf_from m' v n x ≡ leaf_from m v n x
Extends-leaf {m' = m'} h g = untouched-leaf m' h g.same

-- Tables are changed above the height `n` only.
pub above-leaf :
    {k : ℕ} {pl : ℕ → Option Place} {m : Memory} (m' : Memory)
    → IsTree k pl m
    → (n x : ℕ) (w : Place) (v : ℕ)
    → ((x : ℕ) (w : Place) (j : ℕ) → pl x ≡ some w → w.height ≤ n → m'.entries x j ≡ m.entries x j)
    → pl x ≡ some w
    → w.height ≡ n
    → leaf_from m' v n x ≡ leaf_from m v n x
unfolding leaf_from
above-leaf m' h zero x w v eq e hw = rw (eq x w (digit 0 v) e (omega (arith, hw))) refl
above-leaf {k} {m = m} m' h (suc n) x w v eq e hw =
    rw (eq x w (digit (suc n) v) e (omega (arith, hw)))
      (elim (Bool-cases (is_large (suc n) (m.entries x (digit (suc n) v)))) [
        | inl l ↦ rw l refl
        | inr l ↦ elim (Bool-cases (is_set (m.entries x (digit (suc n) v)) 1)) [
          | inr q ↦ rw (l, q) refl
          | inl q ↦
              let below = h.links x w n (digit (suc n) v) e hw (digit-lt (suc n) v) q (rw hw l) in
              rw (l, q)
                (above-leaf m' h n (bit_and (m.entries x (digit (suc n) v)) pte_addr_mask)
                  (child k w (digit (suc n) v)) v (λ y u j f le. eq y u j f (omega arith)) below
                  (omega arith))
        ]
      ])

pub place_at : (c : ℕ) → Place → (ℕ → Option Place) → ℕ → Option Place
place_at c u pl x = if c == x then some u else pl x

-- A frame for a table at the place `u`, or none.
pub data Allocated (k : ℕ) (pl : ℕ → Option Place) (m : Memory) (u : ℕ → Place)
    : Option ℕ × Memory → Type 0 where
  none_free : Allocated k pl m u (none, m)
  got :
      (c : ℕ) (m' : Memory)
      → Extends k pl m (place_at c (u c) pl) m'
      → ((x : ℕ) (w : Place) → pl x ≡ some w → (c == x) ≡ false)
      → place_at c (u c) pl c ≡ some (u c)
      → ((j : ℕ) → m'.entries c j ≡ 0)
      → (c ≡ c / 2 ^ 12 * 2 ^ 12) × (c < 2 ^ 52)
      → Allocated k pl m u (some c, m')

module _ (k : ℕ) (pl : ℕ → Option Place) (m : Memory) (u : ℕ → Place) (c : ℕ) (b' : BuddyAllocator)
    (h : IsTree k pl m) (given : alloc m.pmm 0 ≡ (some c, b')) where
  abbrev emptied : Memory
  emptied = record { entries = fill_zero m.entries c; pmm = b' }

  fresh : (x : ℕ) (w : Place) → pl x ≡ some w → (c == x) ≡ false
  fresh = given_fresh k pl m c b' h given

  kept : (x : ℕ) (w : Place) → pl x ≡ some w → place_at c (u c) pl x ≡ some w
  unfolding place_at
  kept x w e = rw (fresh x w e) e

  off : (x : ℕ) (w : Place) (j : ℕ) → pl x ≡ some w → emptied.entries x j ≡ m.entries x j
  off x w j e = rw (fresh x w e) refl

  zero_table : (j : ℕ) → emptied.entries c j ≡ 0
  zero_table j = let s : (c == c) ≡ true = (==_iff c c).1 refl in rw s refl

  new_or_old : (x : ℕ) (w : Place) → place_at c (u c) pl x ≡ some w → (c ≡ x) ⊎ (pl x ≡ some w)
  unfolding place_at
  new_or_old x w e = elim (Bool-cases (c == x)) [
    | inl s ↦ inl ((==_iff c x).0 s)
    | inr s ↦ inr (rw s at e)
  ]

  emptied-IsTree : IsTree k (place_at c (u c) pl) emptied
  emptied-IsTree = record {
    links = λ x w n j e hw lt q l. elim (new_or_old x w e) [
      | inl same ↦
          let z : emptied.entries x j ≡ 0 = rw (← same) (zero_table j) in
          let bad : false ≡ true = rw z at q in cc
      | inr old ↦
          let o = off x w j old in
          rw o (
            kept (bit_and (m.entries x j) pte_addr_mask) (child k w j)
              (h.links x w n j old hw lt (rw o at q) (rw o at l)))
    ];
    idle = λ x w n j e hw lt q. elim (new_or_old x w e) [
      | inl same ↦ let z : emptied.entries x j ≡ 0 = rw (← same) (zero_table j) in rw z refl
      | inr old ↦ let o = off x w j old in rw o (h.idle x w n j old hw lt (rw o at q))
    ];
    apart = λ x w e. elim (new_or_old x w e) [
      | inl same ↦ rw (← same) (given_apart_self k pl m c b' h given)
      | inr old ↦ given_apart k pl m c b' h given x w old
    ];
    aligned = λ x w e. elim (new_or_old x w e) [
      | inl same ↦ rw (← same) (given_frame k pl m c b' h given)
      | inr old ↦ h.aligned x w old
    ];
    valid = given-IsValid k pl m c b' h given;
    once = given_once k pl m c b' h given;
    low = given_low k pl m c b' h given;
  }

  placed_self : place_at c (u c) pl c ≡ some (u c)
  unfolding place_at
  placed_self = let s : (c == c) ≡ true = (==_iff c c).1 refl in rw s refl

  emptied-Allocated : Allocated k pl m u (some c, emptied)
  emptied-Allocated =
      got c emptied (record { tree = emptied-IsTree; keeps = kept; same = off }) fresh placed_self
        zero_table (given_frame k pl m c b' h given)

zeroed-Allocated :
    (k : ℕ) (pl : ℕ → Option Place) (m : Memory) (u : ℕ → Place)
    → IsTree k pl m
    → (o : Option ℕ × BuddyAllocator) → alloc m.pmm 0 ≡ o
    → Allocated k pl m u (zeroed m o)
unfolding zeroed
zeroed-Allocated k pl m u h (none, b) given =
    let same : b ≡ m.pmm =
      sym (ap (λ (r : Option ℕ × BuddyAllocator). r.1) given)
      ∙ ((alloc-none m.pmm 0).0 (ap (λ (r : Option ℕ × BuddyAllocator). r.0) given)).1 in
    rw same none_free
zeroed-Allocated k pl m u h (some c, b) given = emptied-Allocated k pl m u c b h given

pub alloc_zeroed_frame-Allocated :
    (k : ℕ) (pl : ℕ → Option Place) (m : Memory) (u : ℕ → Place)
    → IsTree k pl m
    → Allocated k pl m u (alloc_zeroed_frame m)
unfolding alloc_zeroed_frame
alloc_zeroed_frame-Allocated k pl m u h = zeroed-Allocated k pl m u h (alloc m.pmm 0) refl

-- A small entry that names a table at the right place is linked at `i` in the table `c`.
pub set_link-IsTree :
    (k : ℕ) (pl : ℕ → Option Place) (m : Memory) (c : ℕ) (u : Place) (i e : ℕ)
    → IsTree k pl m
    → pl c ≡ some u
    → is_set e 1 ≡ true
    → is_set e 128 ≡ false
    → pl (bit_and e pte_addr_mask) ≡ some (child k u i)
    → IsTree k pl (set_entry m c i e)
set_link-IsTree k pl m c u i e h at p l below = record {
  links = λ x w n j f hw lt q s. elim (Bool-cases (c == x && i == j)) [
    | inl d ↦
        let cx : c ≡ x = ground arith in
        let ij : i ≡ j = ground arith in
        let both : some u ≡ some w = sym at ∙ ap pl cx ∙ f in
        let eq : u ≡ w = cc in rw d (below ∙ rw (eq, ij) refl)
    | inr d ↦ rw d (h.links x w n j f hw lt (rw d at q) (rw d at s))
  ];
  idle = λ x w n j f hw lt q. elim (Bool-cases (c == x && i == j)) [
    | inl d ↦ rw d l
    | inr d ↦ rw d (h.idle x w n j f hw lt (rw d at q))
  ];
  apart = h.apart;
  aligned = h.aligned;
  valid = h.valid;
  once = h.once;
  low = h.low;
}
