-- ===== src/Paging/Link.antt =====
-- `get_or_alloc_table` of src/mm/vmm.rs: a table that is linked where there was none. The trees keep
-- their form, and no walk ends at another page than before.
pub mod Result
use sar_osx.Base.{
  ℕ, zero, suc, ◌+◌, ◌*◌, ◌/◌, ◌^◌, ◌≤◌, ◌<◌, bit_and, bit_or, ◌≡◌, refl, sym, ap, ◌∙◌, ◌≢◌, inl,
  inr, true, false, ◌&&◌, Option, some, arith, ◌==◌, if◌then◌else◌, ==_iff, Bool-cases,
}
use sar_osx.Pmm.{BuddyAllocator, alloc}
use sar_osx.Pmm.Valid.{covered, inside}
use sar_osx.Paging.Grows.{digit-lt, small-not_large, Grows}
use sar_osx.Paging.{pte_addr_mask, Memory, is_set, put_entry, fill_zero}
use sar_osx.Paging.Entries.{Links, table_entry-Links}
use sar_osx.Paging.Frame.{
  given_frame, given_fresh, given_apart, given_apart_self, given-IsValid, given_once, given_low,
}
use sar_osx.Paging.Tree.{Place, child, is_large, IsTree, digit, missing, leaf_from}

-- The table `t` with a fresh frame `p` linked at `i`.
module _ (k : ℕ) (pl : ℕ → Option Place) (m : Memory) (t : ℕ) (w : Place) (n i : ℕ) (p : ℕ)
    (b' : BuddyAllocator) (h : IsTree k pl m) (at : pl t ≡ some w) (height : w.height ≡ suc n)
    (bound : i < 512) (free_slot : is_set (m.entries t i) 1 ≡ false)
    (given : alloc m.pmm 0 ≡ (some p, b')) where
  abbrev entry : ℕ
  entry = bit_or (bit_or p 6) 1

  abbrev pub linked : Memory
  linked = record { entries = put_entry (fill_zero m.entries p) t i entry; pmm = b' }

  abbrev pub placed : ℕ → Option Place
  placed x = if p == x then some (child k w i) else pl x

  entry-Links : Links entry p
  entry-Links = let a = given_frame k pl m p b' h given in table_entry-Links p (p / 2 ^ 12) a.0 a.1

  fresh : (x : ℕ) (u : Place) → pl x ≡ some u → (p == x) ≡ false
  fresh = given_fresh k pl m p b' h given

  kept : (x : ℕ) (u : Place) → pl x ≡ some u → placed x ≡ some u
  kept x u e = rw (fresh x u e) e

  other :
      (x : ℕ) (u : Place) (j : ℕ)
      → pl x ≡ some u
      → (t == x && i == j) ≡ false
      → linked.entries x j ≡ m.entries x j
  other x u j e d = rw (d, fresh x u e) refl

  slot : (x j : ℕ) → (t == x && i == j) ≡ true → linked.entries x j ≡ entry
  slot x j d = rw d refl

  new_zero : (j : ℕ) → linked.entries p j ≡ 0
  new_zero j =
      let d : (t == p) ≡ false = let f = fresh t w at in ground arith in
      let s : (p == p) ≡ true = (==_iff p p).1 refl in rw (d, s) refl

  empty_leaf : (r v : ℕ) → leaf_from linked v r p ≡ missing
  unfolding leaf_from
  empty_leaf zero v = rw (new_zero (digit 0 v)) refl
  empty_leaf (suc r) v =
      let l : is_large (suc r) 0 ≡ false = ground arith in rw (new_zero (digit (suc r) v), l) refl

  elsewhere :
      (x : ℕ) (u : Place) (j : ℕ) → pl x ≡ some u → u.height ≢ suc n → (t == x && i == j) ≡ false
  elsewhere x u j e d = elim (Bool-cases (t == x)) [
    | inr s ↦ rw s refl
    | inl s ↦
        let same : t ≡ x = (==_iff t x).0 s in
        let both : some w ≡ some u = cc in absurd (d (let eq : w ≡ u = cc in cc))
  ]

  at_slot : (x j : ℕ) → (t == x && i == j) ≡ true → (t ≡ x) × (i ≡ j)
  at_slot x j d = ground arith

  view_lem :
      (r x : ℕ) (u : Place) (v : ℕ)
      → pl x ≡ some u
      → u.height ≡ r
      → leaf_from linked v r x ≡ leaf_from m v r x
  unfolding leaf_from
  view_lem zero x u v e hu =
      rw
        (other x u (digit 0 v) e
          (elsewhere x u (digit 0 v) e (λ a. let bad : zero ≡ suc n = cc in omega arith)))
        refl
  view_lem (suc r) x u v e hu = elim (Bool-cases (t == x && i == digit (suc r) v)) [
    | inl d ↦
        let (tx, ij) = at_slot x (digit (suc r) v) d in
        let idle : is_set (m.entries x (digit (suc r) v)) 1 ≡ false = rw (← tx, ← ij) free_slot in
        let small = h.idle x u r (digit (suc r) v) e hu (digit-lt (suc r) v) idle in
        let l : is_large (suc r) (m.entries x (digit (suc r) v)) ≡ false =
          small-not_large (suc r) (m.entries x (digit (suc r) v)) small in
        let l' : is_large (suc r) entry ≡ false = small-not_large (suc r) entry entry-Links.small in
        rw
          (
            slot x (digit (suc r) v) d,
            l',
            entry-Links.present,
            entry-Links.names,
            empty_leaf r v,
            l,
            idle,
          )
          refl
    | inr d ↦
        rw (other x u (digit (suc r) v) e d)
          (elim (Bool-cases (is_large (suc r) (m.entries x (digit (suc r) v)))) [
            | inl l ↦ rw l refl
            | inr l ↦ elim (Bool-cases (is_set (m.entries x (digit (suc r) v)) 1)) [
              | inr q ↦ rw (l, q) refl
              | inl q ↦
                  let below =
                    h.links x u r (digit (suc r) v) e hu (digit-lt (suc r) v) q (rw hu l) in
                  rw (l, q)
                    (view_lem r (bit_and (m.entries x (digit (suc r) v)) pte_addr_mask)
                      (child k u (digit (suc r) v)) v below (omega arith))
            ]
          ])
  ]

  same_lem :
      (x : ℕ) (u : Place) (j : ℕ)
      → pl x ≡ some u
      → is_set (m.entries x j) 1 ≡ true
      → linked.entries x j ≡ m.entries x j
  same_lem x u j e q = elim (Bool-cases (t == x && i == j)) [
    | inr d ↦ other x u j e d
    | inl d ↦
        let (tx, ij) = at_slot x j d in
        let off : is_set (m.entries x j) 1 ≡ false = rw (← tx, ← ij) free_slot in
        let bad : true ≡ false = sym q ∙ off in cc
  ]

  links_lem :
      (x : ℕ) (u : Place) (r j : ℕ)
      → placed x ≡ some u
      → u.height ≡ suc r
      → j < 512
      → is_set (linked.entries x j) 1 ≡ true
      → is_large u.height (linked.entries x j) ≡ false
      → placed (bit_and (linked.entries x j) pte_addr_mask) ≡ some (child k u j)
  links_lem x u r j e hu lt q l = elim (Bool-cases (p == x)) [
    | inl s ↦
        let same : p ≡ x = (==_iff p x).0 s in
        let z : linked.entries x j ≡ 0 = rw (← same) (new_zero j) in
        let bad : false ≡ true = rw z at q in cc
    | inr s ↦
        let old : pl x ≡ some u = rw s at e in
        elim (Bool-cases (t == x && i == j)) [
          | inr d ↦
              let o = other x u j old d in
              let q' : is_set (m.entries x j) 1 ≡ true = rw (← o) q in
              let l' : is_large u.height (m.entries x j) ≡ false = rw (← o) l in
              let c = h.links x u r j old hu lt q' l' in
              rw o (kept (bit_and (m.entries x j) pte_addr_mask) (child k u j) c)
          | inl d ↦
              let (tx, ij) = at_slot x j d in
              let both : some w ≡ some u = sym at ∙ ap pl tx ∙ old in
              let eq : w ≡ u = cc in
              let s' : (p == p) ≡ true = (==_iff p p).1 refl in
              rw (slot x j d, entry-Links.names, s', eq, ij) refl
        ]
  ]

  idle_lem :
      (x : ℕ) (u : Place) (r j : ℕ)
      → placed x ≡ some u
      → u.height ≡ suc r
      → j < 512
      → is_set (linked.entries x j) 1 ≡ false
      → is_set (linked.entries x j) 128 ≡ false
  idle_lem x u r j e hu lt q = elim (Bool-cases (p == x)) [
    | inl s ↦
        let same : p ≡ x = (==_iff p x).0 s in
        let z : linked.entries x j ≡ 0 = rw (← same) (new_zero j) in rw z refl
    | inr s ↦
        let old : pl x ≡ some u = rw s at e in
        elim (Bool-cases (t == x && i == j)) [
          | inr d ↦ let o = other x u j old d in rw o (h.idle x u r j old hu lt (rw (← o) q))
          | inl d ↦ rw (slot x j d) entry-Links.small
        ]
  ]

  apart_lem : (x : ℕ) (u : Place) → placed x ≡ some u → (f : ℕ) → covered f b' + inside f 0 x ≤ 1
  apart_lem x u e f = elim (Bool-cases (p == x)) [
    | inl s ↦
        let same : p ≡ x = (==_iff p x).0 s in rw (← same) (given_apart_self k pl m p b' h given f)
    | inr s ↦ given_apart k pl m p b' h given x u (rw s at e) f
  ]

  aligned_lem : (x : ℕ) (u : Place) → placed x ≡ some u → (x ≡ x / 2 ^ 12 * 2 ^ 12) × (x < 2 ^ 52)
  aligned_lem x u e = elim (Bool-cases (p == x)) [
    | inl s ↦ let same : p ≡ x = (==_iff p x).0 s in rw (← same) (given_frame k pl m p b' h given)
    | inr s ↦ h.aligned x u (rw s at e)
  ]

  pub linked-Grows : Grows k pl m placed linked
  linked-Grows = record {
    tree = record {
      links = links_lem;
      idle = idle_lem;
      apart = apart_lem;
      aligned = aligned_lem;
      valid = given-IsValid k pl m p b' h given;
      once = given_once k pl m p b' h given;
      low = given_low k pl m p b' h given;
    };
    keeps = kept;
    same = same_lem;
    data_kept = λ x u j e hu.
        other x u j e (elsewhere x u j e (λ a. let bad : zero ≡ suc n = cc in omega arith));
    view = λ r x u v e hu. view_lem r x u v e hu;
  }

  -- The slot afterwards.
  pub linked_lem : (placed p ≡ some (child k w i)) × Links (linked.entries t i) p
  linked_lem =
      let s : (p == p) ≡ true = (==_iff p p).1 refl in
      let d : (t == t && i == i) ≡ true = ground arith in (rw s refl, rw (slot t i d) entry-Links)
