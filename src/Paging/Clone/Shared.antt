-- ===== src/Paging/Clone/Shared.antt =====
-- `clone_address_space` of src/proc/fork.rs: the child sees the pages of its parent, and no other space
-- is changed.
use sar_osx.Base.{
  ℕ, suc, ◌<◌, bit_and, ◌≡◌, refl, sym, ap, ◌∙◌, inl, inr, true, false, ◌&&◌, Option, none, some,
  arith, ltb, leb, ◌==◌, ==_iff, Bool-cases,
}
use mathlib.Core.Path.{subst}
use sar_osx.Paging.{pte_addr_mask, Memory, is_set, alloc_zeroed_frame, translate}
use sar_osx.Paging.Tree.{
  Place, root_place, child, IsTree, digit, leaf_from, address, translate-leaf,
}
use sar_osx.Paging.Grows.{digit-lt}
use sar_osx.Paging.Space.{copy_entries}
use sar_osx.Paging.Space.Fresh.{copy_entries_lem}
use sar_osx.Paging.Clone.{or_none, clone_entries, clone_pdpt, make_cow_pml4, clone_address_space}
use sar_osx.Paging.Clone.Entry.{SameTables-address, SameTables-IsTree, make_cow_pml4-same}
use sar_osx.Paging.Clone.Extend.{
  Extends, Extends-refl, Extends-leaf, above-leaf, place_at, Allocated, none_free, got,
  alloc_zeroed_frame-Allocated,
}
use sar_osx.Paging.Clone.Copy.{Loop, Looped, stopped, going, loop}
use sar_osx.Paging.Clone.Levels.{clone_pdpt-Clones, entry-walks}

module _ (k o : ℕ) (pl0 : ℕ → Option Place) (m0 : Memory) (h0 : IsTree k pl0 m0)
    (root_at : pl0 o ≡ some (root_place o))
    (no_large : (t : ℕ) (w : Place) (n i : ℕ)
      → pl0 t ≡ some w
      → w.owner ≡ o
      → w.height ≡ suc n
      → i < 512
      → is_set (m0.entries t i) 128 ≡ false) where
  -- What the copy gives: the root of the child, or none.
  data Forked : Option ℕ × Memory → Type 0 where
    failed : (pl' : ℕ → Option Place) (m' : Memory) → Extends k pl0 m0 pl' m' → Forked (none, m')
    forked :
        (c : ℕ) (pl' : ℕ → Option Place) (m' : Memory)
        → IsTree k pl' m'
        → ((t : ℕ) (w : Place) → pl0 t ≡ some w → pl' t ≡ some w)
        → pl' c ≡ some (root_place c)
        → ((v : ℕ) → translate m' c v ≡ translate m0 o v)
        → ((root v : ℕ)
            → pl0 root ≡ some (root_place root)
            → translate m' root v ≡ translate m0 root v)
        → Forked (some c, m')

  -- The state after the loop over the lower half, and the copy of the upper half.
  module _ (c : ℕ) (fresh : (x : ℕ) (u : Place) → pl0 x ≡ some u → (c == x) ≡ false)
      (pl : ℕ → Option Place) (m : Memory)
      (s : Loop k o c pl0 m0 h0 no_large pl0 m0
        (Extends-refl h0)
        clone_pdpt
        2
        (clone_pdpt-Clones k o c pl0 m0 h0 no_large)
        o
        (root_place o)
        root_at
        refl
        refl
        c
        fresh
        256
        pl
        m) where
    abbrev whole : Memory
    whole = copy_entries 256 m o c 256

    lower : (x j : ℕ) → (c == x && leb 256 j) ≡ false → whole.entries x j ≡ m.entries x j
    lower x j d =
        let e : (c == x && (leb 256 j && ltb j 512)) ≡ false = ground arith in
        (copy_entries_lem 256 m o c 256 (fresh o (root_place o) root_at)).0 x j ∙ rw e refl

    upper : (j : ℕ) → leb 256 j ≡ true → j < 512 → whole.entries c j ≡ m.entries o j
    upper j ge lt =
        let e : (c == c && (leb 256 j && ltb j 512)) ≡ true = ground arith in
        (copy_entries_lem 256 m o c 256 (fresh o (root_place o) root_at)).0 c j ∙ rw e refl

    whole-pmm : whole.pmm ≡ m.pmm
    whole-pmm = (copy_entries_lem 256 m o c 256 (fresh o (root_place o) root_at)).1

    root_kept : pl o ≡ some (root_place o)
    root_kept = s.ext.keeps o (root_place o) root_at

    is_root : (x : ℕ) (w : Place) → c ≡ x → pl x ≡ some w → w ≡ root_place c
    is_root x w cx e =
        let both : some (root_place c) ≡ some w = sym s.at ∙ ap pl cx ∙ e in
        (let eq : w ≡ root_place c = cc in eq)

    whole-IsTree : IsTree k pl whole
    whole-IsTree = record {
      links = λ x w n j e hw lt q l. elim (Bool-cases (c == x && leb 256 j)) [
        | inr d ↦
            let f = lower x j d in rw f (s.ext.tree.links x w n j e hw lt (rw f at q) (rw f at l))
        | inl d ↦
            let cx : c ≡ x = ground arith in
            let ge : leb 256 j ≡ true = ground arith in
            let eq = is_root x w cx e in
            let f : whole.entries x j ≡ m.entries o j =
              subst (λ y. whole.entries y j ≡ m.entries o j) cx (upper j ge lt) in
            let below = s.ext.tree.links o (root_place o) 2 j root_kept refl lt (rw f at q) refl in
            rw (f, eq, ge) (rw ge at below)
      ];
      idle = λ x w n j e hw lt q. elim (Bool-cases (c == x && leb 256 j)) [
        | inr d ↦ let f = lower x j d in rw f (s.ext.tree.idle x w n j e hw lt (rw f at q))
        | inl d ↦
            let cx : c ≡ x = ground arith in
            let ge : leb 256 j ≡ true = ground arith in
            let f : whole.entries x j ≡ m.entries o j =
              subst (λ y. whole.entries y j ≡ m.entries o j) cx (upper j ge lt) in
            rw f (s.ext.tree.idle o (root_place o) 2 j root_kept refl lt (rw f at q))
      ];
      apart = rw whole-pmm s.ext.tree.apart;
      aligned = s.ext.tree.aligned;
      valid = rw whole-pmm s.ext.tree.valid;
      once = rw whole-pmm s.ext.tree.once;
      low = rw whole-pmm s.ext.tree.low;
    }

    below_same :
        (x : ℕ) (w : Place) (v : ℕ)
        → pl x ≡ some w
        → w.height ≡ 2
        → leaf_from whole v 2 x ≡ leaf_from m v 2 x
    below_same x w v e hw =
        above-leaf whole s.ext.tree 2 x w v
          (λ y u j f le. lower y j (elim (Bool-cases (c == y)) [
            | inr q ↦ rw q refl
            | inl q ↦
                let three : u.height ≡ 3 =
                  ap (λ (p : Place). p.height) (is_root y u ((==_iff c y).0 q) f) in
                absurd (omega (arith, three, le))
          ]))
          e hw

    -- A root in the new state whose entry is that of a root in the old one.
    root_leaf :
        (x y v : ℕ) (w : Place)
        → pl y ≡ some w
        → w.height ≡ 3
        → whole.entries x (digit 3 v) ≡ m.entries y (digit 3 v)
        → leaf_from whole v 3 x ≡ leaf_from m v 3 y
    unfolding leaf_from
    root_leaf x y v w e hw same = elim (Bool-cases (is_set (m.entries y (digit 3 v)) 1)) [
      | inr q ↦ rw (same, q) refl
      | inl q ↦
          let below = s.ext.tree.links y w 2 (digit 3 v) e hw (digit-lt 3 v) q (rw hw refl) in
          rw (same, q)
            (below_same (bit_and (m.entries y (digit 3 v)) pte_addr_mask) (child k w (digit 3 v)) v
              below (omega arith))
    ]

    child_address : (v : ℕ) → address v (leaf_from whole v 3 c) ≡ address v (leaf_from m0 v 3 o)
    child_address v = elim (Bool-cases (leb 256 (digit 3 v))) [
      | inl ge ↦ ap (address v) (
          root_leaf c o v (root_place o) root_kept refl (upper (digit 3 v) ge (digit-lt 3 v))
          ∙ Extends-leaf h0 s.ext 3 o (root_place o) v root_at refl)
      | inr lo ↦
          let off : (c == c && leb 256 (digit 3 v)) ≡ false = ground arith in
          let less : digit 3 v < 256 = ground arith in
          ap (address v) (root_leaf c c v (root_place c) s.at refl (lower c (digit 3 v) off))
          ∙ entry-walks k o c pl0 m0 h0 no_large 2 o (root_place o) c pl m v root_at refl refl
              (s.done (digit 3 v) less)
    ]

    other_address :
        (root v : ℕ)
        → pl0 root ≡ some (root_place root)
        → address v (leaf_from whole v 3 root) ≡ address v (leaf_from m0 v 3 root)
    other_address root v e =
        let off : (c == root && leb 256 (digit 3 v)) ≡ false =
          rw (fresh root (root_place root) e) refl in
        ap (address v) (
          root_leaf root root v (root_place root) (s.ext.keeps root (root_place root) e) refl
            (lower root (digit 3 v) off)
          ∙ Extends-leaf h0 s.ext 3 root (root_place root) v e refl)

    whole-Forked : Forked (some c, make_cow_pml4 256 whole o 0)
    whole-Forked =
        let m' = make_cow_pml4 256 whole o 0 in
        let same = make_cow_pml4-same 256 whole o 0 in
        forked c pl m' (SameTables-IsTree k pl whole m' same whole-IsTree) s.ext.keeps s.at
          (λ v.
            translate-leaf m' c v
            ∙ SameTables-address whole m' same v 3 c
            ∙ child_address v
            ∙ sym (translate-leaf m0 o v))
          (λ root v e.
            translate-leaf m' root v
            ∙ SameTables-address whole m' same v 3 root
            ∙ other_address root v e
            ∙ sym (translate-leaf m0 root v))

  Looped-Forked :
      (c : ℕ) (fresh : (x : ℕ) (u : Place) → pl0 x ≡ some u → (c == x) ≡ false)
      (res : Option ℕ × Memory)
      → Looped k o c pl0 m0 h0 no_large pl0 m0
          (Extends-refl h0)
          clone_pdpt
          2
          (clone_pdpt-Clones k o c pl0 m0 h0 no_large)
          o
          (root_place o)
          root_at
          refl
          refl
          c
          fresh
          256
          res
      → Forked (or_none res λ _ m2. (some c, make_cow_pml4 256 (copy_entries 256 m2 o c 256) o 0))
  Looped-Forked c fresh res (stopped pl' m' g) = failed pl' m' g
  Looped-Forked c fresh res (going pl' m' s) = whole-Forked c fresh pl' m' s

  Allocated-Forked :
      (res : Option ℕ × Memory)
      → Allocated k pl0 m0 root_place res
      → Forked (
          or_none res λ c m1.
            or_none
              (clone_entries clone_pdpt 256 m1 o c 0)
              λ _ m2. (some c, make_cow_pml4 256 (copy_entries 256 m2 o c 256) o 0))
  Allocated-Forked res none_free = failed pl0 m0 (Extends-refl h0)
  Allocated-Forked res (got c m1 g fresh placed zeros al) =
      let clones = clone_pdpt-Clones k o c pl0 m0 h0 no_large in
      let start : Loop k o c pl0 m0 h0 no_large pl0 m0 (Extends-refl h0) clone_pdpt 2 clones o
          (root_place o) root_at refl refl c fresh 0 (place_at c (root_place c) pl0) m1 =
        record {
          ext = g;
          at = placed;
          done = λ j less. absurd (omega arith);
          rest = λ j ge less. zeros j;
        } in
      Looped-Forked c fresh (clone_entries clone_pdpt 256 m1 o c 0) (
        loop k o c pl0 m0 h0 no_large pl0 m0 (Extends-refl h0) clone_pdpt 2 clones o (root_place o)
          root_at refl refl c fresh 256 0 256 (place_at c (root_place c) pl0) m1 (omega arith)
          (omega arith) (λ j lt. let q : leb 256 j ≡ false = ground arith in rw q refl) start)

  clone-Forked : Forked (clone_address_space m0 o)
  unfolding clone_address_space
  clone-Forked =
      Allocated-Forked (alloc_zeroed_frame m0) (alloc_zeroed_frame-Allocated k pl0 m0 root_place h0)

  Forked-some :
      (res : Option ℕ × Memory) (c : ℕ)
      → Forked res
      → res.0 ≡ some c
      → (pl' : ℕ → Option Place) × IsTree k pl' res.1
        × ((t : ℕ) (w : Place) → pl0 t ≡ some w → pl' t ≡ some w)
        × (pl' c ≡ some (root_place c))
        × ((v : ℕ) → translate res.1 c v ≡ translate m0 o v)
        × ((root v : ℕ)
            → pl0 root ≡ some (root_place root)
            → translate res.1 root v ≡ translate m0 root v)
  Forked-some res c (failed pl' m' g) e = cc
  Forked-some res c (forked c' pl' m' tree keeps at walks others) e =
      let eq : c' ≡ c = cc in (pl', tree, keeps, rw (← eq) at, (λ v. rw (← eq) (walks v)), others)

  -- While the tables of all spaces are trees, and the parent has no pages of 2 MiB: after a copy that
  -- gives a root, the tables of all spaces, those of the child with them, are trees; the child has the
  -- translation of the parent for every address, and every space has the one it had.
  pub clone_address_space_lem :
      (c : ℕ)
      → (clone_address_space m0 o).0 ≡ some c
      → let m' = (clone_address_space m0 o).1 in
        (pl' : ℕ → Option Place) × IsTree k pl' m'
        × ((t : ℕ) (w : Place) → pl0 t ≡ some w → pl' t ≡ some w)
        × (pl' c ≡ some (root_place c))
        × ((v : ℕ) → translate m' c v ≡ translate m0 o v)
        × ((root v : ℕ)
            → pl0 root ≡ some (root_place root)
            → translate m' root v ≡ translate m0 root v)
  clone_address_space_lem c = Forked-some (clone_address_space m0 o) c clone-Forked
