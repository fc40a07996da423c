-- ===== src/Paging/Clone/Levels.antt =====
-- `clone_pt`, `clone_pd` and `clone_pdpt` of src/proc/fork.rs: each gives an entry for a new table that
-- translates every address as the table of the parent does, or runs out of frames.
use sar_osx.Base.{
  ℕ, zero, suc, ◌+◌, ◌*◌, ◌/◌, ◌^◌, ◌≤◌, ◌<◌, bit_and, bit_or, ◌≡◌, refl, sym, ap, ◌∙◌, inl, inr,
  Bool, true, false, ◌&&◌, Option, some, arith, ltb, leb, ◌==◌, if◌then◌else◌, ==_iff, Bool-cases,
}
use sar_osx.Paging.{pte_addr_mask, Memory, is_set, is_present, set_entry, alloc_zeroed_frame}
use sar_osx.Paging.Tree.{Place, is_large, IsTree, digit, leaf_from, address}
use sar_osx.Paging.Grows.{digit-lt, small-not_large}
use sar_osx.Paging.Clone.{
  cow_pte, same_flags, copy_pages, or_none, clone_entries, clone_pt, clone_pd, clone_pdpt,
}
use sar_osx.Paging.Clone.Entry.{cow_pte-SameEntry, same_flags-NewEntry}
use sar_osx.Paging.Clone.Extend.{
  Extends, Extends-refl, Extends-trans, place_at, Allocated, none_free, got,
  alloc_zeroed_frame-Allocated,
}
use sar_osx.Paging.Clone.Copy.{
  owned, Cloned, failed, cloned, Clones, EntryDone, skipped, copied, Loop, Looped, stopped, going,
  loop,
}

no_copy : (a b : Bool) (x y : ℕ) → (if a && false then y else x) ≡ (if b && false then y else x)
no_copy true true x y = refl
no_copy true false x y = refl
no_copy false true x y = refl
no_copy false false x y = refl

-- The copies of `n` pages from `i` on, in closed form.
record PagesCopied (n : ℕ) (m : Memory) (t c i : ℕ) (m' : Memory) : Type 0 where
  words :
      (x j : ℕ)
      → m'.entries x j ≡ (
          if (c == x && (leb i j && ltb j (i + n))) && is_set (m.entries t j) 1
          then cow_pte (m.entries t j)
          else m.entries x j)
  frames : m'.pmm ≡ m.pmm

copy_pages_lem :
    (n : ℕ) (m : Memory) (t c i : ℕ)
    → (c == t) ≡ false
    → PagesCopied n m t c i (copy_pages n m t c i)
unfolding copy_pages is_present
copy_pages_lem zero m t c i d = record { words = λ x j. ground arith; frames = refl }
copy_pages_lem (suc n) m t c i d =
    let old = m.entries t i in
    let m' = set_entry m c i (cow_pte old) in
    elim (Bool-cases (is_set old 1)) [
      | inr q ↦
          let ih = copy_pages_lem n m t c (i + 1) d in
          rw q (record {
            words = λ x j. elim (Bool-cases (i == j)) [
              | inl s ↦
                  let absent : is_set (m.entries t j) 1 ≡ false = rw (← (==_iff i j).0 s) q in
                  ih.words x j
                  ∙ rw absent (
                      no_copy (c == x && (leb (i + 1) j && ltb j (i + 1 + n)))
                        (c == x && (leb i j && ltb j (i + suc n))) (m.entries x j)
                        (cow_pte (m.entries t j)))
              | inr s ↦
                  let same : (leb (i + 1) j && ltb j (i + 1 + n)) ≡ (leb i j && ltb j (i + suc n)) =
                    ground arith in
                  ih.words x j ∙ rw same refl
            ];
            frames = ih.frames;
          })
      | inl q ↦
          let ih = copy_pages_lem n m' t c (i + 1) d in
          rw q (record {
            words = λ x j. elim (Bool-cases (c == x)) [
              | inr o ↦ ih.words x j ∙ rw o refl
              | inl o ↦ elim (Bool-cases (i == j)) [
                | inl s ↦
                    let ij : i ≡ j = (==_iff i j).0 s in
                    let there : is_set (m.entries t j) 1 ≡ true = rw (← ij) q in
                    let past : leb (i + 1) j ≡ false = ground arith in
                    let here : (leb i j && ltb j (i + suc n)) ≡ true = ground arith in
                    ih.words x j
                    ∙ rw (o, s, d, past, here, there) (ap (λ (y : ℕ). cow_pte (m.entries t y)) ij)
                | inr s ↦
                    let same : (leb (i + 1) j && ltb j (i + 1 + n))
                        ≡ (leb i j && ltb j (i + suc n)) =
                      ground arith in
                    ih.words x j ∙ rw (o, s, d, same) refl
              ]
            ];
            frames = ih.frames;
          })
    ]

-- A last table is filled.
filled-IsTree :
    (k : ℕ) (pl : ℕ → Option Place) (m m' : Memory) (c : ℕ) (u : Place)
    → IsTree k pl m
    → pl c ≡ some u
    → u.height ≡ 0
    → ((x j : ℕ) → (c == x) ≡ false → m'.entries x j ≡ m.entries x j)
    → m'.pmm ≡ m.pmm
    → IsTree k pl m'
filled-IsTree k pl m m' c u h at low off frames =
    let higher : (x : ℕ) (w : Place) (n j : ℕ)
        → pl x ≡ some w
        → w.height ≡ suc n
        → m'.entries x j ≡ m.entries x j =
      λ x w n j f hw. elim (Bool-cases (c == x)) [
        | inr q ↦ off x j q
        | inl q ↦
            let both : some u ≡ some w = sym at ∙ ap pl ((==_iff c x).0 q) ∙ f in
            let eq : u ≡ w = cc in absurd (omega (arith, ap (λ (y : Place). y.height) eq, low, hw))
      ] in
    record {
      links = λ x w n j f hw lt p l.
          let o' = higher x w n j f hw in rw o' (h.links x w n j f hw lt (rw o' at p) (rw o' at l));
      idle = λ x w n j f hw lt p.
          let o' = higher x w n j f hw in rw o' (h.idle x w n j f hw lt (rw o' at p));
      apart = rw frames h.apart;
      aligned = h.aligned;
      valid = rw frames h.valid;
      once = rw frames h.once;
      low = rw frames h.low;
    }

module _ (k o r : ℕ) (pl0 : ℕ → Option Place) (m0 : Memory) (h0 : IsTree k pl0 m0)
    (no_large : (t : ℕ) (w : Place) (n i : ℕ)
      → pl0 t ≡ some w
      → w.owner ≡ o
      → w.height ≡ suc n
      → i < 512
      → is_set (m0.entries t i) 128 ≡ false) where
  -- An entry that has been copied leads where the parent's does.
  pub entry-walks :
      (n t : ℕ) (w : Place) (c : ℕ) (pl : ℕ → Option Place) (m : Memory) (v : ℕ)
      → pl0 t ≡ some w
      → w.owner ≡ o
      → w.height ≡ suc n
      → EntryDone k o r pl0 m0 h0 no_large pl m n t w c (digit (suc n) v)
      → address v (leaf_from m v (suc n) c) ≡ address v (leaf_from m0 v (suc n) t)
  unfolding leaf_from
  entry-walks n t w c pl m v at0 own hw (skipped q z) =
      let l0 =
        small-not_large (suc n) (m0.entries t (digit (suc n) v))
          (no_large t w n (digit (suc n) v) at0 own hw (digit-lt (suc n) v)) in
      let l : is_large (suc n) 0 ≡ false = ground arith in rw (z, l, l0, q) refl
  entry-walks n t w c pl m v at0 own hw (copied q p s below walks) =
      let l0 =
        small-not_large (suc n) (m0.entries t (digit (suc n) v))
          (no_large t w n (digit (suc n) v) at0 own hw (digit-lt (suc n) v)) in
      let l = small-not_large (suc n) (m.entries c (digit (suc n) v)) s in
      rw (l, p, l0, q) (walks v)

  -- The tail of `clone_pd` and `clone_pdpt`.
  abbrev pub clone_table : (Memory → ℕ → Option ℕ × Memory) → Memory → ℕ → Option ℕ × Memory
  clone_table clone m e = or_none (alloc_zeroed_frame m) λ c m'.
      or_none (clone_entries clone 512 m' (bit_and e pte_addr_mask) c 0)
        λ _ m''. (some (same_flags c e), m'')

  table_done :
      (pl : ℕ → Option Place) (m : Memory) (e1 : Extends k pl0 m0 pl m)
      (clone : Memory → ℕ → Option ℕ × Memory) (n : ℕ)
      (clones : Clones k o r pl0 m0 h0 no_large clone n) (w : Place) (e : ℕ)
      (at0 : pl0 (bit_and e pte_addr_mask) ≡ some w) (own : w.owner ≡ o) (hw : w.height ≡ suc n)
      (c : ℕ) (fresh : (x : ℕ) (u : Place) → pl x ≡ some u → (c == x) ≡ false)
      → is_set e 1 ≡ true
      → is_set e 128 ≡ false
      → (c ≡ c / 2 ^ 12 * 2 ^ 12) × (c < 2 ^ 52)
      → (res : Option ℕ × Memory)
      → Looped k o r pl0 m0 h0 no_large pl m e1 clone n clones
          (bit_and e pte_addr_mask)
          w
          at0
          own
          hw
          c
          fresh
          512
          res
      → Cloned k o r pl0 m0 h0 no_large pl m
          (suc n)
          w
          e
          (or_none res λ _ m''. (some (same_flags c e), m''))
  table_done pl m e1 clone n clones w e at0 own hw c fresh p l al res (stopped pl' m' g) =
      failed pl' m' g
  table_done pl m e1 clone n clones w e at0 own hw c fresh p l al res (going pl' m' s) =
      let x = same_flags-NewEntry c e al.0 al.1 in
      cloned (same_flags c e) pl' m' s.ext (x.present ∙ p) (x.large ∙ l) (rw x.names s.at) (λ v.
        rw x.names (
          entry-walks n (bit_and e pte_addr_mask) w c pl' m' v at0 own hw
            (s.done (digit (suc n) v) (digit-lt (suc n) v))))

  table_filled :
      (pl : ℕ → Option Place) (m : Memory) (e1 : Extends k pl0 m0 pl m)
      (clone : Memory → ℕ → Option ℕ × Memory) (n : ℕ)
      (clones : Clones k o r pl0 m0 h0 no_large clone n) (w : Place) (e : ℕ)
      (at0 : pl0 (bit_and e pte_addr_mask) ≡ some w) (own : w.owner ≡ o) (hw : w.height ≡ suc n)
      → n ≤ 1
      → is_set e 1 ≡ true
      → is_set e 128 ≡ false
      → (res : Option ℕ × Memory) → Allocated k pl m (λ _. owned r w) res
      → Cloned k o r pl0 m0 h0 no_large pl m (suc n) w e (
          or_none res λ c m'.
            or_none
              (clone_entries clone 512 m' (bit_and e pte_addr_mask) c 0)
              λ _ m''. (some (same_flags c e), m''))
  table_filled pl m e1 clone n clones w e at0 own hw le p l res none_free =
      failed pl m (Extends-refl e1.tree)
  table_filled pl m e1 clone n clones w e at0 own hw le p l res (got c m' g fresh placed zeros al) =
      let t = bit_and e pte_addr_mask in
      let lower : (j : ℕ) → j < 512 → ((w.height == 3) && leb 256 j) ≡ false =
        λ j lt. let not_root : (w.height == 3) ≡ false = ground arith in rw not_root refl in
      let start : Loop k o r pl0 m0 h0 no_large pl m e1 clone n clones t w at0 own hw c fresh 0
          (place_at c (owned r w) pl) m' =
        record {
          ext = g;
          at = placed;
          done = λ j less. absurd (omega arith);
          rest = λ j ge less. zeros j;
        } in
      table_done pl m e1 clone n clones w e at0 own hw c fresh p l al
        (clone_entries clone 512 m' t c 0)
        (loop k o r pl0 m0 h0 no_large pl m e1 clone n clones t w at0 own hw c fresh 512 0 512
          (place_at c (owned r w) pl) m' (omega arith) (omega arith) lower start)

  clone_table-Clones :
      (clone : Memory → ℕ → Option ℕ × Memory) (n : ℕ)
      → n ≤ 1
      → Clones k o r pl0 m0 h0 no_large clone n
      → Clones k o r pl0 m0 h0 no_large (clone_table clone) (suc n)
  clone_table-Clones clone n le clones pl m w e e1 at0 own hw p l =
      table_filled pl m e1 clone n clones w e at0 own hw le p l (alloc_zeroed_frame m)
        (alloc_zeroed_frame-Allocated k pl m (λ _. owned r w) e1.tree)

  pages_filled :
      (pl : ℕ → Option Place) (m : Memory) (w : Place) (e : ℕ) (e1 : Extends k pl0 m0 pl m)
      (at0 : pl0 (bit_and e pte_addr_mask) ≡ some w) (hw : w.height ≡ 0)
      → is_set e 1 ≡ true
      → is_set e 128 ≡ false
      → (res : Option ℕ × Memory) → Allocated k pl m (λ _. owned r w) res
      → Cloned k o r pl0 m0 h0 no_large pl m 0 w e (
          or_none res
            λ c m'. (some (same_flags c e), copy_pages 512 m' (bit_and e pte_addr_mask) c 0))
  unfolding leaf_from
  pages_filled pl m w e e1 at0 hw p l res none_free = failed pl m (Extends-refl e1.tree)
  pages_filled pl m w e e1 at0 hw p l res (got c m' g fresh placed zeros al) =
      let t = bit_and e pte_addr_mask in
      let d = fresh t w (e1.keeps t w at0) in
      let f = copy_pages_lem 512 m' t c 0 d in
      let m'' = copy_pages 512 m' t c 0 in
      let off : (x j : ℕ) → (c == x) ≡ false → m''.entries x j ≡ m'.entries x j =
        λ x j n. f.words x j ∙ rw n refl in
      let x = same_flags-NewEntry c e al.0 al.1 in
      let self : (c == c) ≡ true = (==_iff c c).1 refl in
      cloned (same_flags c e) (place_at c (owned r w) pl) m''
        (record {
          tree =
              filled-IsTree k (place_at c (owned r w) pl) m' m'' c (owned r w) g.tree placed hw off
                f.frames;
          keeps = g.keeps;
          same = λ y u j q. off y j (fresh y u q) ∙ g.same y u j q;
        })
        (x.present ∙ p) (x.large ∙ l) (rw x.names placed)
        (λ v.
          let j = digit 0 v in
          let lt = digit-lt 0 v in
          let in_range : (leb 0 j && ltb j 512) ≡ true = ground arith in
          let old : m'.entries t j ≡ m0.entries t j = (Extends-trans e1 g).same t w j at0 in
          let there = f.words c j in
          elim (Bool-cases (is_set (m0.entries t j) 1)) [
            | inr q ↦
                let z : m''.entries c j ≡ 0 = there ∙ rw (self, in_range, old, q) (zeros j) in
                rw (x.names, z, q) refl
            | inl q ↦
                let s = cow_pte-SameEntry (m0.entries t j) in
                let z : m''.entries c j ≡ cow_pte (m0.entries t j) =
                  there ∙ rw (self, in_range, old, q) refl in
                rw (x.names, z, s.present, q)
                  (ap (λ (y : ℕ). some (bit_or y (bit_and v 0xFFF))) s.names)
          ])

  clone_pt-Clones : Clones k o r pl0 m0 h0 no_large clone_pt 0
  unfolding clone_pt
  clone_pt-Clones pl m w e e1 at0 own hw p l =
      pages_filled pl m w e e1 at0 hw p l (alloc_zeroed_frame m)
        (alloc_zeroed_frame-Allocated k pl m (λ _. owned r w) e1.tree)

  clone_pd-Clones : Clones k o r pl0 m0 h0 no_large clone_pd 1
  unfolding clone_pd
  clone_pd-Clones pl m w e e1 at0 own hw p l =
      rw l (clone_table-Clones clone_pt 0 (omega arith) clone_pt-Clones pl m w e e1 at0 own hw p l)

  pub clone_pdpt-Clones : Clones k o r pl0 m0 h0 no_large clone_pdpt 2
  unfolding clone_pdpt
  clone_pdpt-Clones = clone_table-Clones clone_pd 1 (omega arith) clone_pd-Clones
