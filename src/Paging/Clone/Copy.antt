-- ===== src/Paging/Clone/Copy.antt =====
-- The loops of `clone_pt`, `clone_pd` and `clone_pdpt` of src/proc/fork.rs: the new table translates
-- every address as the old one does.
use sar_osx.Base.{
  ℕ, zero, suc, ◌+◌, ◌≤◌, ◌<◌, bit_and, ◌≡◌, refl, sym, ap, ◌∙◌, inl, inr, true, false, ◌&&◌,
  Option, none, some, arith, leb, ◌==◌, ==_iff, Bool-cases,
}
use mathlib.Core.Path.{subst}
use sar_osx.Paging.{pte_addr_mask, Memory, is_set, is_present, set_entry}
use sar_osx.Paging.Tree.{Place, child, IsTree, leaf_from, address}
use sar_osx.Paging.Grows.{small-not_large}
use sar_osx.Paging.Clone.{or_none, clone_entry, clone_entries}
use sar_osx.Paging.Clone.Extend.{Extends, Extends-trans, Extends-leaf, above-leaf, set_link-IsTree}

-- The place of the copy of a table.
abbrev pub owned : (r : ℕ) → Place → Place
owned r w = record w { owner = r }

-- A table that is higher than `n` is none of those up to there.
lower_off :
    (pl : ℕ → Option Place) (m : Memory) (c : ℕ) (u : Place) (i e n : ℕ)
    → pl c ≡ some u
    → u.height ≡ suc n
    → (x : ℕ) (w : Place) (j : ℕ) → pl x ≡ some w
    → w.height ≤ n
    → (set_entry m c i e).entries x j ≡ m.entries x j
lower_off pl m c u i e n at hu x w j f le = elim (Bool-cases (c == x)) [
  | inr q ↦ rw q refl
  | inl q ↦
      let both : some u ≡ some w = sym at ∙ ap pl ((==_iff c x).0 q) ∙ f in
      let eq : u ≡ w = cc in absurd (omega (arith, ap (λ (y : Place). y.height) eq, hu, le))
]

-- The spaces at the start: the parent `o` has no large pages.
module _ (k o r : ℕ) (pl0 : ℕ → Option Place) (m0 : Memory) (h0 : IsTree k pl0 m0)
    (no_large : (t : ℕ) (w : Place) (n i : ℕ)
      → pl0 t ≡ some w
      → w.owner ≡ o
      → w.height ≡ suc n
      → i < 512
      → is_set (m0.entries t i) 128 ≡ false) where
  -- The walks from `x` in one state and from `y` in the other end at the same frames.
  abbrev pub SameWalks : (m : Memory) (n x y : ℕ) → Type 0
  SameWalks m n x y = (v : ℕ) → address v (leaf_from m v n x) ≡ address v (leaf_from m0 v n y)

  -- What the copy of the table behind an entry `e` gives.
  pub data Cloned (pl : ℕ → Option Place) (m : Memory) (n : ℕ) (w : Place) (e : ℕ)
      : Option ℕ × Memory → Type 0 where
    failed :
        (pl' : ℕ → Option Place) (m' : Memory)
        → Extends k pl m pl' m'
        → Cloned pl m n w e (none, m')
    cloned :
        (e' : ℕ) (pl' : ℕ → Option Place) (m' : Memory)
        → Extends k pl m pl' m'
        → is_set e' 1 ≡ true
        → is_set e' 128 ≡ false
        → pl' (bit_and e' pte_addr_mask) ≡ some (owned r w)
        → SameWalks m' n (bit_and e' pte_addr_mask) (bit_and e pte_addr_mask)
        → Cloned pl m n w e (some e', m')

  abbrev pub Clones : (Memory → ℕ → Option ℕ × Memory) → ℕ → Type 0
  Clones clone n =
      (pl : ℕ → Option Place) (m : Memory) (w : Place) (e : ℕ)
      → Extends k pl0 m0 pl m
      → pl0 (bit_and e pte_addr_mask) ≡ some w
      → w.owner ≡ o
      → w.height ≡ n
      → is_set e 1 ≡ true
      → is_set e 128 ≡ false
      → Cloned pl m n w e (clone m e)

  -- One entry of the copy `c` of the table `t`, after its round.
  pub data EntryDone (pl : ℕ → Option Place) (m : Memory) (n t : ℕ) (w : Place) (c j : ℕ)
      : Type 0 where
    skipped : is_set (m0.entries t j) 1 ≡ false → m.entries c j ≡ 0 → EntryDone pl m n t w c j
    copied :
        is_set (m0.entries t j) 1 ≡ true
        → is_set (m.entries c j) 1 ≡ true
        → is_set (m.entries c j) 128 ≡ false
        → pl (bit_and (m.entries c j) pte_addr_mask) ≡ some (child k (owned r w) j)
        → SameWalks m n
            (bit_and (m.entries c j) pte_addr_mask)
            (bit_and (m0.entries t j) pte_addr_mask)
        → EntryDone pl m n t w c j

  EntryDone-Extends :
      {pl pl' : ℕ → Option Place} {m m' : Memory} {n t : ℕ} {w : Place} {c j : ℕ}
      → IsTree k pl m
      → Extends k pl m pl' m'
      → pl c ≡ some (owned r w)
      → w.height ≡ suc n
      → EntryDone pl m n t w c j
      → EntryDone pl' m' n t w c j
  EntryDone-Extends {w = w} {c = c} {j = j} h g at hw (skipped q z) =
      skipped q (g.same c (owned r w) j at ∙ z)
  EntryDone-Extends {pl} {pl'} {m} {m'} {n} {t} {w} {c} {j} h g at hw (copied q p l below walks) =
      let s = g.same c (owned r w) j at in
      copied q (rw s p) (rw s l)
        (rw s (g.keeps (bit_and (m.entries c j) pte_addr_mask) (child k (owned r w) j) below))
        (λ v. rw s (
          ap (address v) (
            Extends-leaf h g n (bit_and (m.entries c j) pte_addr_mask) (child k (owned r w) j) v
              below (omega arith))
          ∙ walks v))

  -- Another entry of the copy is written.
  EntryDone-set :
      {pl : ℕ → Option Place} {m : Memory} {n t : ℕ} {w : Place} {c j : ℕ} (i e : ℕ)
      → IsTree k pl m
      → pl c ≡ some (owned r w)
      → w.height ≡ suc n
      → (i == j) ≡ false
      → EntryDone pl m n t w c j
      → EntryDone pl (set_entry m c i e) n t w c j
  EntryDone-set {m = m} {c = c} {j = j} i e h at hw other (skipped q z) =
      skipped q (let d : (c == c && i == j) ≡ false = ground arith in rw d z)
  EntryDone-set {pl} {m} {n} {t} {w} {c} {j} i e h at hw other (copied q p l below walks) =
      let d : (c == c && i == j) ≡ false = ground arith in
      let f = bit_and (m.entries c j) pte_addr_mask in
      copied q (rw d p) (rw d l) (rw d below) (λ v. rw d (
        ap (address v) (
          above-leaf (set_entry m c i e) h n f (child k (owned r w) j) v
            (lower_off pl m c (owned r w) i e n at hw) below (omega arith))
        ∙ walks v))

  owned-child :
      (w : Place) (i : ℕ)
      → ((w.height == 3) && leb 256 i) ≡ false
      → owned r (child k w i) ≡ child k (owned r w) i
  owned-child w i lower = rw lower refl

  -- The table `t` of the parent, its copy `c`, and the function for what its entries name.
  module _ (pl1 : ℕ → Option Place) (m1 : Memory) (e1 : Extends k pl0 m0 pl1 m1)
      (clone : Memory → ℕ → Option ℕ × Memory) (n : ℕ) (clones : Clones clone n) (t : ℕ) (w : Place)
      (at0 : pl0 t ≡ some w) (own : w.owner ≡ o) (hw : w.height ≡ suc n) (c : ℕ)
      (fresh : (x : ℕ) (u : Place) → pl1 x ≡ some u → (c == x) ≡ false) where
    pub record Loop (i : ℕ) (pl : ℕ → Option Place) (m : Memory) : Type 0 where
      pub ext : Extends k pl1 m1 pl m
      pub at : pl c ≡ some (owned r w)
      pub done : (j : ℕ) → j < i → EntryDone pl m n t w c j
      pub rest : (j : ℕ) → i ≤ j → j < 512 → m.entries c j ≡ 0

    pub data Looped (i : ℕ) : Option ℕ × Memory → Type 0 where
      stopped :
          (pl' : ℕ → Option Place) (m' : Memory) → Extends k pl1 m1 pl' m' → Looped i (none, m')
      going : (pl' : ℕ → Option Place) (m' : Memory) → Loop i pl' m' → Looped i (some c, m')

    after_clone :
        (i : ℕ) (pl : ℕ → Option Place) (m : Memory)
        → Loop i pl m
        → i < 512
        → ((w.height == 3) && leb 256 i) ≡ false
        → is_set (m0.entries t i) 1 ≡ true
        → (res : Option ℕ × Memory) → Cloned pl m n (child k w i) (m0.entries t i) res
        → Looped (i + 1) (or_none res λ entry m'. (some c, set_entry m' c i entry))
    after_clone i pl m s lt lower q res (failed pl' m' g) = stopped pl' m' (Extends-trans s.ext g)
    after_clone i pl m s lt lower q res (cloned e' pl' m' g p l below walks) =
        let both = Extends-trans s.ext g in
        let here = g.keeps c (owned r w) s.at in
        let below' : pl' (bit_and e' pte_addr_mask) ≡ some (child k (owned r w) i) =
          below ∙ ap some (owned-child w i lower) in
        let m'' = set_entry m' c i e' in
        going pl' m'' (record {
          ext = record {
            tree = set_link-IsTree k pl' m' c (owned r w) i e' g.tree here p l below';
            keeps = both.keeps;
            same = λ x u j f.
                let d : (c == x && i == j) ≡ false = rw (fresh x u f) refl in
                rw d (both.same x u j f);
          };
          at = here;
          done = λ j less. elim (Bool-cases (i == j)) [
            | inr d ↦
                let before : j < i = ground arith in
                EntryDone-set i e' g.tree here hw d
                  (EntryDone-Extends s.ext.tree g s.at hw (s.done j before))
            | inl d ↦
                let ij : i ≡ j = (==_iff i j).0 d in
                let at_i : (c == c && i == i) ≡ true = ground arith in
                subst (λ y. EntryDone pl' m'' n t w c y) ij
                  (copied q (rw at_i p) (rw at_i l) (rw at_i below') (λ v. rw at_i (
                    ap (address v) (
                      above-leaf m'' g.tree n (bit_and e' pte_addr_mask) (child k (owned r w) i) v
                        (lower_off pl' m' c (owned r w) i e' n here hw) below' (omega (arith, hw)))
                    ∙ walks v)))
          ];
          rest = λ j ge less.
              let d : (c == c && i == j) ≡ false = ground arith in
              rw d (g.same c (owned r w) j s.at ∙ s.rest j (omega arith) less);
        })

    round :
        (i : ℕ) (pl : ℕ → Option Place) (m : Memory)
        → Loop i pl m
        → i < 512
        → ((w.height == 3) && leb 256 i) ≡ false
        → Looped (i + 1) (clone_entry clone m t c i)
    unfolding clone_entry is_present
    round i pl m s lt lower =
        let whole = Extends-trans e1 s.ext in
        let eq = whole.same t w i at0 in
        let x = m0.entries t i in
        elim (Bool-cases (is_set x 1)) [
          | inr q ↦
              rw (eq, q)
                (going pl m (record {
                  ext = s.ext;
                  at = s.at;
                  done = λ j less. elim (Bool-cases (i == j)) [
                    | inr d ↦ s.done j (ground arith)
                    | inl d ↦
                        subst (λ y. EntryDone pl m n t w c y) ((==_iff i j).0 d)
                          (skipped q (s.rest i (omega arith) lt))
                  ];
                  rest = λ j ge less. s.rest j (omega arith) less;
                }))
          | inl q ↦
              let small = no_large t w n i at0 own hw lt in
              let below = h0.links t w n i at0 hw lt q (small-not_large w.height x small) in
              let mine : (child k w i).owner ≡ o = rw lower own in
              rw (eq, q)
                (after_clone i pl m s lt lower q (clone m x)
                  (clones pl m (child k w i) x whole below mine (omega (arith, hw)) q small))
        ]

    go_on :
        (i limit : ℕ) (f : Memory → Option ℕ × Memory)
        → ((pl : ℕ → Option Place) (m : Memory) → Loop i pl m → Looped limit (f m))
        → (res : Option ℕ × Memory) → Looped i res
        → Looped limit (or_none res λ _ m'. f m')
    go_on i limit f next res (stopped pl' m' g) = stopped pl' m' g
    go_on i limit f next res (going pl' m' s) = next pl' m' s

    pub loop :
        (cnt i limit : ℕ) (pl : ℕ → Option Place) (m : Memory)
        → i + cnt ≡ limit
        → limit ≤ 512
        → ((j : ℕ) → j < limit → ((w.height == 3) && leb 256 j) ≡ false)
        → Loop i pl m
        → Looped limit (clone_entries clone cnt m t c i)
    unfolding clone_entries
    loop zero i limit pl m e le lower s =
        let eq : i ≡ limit = omega arith in going pl m (subst (λ y. Loop y pl m) eq s)
    loop (suc cnt) i limit pl m e le lower s =
        go_on (i + 1) limit (λ m'. clone_entries clone cnt m' t c (i + 1))
          (λ pl' m' s'. loop cnt (i + 1) limit pl' m' (omega arith) le lower s')
          (clone_entry clone m t c i) (round i pl m s (omega arith) (lower i (omega arith)))
