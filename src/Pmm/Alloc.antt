-- ===== src/Pmm/Alloc.antt =====
-- `alloc` of src/mm/pmm.rs: which block it gives, what is left, and when it gives none.
use sar_osx.Base.{
  length, Option, add64, ℕ, zero, suc, ◌+◌, ◌-◌, ◌^◌, ◌≤◌, ◌<◌, ◌≡◌, refl, sym, ap, ◌∙◌, inl, inr,
  true, false, none, some, List, [], ◌∷◌, arith, ◌==◌, ==_iff, Bool-cases, Option-cases,
}
use sar_osx.Pmm.{
  block_size, pop, pop_blocks, BuddyAllocator, set_list, push_at, is_null, find_order, split,
  take_block, alloc_from, alloc,
}
use sar_osx.Pmm.Mass.{
  mass_blocks, All, mass_orders-set_list, Fits, block_size-suc, block_size-pos, mass, mass-push_at,
}
use sar_osx.Pmm.Valid.{
  inside-Halves, pages-Halves, pages, inside, covered, set_list-all, IsValid, ListIsValid, Halves,
  Fits-halves, push_at-lists,
}

is_null-nil : (l : List ℕ) → is_null l ≡ true → l ≡ []
is_null-nil [] e = refl
is_null-nil (x ∷ l) e = cc

find_order-some :
    (n : ℕ) (b : BuddyAllocator) (o : ℕ) {k : ℕ}
    → find_order n b o ≡ some k
    → (o ≤ k) × (k < o + n) × (is_null (b.lists k).blocks ≡ false)
unfolding find_order
find_order-some zero b o e = cc
find_order-some (suc n) b o {k} e = elim (Bool-cases (is_null (b.lists o).blocks)) [
  | inl t ↦
      let r = find_order-some n b (o + 1) (rw t at e) in
      (omega (arith, r.0), omega (arith, r.1), r.2)
  | inr t ↦
      let given : some o ≡ some k = rw t at e in
      let same : o ≡ k = cc in (omega arith, omega arith, rw same at t)
]

find_order-none :
    (n : ℕ) (b : BuddyAllocator) (o k : ℕ)
    → find_order n b o ≡ none
    → o ≤ k
    → k < o + n
    → (b.lists k).blocks ≡ []
unfolding find_order
find_order-none zero b o k e lo hi = absurd (omega arith)
find_order-none (suc n) b o k e lo hi = elim (Bool-cases (is_null (b.lists o).blocks)) [
  | inl t ↦ elim (Bool-cases (o == k)) [
    | inl u ↦ is_null-nil (b.lists k).blocks (rw ((==_iff o k).0 u) at t)
    | inr u ↦ find_order-none n b (o + 1) k (rw t at e) (ground arith) (omega arith)
  ]
  | inr t ↦ let bad : some o ≡ none = rw t at e in cc
]

add-suc-right : (a b : ℕ) → a + suc b ≡ suc (a + b)
add-suc-right a b = omega arith

add64-block_size : (o p : ℕ) → Fits (suc o) p → add64 p (block_size o) ≡ p + block_size o
add64-block_size o p h = omega (arith, h.below, block_size-suc o, block_size-pos o)

split-lists :
    (d : ℕ) (b : BuddyAllocator) (p order : ℕ)
    → Fits (order + d) p
    → ((o : ℕ) → ListIsValid o (b.lists o))
    → Fits order p × ((o : ℕ) → ListIsValid o ((split d b p order).lists o))
unfolding split
split-lists zero b p order h v = (let e : order + 0 ≡ order = omega arith in rw e at h, v)
split-lists (suc d) b p order h v =
    let whole : Fits (suc (order + d)) p = rw (add-suc-right order d) at h in
    let parts = Fits-halves (order + d) p whole in
    split-lists d _ p order parts.0
      (push_at-lists b (order + d) _ (rw (add64-block_size (order + d) p whole) parts.1) v)

-- The upper halves that `split` gives back add up to all of the block but its first part.
split-mass :
    (w : ℕ → ℕ → ℕ) (half : Halves w) (d : ℕ) (b : BuddyAllocator) (p order : ℕ)
    → Fits (order + d) p
    → order + d < 13
    → mass w (split d b p order) + w order p ≡ mass w b + w (order + d) p
unfolding split
split-mass w half zero b p order h lt = let e : order + 0 ≡ order = omega arith in rw e refl
split-mass w half (suc d) b p order h lt =
    let whole : Fits (suc (order + d)) p = rw (add-suc-right order d) at h in
    let parts = Fits-halves (order + d) p whole in
    let upper = add64 p (block_size (order + d)) in
    omega (
      arith,
      split-mass w half d (push_at b (order + d) upper) p order parts.0 (omega arith),
      mass-push_at w b (order + d) upper (omega arith),
      half (order + d) p,
      ap (λ (t : ℕ). w (order + d) t) (add64-block_size (order + d) p whole),
      ap (λ (t : ℕ). w t p) (add-suc-right order d),
    )

-- The state after the block `p` has been taken off list `k`, before it is split.
abbrev pub taken : BuddyAllocator → ℕ → List ℕ → BuddyAllocator
taken b k rest = record b {
  lists = set_list b.lists k (record { blocks = rest; count = (b.lists k).count - 1 });
}

abbrev pub result : BuddyAllocator → (order k p : ℕ) → List ℕ → BuddyAllocator
result b order k p rest =
    let b' = split (k - order) (taken b k rest) p order in
    record b' { free_pages = b'.free_pages - 2 ^ order }

is_null-cons : (l : List ℕ) → is_null l ≡ false → (p : ℕ) × (rest : List ℕ) × (l ≡ p ∷ rest)
is_null-cons [] h = cc
is_null-cons (p ∷ rest) h = (p, rest, refl)

alloc_from-some :
    (b : BuddyAllocator) (order k p : ℕ) (rest : List ℕ)
    → (b.lists k).blocks ≡ p ∷ rest
    → alloc_from b order (some k) ≡ (some p, result b order k p rest)
unfolding alloc_from take_block pop pop_blocks
alloc_from-some b order k p rest e = rw (e, pop, pop_blocks)

-- What `alloc` did when it gave a block.
pub record Given (b : BuddyAllocator) (order : ℕ) (p : ℕ) (b' : BuddyAllocator) : Type 0 where
  pub k : ℕ
  pub rest : List ℕ
  pub range : (order ≤ k) × (k < 13)
  pub was : (b.lists k).blocks ≡ p ∷ rest
  pub now : b' ≡ result b order k p rest

alloc-Given :
    (b : BuddyAllocator) (order p : ℕ) (b' : BuddyAllocator)
    → alloc b order ≡ (some p, b')
    → Given b order p b'
unfolding alloc
alloc-Given b order p b' e = elim (Option-cases (find_order (13 - order) b order)) [
  | inl f ↦ let bad : (none, b) ≡ (some p, b') = rw f at e in cc (ap (λ t. t.0) bad)
  | inr (k, f) ↦
      let r = find_order-some (13 - order) b order f in
      let near : k < 13 = omega (arith, r.0, r.1) in
      let (q, rest, was) = is_null-cons (b.lists k).blocks r.2 in
      let both : ◌≡◌ {A = Option ℕ × BuddyAllocator} (some q, result b order k q rest)
          (some p, b') =
        sym (alloc_from-some b order k q rest was) ∙ (rw f at e) in
      let same : q ≡ p = cc (ap (λ (t : Option ℕ × BuddyAllocator). t.0) both) in
      record {
        k = k;
        rest = rest;
        range = (r.0, near);
        was = rw same at was;
        now = rw same at (sym (ap (λ (t : Option ℕ × BuddyAllocator). t.1) both));
      }
]

taken-mass :
    (w : ℕ → ℕ → ℕ) (b : BuddyAllocator) (k p : ℕ) (rest : List ℕ)
    → k < 13
    → (b.lists k).blocks ≡ p ∷ rest
    → mass w (taken b k rest) + w k p ≡ mass w b
taken-mass w b k p rest h was = omega (
  arith,
  mass_orders-set_list w 13 b.lists k (record { blocks = rest; count = (b.lists k).count - 1 }) h,
  ap (mass_blocks w k) was,
)

taken-lists :
    (b : BuddyAllocator) (k p : ℕ) (rest : List ℕ)
    → (b.lists k).blocks ≡ p ∷ rest
    → ((o : ℕ) → ListIsValid o (b.lists o))
    → Fits k p × ((o : ℕ) → ListIsValid o ((taken b k rest).lists o))
taken-lists b k p rest was v =
    let here : All (Fits k) (p ∷ rest) = rw was at (v k).0 in
    (
      here.0,
      set_list-all ListIsValid b.lists k _ (here.1, omega (arith, (v k).1, ap {B = ℕ} length was))
          v,
    )

split-free_pages :
    (d : ℕ) (b : BuddyAllocator) (p order : ℕ) → (split d b p order).free_pages ≡ b.free_pages
unfolding split
split-free_pages zero b p order = refl
split-free_pages (suc d) b p order = split-free_pages d _ p order

module _ (b : BuddyAllocator) (order p : ℕ) (b' : BuddyAllocator) (g : Given b order p b')
    (v : IsValid b) where
  whole : order + (g.k - order) ≡ g.k
  whole = omega (arith, g.range)

  given-lists : Fits order p × ((o : ℕ) → ListIsValid o (b'.lists o))
  given-lists =
      let t = taken-lists b g.k p g.rest g.was v.lists in
      rw g.now (split-lists (g.k - order) _ p order (rw whole t.0) t.1)

  given-mass : (w : ℕ → ℕ → ℕ) → Halves w → mass w b' + w order p ≡ mass w b
  given-mass w half =
      let t = taken-lists b g.k p g.rest g.was v.lists in
      rw g.now (
        omega (
          arith,
          split-mass w half (g.k - order) (taken b g.k g.rest) p order (rw whole t.0)
              (omega (arith, whole, g.range)),
          taken-mass w b g.k p g.rest g.range.1 g.was,
          ap (λ (t : ℕ). w t p) whole,
        ))

  given-free_pages : b'.free_pages ≡ b.free_pages - 2 ^ order
  given-free_pages =
      rw g.now (omega (arith, split-free_pages (g.k - order) (taken b g.k g.rest) p order))

-- In a valid allocator, when `alloc` gives a block: the block is aligned to its size and in range,
-- the allocator stays valid, every byte is covered by the free blocks as often as before, less
-- once for the bytes of the block, and the counter of free pages falls by the pages of the block.
pub alloc-some :
    (b : BuddyAllocator) (order p : ℕ) (b' : BuddyAllocator)
    → IsValid b
    → alloc b order ≡ (some p, b')
    → Fits order p
      × IsValid b'
      × ((f : ℕ) → covered f b' + inside f order p ≡ covered f b)
      × (b'.free_pages + 2 ^ order ≡ b.free_pages)
alloc-some b order p b' v e =
    let g = alloc-Given b order p b' e in
    let lists = given-lists b order p b' g v in
    let kept = given-mass b order p b' g v pages pages-Halves in
    let less = given-free_pages b order p b' g v in
    (
      lists.0,
      record { lists = lists.1; counted = omega (arith, kept, less, v.counted) },
      λ f. given-mass b order p b' g v (inside f) (inside-Halves f),
      omega (arith, kept, less, v.counted),
    )

-- In a valid allocator whose free blocks share no byte, two blocks that are given one after the
-- other share no byte either.
pub alloc-alloc_disjoint :
    (b : BuddyAllocator) (o p : ℕ) (b' : BuddyAllocator) (o' p' : ℕ) (b'' : BuddyAllocator)
    → IsValid b
    → ((f : ℕ) → covered f b ≤ 1)
    → alloc b o ≡ (some p, b')
    → alloc b' o' ≡ (some p', b'')
    → (f : ℕ) → inside f o p + inside f o' p' ≤ 1
alloc-alloc_disjoint b o p b' o' p' b'' v once e e' f =
    let first = alloc-some b o p b' v e in
    let second = alloc-some b' o' p' b'' first.1 e' in omega (arith, once f, first.2 f, second.2 f)

-- In any state: if `alloc` gives no block then all lists from the order up to 12 are empty and
-- nothing has changed; and if they are all empty, it gives none.
pub alloc-none :
    (b : BuddyAllocator) (order : ℕ)
    → ((alloc b order).0 ≡ none
        → ((k : ℕ) → order ≤ k → k ≤ 12 → (b.lists k).blocks ≡ []) × ((alloc b order).1 ≡ b))
      × (((k : ℕ) → order ≤ k → k ≤ 12 → (b.lists k).blocks ≡ []) → alloc b order ≡ (none, b))
unfolding alloc
alloc-none b order = elim (Option-cases (find_order (13 - order) b order)) [
  | inl f ↦ (
    λ e. (
      (λ k lo hi. find_order-none (13 - order) b order k f lo (omega arith)),
      unfold alloc_from in rw f,
    ),
    λ e. unfold alloc_from in rw f,
  )
  | inr (k, f) ↦
      let r = find_order-some (13 - order) b order f in
      let (p, rest, was) = is_null-cons (b.lists k).blocks r.2 in
      let gave = alloc_from-some b order k p rest was in
      (
        λ e.
            let bad : some p ≡ none =
              sym (ap (λ (t : Option ℕ × BuddyAllocator). t.0) gave) ∙ (rw f at e) in
            cc,
        λ e. let bad : (b.lists k).blocks ≡ [] = e k r.0 (omega (arith, r.1)) in cc,
      )
]
