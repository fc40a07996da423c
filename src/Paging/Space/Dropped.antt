-- ===== src/Paging/Space/Dropped.antt =====
-- What the drop of an address space frees, src/mm/vmm.rs: the tables that are still kept in the course
-- of the loops, and how many there are.
pub mod Loops
pub mod Others
use sar_osx.Base.{
  ℕ, zero, suc, ◌+◌, ◌*◌, ◌/◌, ◌^◌, ◌≤◌, ◌<◌, ◌≡◌, sym, ap, ◌∙◌, ◌≢◌, ◌⊎◌, inl, inr, false, not,
  ◌&&◌, Option, some, arith, leb, ◌==◌, if◌then◌else◌, ==_iff, Bool-cases,
}
use mathlib.Core.Path.{subst}
use sar_osx.Pmm.Mass.{Fits}
use sar_osx.Pmm.Valid.{IsValid, covered, inside}
use sar_osx.Pmm.Free.{free_lem}
use sar_osx.Paging.{Memory, is_set, is_present, frame_at, freed, free_frame}
use sar_osx.Paging.Tree.{Place, IsTree}

-- How many tables stand below a table from its entry `i` on, of which `n` are left, by its height.
unfoldable pub count_last_tables : (n : ℕ) → Memory → (pd k : ℕ) → ℕ
count_last_tables zero m pd k = 0
count_last_tables (suc n) m pd k =
    (if is_present m pd k && not (is_set (m.entries pd k) 128) then 1 else 0)
    + count_last_tables n m pd (k + 1)

unfoldable pub count_directories : (n : ℕ) → Memory → (pdpt j : ℕ) → ℕ
count_directories zero m pdpt j = 0
count_directories (suc n) m pdpt j =
    (if is_present m pdpt j then count_last_tables 512 m (frame_at m pdpt j) 0 + 1 else 0)
    + count_directories n m pdpt (j + 1)

unfoldable pub count_pointer_tables : (n : ℕ) → Memory → (pml4 i : ℕ) → ℕ
count_pointer_tables zero m pml4 i = 0
count_pointer_tables (suc n) m pml4 i =
    (if is_present m pml4 i then count_directories 512 m (frame_at m pml4 i) 0 + 1 else 0)
    + count_pointer_tables n m pml4 (i + 1)

-- The tables of the lower half of a space, with the root.
unfoldable pub count_tables : Memory → (root : ℕ) → ℕ
count_tables m root = count_pointer_tables 256 m root 0 + 1

-- The bounds below which the tables of the space have been freed, by the height of a table.
abbrev pub bound : (a3 a2 a1 a0 : ℕ) → ℕ → ℕ
bound a3 a2 a1 a0 zero = a0
bound a3 a2 a1 a0 (suc zero) = a1
bound a3 a2 a1 a0 (suc (suc zero)) = a2
bound a3 a2 a1 a0 (suc (suc (suc h))) = a3

abbrev pub Keep : (root a3 a2 a1 a0 : ℕ) → Place → Type 0
Keep root a3 a2 a1 a0 u = (u.owner ≢ root) ⊎ (bound a3 a2 a1 a0 u.height ≤ u.path)

bound-le :
    (a3 a2 a1 a0 b3 b2 b1 b0 h : ℕ)
    → a3 ≤ b3
    → a2 ≤ b2
    → a1 ≤ b1
    → a0 ≤ b0
    → bound a3 a2 a1 a0 h ≤ bound b3 b2 b1 b0 h
bound-le a3 a2 a1 a0 b3 b2 b1 b0 zero e3 e2 e1 e0 = e0
bound-le a3 a2 a1 a0 b3 b2 b1 b0 (suc zero) e3 e2 e1 e0 = e1
bound-le a3 a2 a1 a0 b3 b2 b1 b0 (suc (suc zero)) e3 e2 e1 e0 = e2
bound-le a3 a2 a1 a0 b3 b2 b1 b0 (suc (suc (suc h))) e3 e2 e1 e0 = e3

pub Keep-weaken :
    (root a3 a2 a1 a0 b3 b2 b1 b0 : ℕ)
    → a3 ≤ b3
    → a2 ≤ b2
    → a1 ≤ b1
    → a0 ≤ b0
    → (u : Place) → Keep root b3 b2 b1 b0 u
    → Keep root a3 a2 a1 a0 u
Keep-weaken root a3 a2 a1 a0 b3 b2 b1 b0 e3 e2 e1 e0 u (inl o) = inl o
Keep-weaken root a3 a2 a1 a0 b3 b2 b1 b0 e3 e2 e1 e0 u (inr l) =
    inr (omega (arith, l, bound-le a3 a2 a1 a0 b3 b2 b1 b0 u.height e3 e2 e1 e0))

pub Keep-not :
    (root a3 a2 a1 a0 : ℕ) (w : Place)
    → w.owner ≡ root
    → w.path < bound a3 a2 a1 a0 w.height
    → (u : Place) → Keep root a3 a2 a1 a0 u
    → u ≢ w
Keep-not root a3 a2 a1 a0 w own lt u (inl o) eq = o (ap (λ (x : Place). x.owner) eq ∙ own)
Keep-not root a3 a2 a1 a0 w own lt u (inr l) eq =
    let l' : bound a3 a2 a1 a0 w.height ≤ w.path =
      subst (λ (x : Place). bound a3 a2 a1 a0 x.height ≤ x.path) eq l in
    absurd (omega arith)

disjoint_frames :
    (f t x : ℕ)
    → t ≡ t / 2 ^ 12 * 2 ^ 12
    → x ≡ x / 2 ^ 12 * 2 ^ 12
    → (t == x) ≡ false
    → inside f 0 t + inside f 0 x ≤ 1
disjoint_frames f t x e d n = ground arith

in_page : (f t : ℕ) → t ≡ t / 2 ^ 12 * 2 ^ 12 → t < 2 ^ 52 → inside f 0 t ≡ 1 → f < 2 ^ 52
in_page f t a lt here = ground arith

module _ (k : ℕ) (pl : ℕ → Option Place) (m0 : Memory) (h : IsTree k pl m0) where
  -- In the course of the loops: the tables are as they were, those that `Kept` holds of are not free,
  -- and `c` frames have become free.
  pub record Live (Kept : Place → Type 0) (c : ℕ) (m : Memory) : Type 0 where
    pub same : m.entries ≡ m0.entries
    pub apart :
        (x : ℕ) (u : Place) → pl x ≡ some u → Kept u → (f : ℕ) → covered f m.pmm + inside f 0 x ≤ 1
    pub valid : IsValid m.pmm
    pub once : (f : ℕ) → covered f m.pmm ≤ 1
    pub low : (f : ℕ) → 1 ≤ covered f m.pmm → f < 2 ^ 52
    pub counted : m.pmm.free_pages ≡ m0.pmm.free_pages + c

  pub Live-weaken :
      {K K' : Place → Type 0} {c c' : ℕ} {m : Memory}
      → ((u : Place) → K' u → K u)
      → c ≡ c'
      → Live K c m
      → Live K' c' m
  Live-weaken w e v = record {
    same = v.same;
    apart = λ x u at kept. v.apart x u at (w u kept);
    valid = v.valid;
    once = v.once;
    low = v.low;
    counted = rw (← e) v.counted;
  }

  pub Live-recount :
      {K : Place → Type 0} {c c' : ℕ} {m : Memory} → c ≡ c' → Live K c m → Live K c' m
  Live-recount e v = Live-weaken (λ u kept. kept) e v

  pub free_frame-Live :
      {K K' : Place → Type 0} {c : ℕ} {m : Memory} (t : ℕ) (w : Place)
      → Live K c m
      → pl t ≡ some w
      → K w
      → ((u : Place) → K' u → K u)
      → ((u : Place) → K' u → u ≢ w)
      → Live K' (c + 1) (free_frame m t)
  unfolding free_frame freed
  free_frame-Live {K} {K'} {c} {m} t w v at kept weaker but =
      let a = h.aligned t w at in
      let fits : Fits 0 t = record {
        index = t / 2 ^ 12;
        aligned = omega (arith, a.0);
        below = omega (arith, a.0, a.1);
      } in
      let (b', done, valid', more, pages') = free_lem m.pmm t 0 v.valid (omega arith) fits in
      rw done (record {
        same = v.same;
        apart = λ x u e k' f.
            let other : (t == x) ≡ false = elim (Bool-cases (t == x)) [
              | inr o ↦ o
              | inl o ↦
                  let both : some u ≡ some w = sym e ∙ ap pl (sym ((==_iff t x).0 o)) ∙ at in
                  let eq : u ≡ w = cc in absurd (but u k' eq)
            ] in
            omega (
              arith,
              more f,
              v.apart t w at kept f,
              v.apart x u e (weaker u k') f,
              disjoint_frames f t x a.0 (h.aligned x u e).0 other,
            );
        valid = valid';
        once = λ f. omega (arith, more f, v.apart t w at kept f);
        low = λ f one. elim (Bool-cases (leb 1 (covered f m.pmm))) [
          | inl q ↦ v.low f (ground arith)
          | inr q ↦
              let here : inside f 0 t ≡ 1 =
                let q' : covered f m.pmm ≡ 0 = ground arith in
                (let le : inside f 0 t ≤ 1 = omega (arith, v.apart t w at kept f) in
                  omega (arith, more f)) in
              in_page f t a.0 a.1 here
        ];
        counted = omega (arith, pages', v.counted);
      })

  pub is_present-same :
      {K : Place → Type 0} {c : ℕ} {m : Memory}
      → Live K c m
      → (t i : ℕ) → m.entries t i ≡ m0.entries t i
  is_present-same v t i = ap (λ (e : ℕ → ℕ → ℕ). e t i) v.same
