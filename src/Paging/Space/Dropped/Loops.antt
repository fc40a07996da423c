-- ===== src/Paging/Space/Dropped/Loops.antt =====
-- The loops of `free_user_page_tables` of src/mm/vmm.rs, from the last tables to the root.
use sar_osx.Base.{
  ℕ, zero, suc, ◌+◌, ◌*◌, bit_and, ◌≡◌, refl, ap, ◌∙◌, ◌≢◌, inl, inr, false, Option, some, arith,
  leb, Bool-cases,
}
use sar_osx.Paging.{pte_addr_mask, Memory, is_set, is_present, free_frame}
use sar_osx.Paging.Space.{
  free_last_tables, free_directories, free_pointer_tables, free_user_page_tables,
}
use sar_osx.Paging.Tree.{Place, root_place, IsTree}
use sar_osx.Paging.Space.Dropped.{
  Keep, Keep-weaken, Keep-not, Live, Live-weaken, Live-recount, free_frame-Live, is_present-same,
  count_last_tables, count_directories, count_pointer_tables, count_tables,
}

module _ (k : ℕ) (pl : ℕ → Option Place) (m0 : Memory) (h : IsTree k pl m0) (root : ℕ) where
  last_tables_Live :
      (n kk : ℕ) (m : Memory) (a3 a2 a1 p c pd : ℕ)
      → kk + n ≡ 512
      → pl pd ≡ some (record { owner = root; height = 1; path = p })
      → Live k pl m0 h (Keep root a3 a2 a1 (p * 512 + kk)) c m
      → Live k pl m0 h
          (Keep root a3 a2 a1 (p * 512 + 512))
          (c + count_last_tables n m0 pd kk)
          (free_last_tables n m pd kk)
  unfolding free_last_tables count_last_tables is_present
  last_tables_Live zero kk m a3 a2 a1 p c pd e at v =
      Live-weaken k pl m0 h
        (Keep-weaken root a3 a2 a1 (p * 512 + kk) a3 a2 a1 (p * 512 + 512) (omega arith)
          (omega arith) (omega arith) (omega arith))
        (omega arith) v
  last_tables_Live (suc n) kk m a3 a2 a1 p c pd e at v =
      let s = is_present-same k pl m0 h v pd kk in
      let weaker =
        Keep-weaken root a3 a2 a1 (p * 512 + kk) a3 a2 a1 (p * 512 + (kk + 1)) (omega arith)
          (omega arith) (omega arith) (omega arith) in
      let x = m0.entries pd kk in
      elim (Bool-cases (is_set x 1)) [
        | inr q ↦
            rw (s, q)
              (Live-recount k pl m0 h (omega arith) (
                last_tables_Live n (kk + 1) m a3 a2 a1 p c pd (omega arith) at
                  (Live-weaken k pl m0 h weaker refl v)))
        | inl q ↦ elim (Bool-cases (is_set x 128)) [
          | inl l ↦
              rw (s, q, l)
                (Live-recount k pl m0 h (omega arith) (
                  last_tables_Live n (kk + 1) m a3 a2 a1 p c pd (omega arith) at
                    (Live-weaken k pl m0 h weaker refl v)))
          | inr l ↦
              let w : Place = record { owner = root; height = 0; path = p * 512 + kk } in
              let placed =
                h.links pd (record { owner = root; height = 1; path = p }) 0 kk at refl
                  (omega arith) q l in
              let next =
                free_frame-Live k pl m0 h (bit_and x pte_addr_mask) w v placed (inr (omega arith))
                  weaker (Keep-not root a3 a2 a1 (p * 512 + (kk + 1)) w refl (omega arith)) in
              rw (s, q, l)
                (Live-recount k pl m0 h (omega arith) (
                  last_tables_Live n (kk + 1) (free_frame m (bit_and x pte_addr_mask)) a3 a2 a1 p
                    (c + 1) pd (omega arith) at next))
        ]
      ]

  directories_Live :
      (n j : ℕ) (m : Memory) (a3 a2 p c pdpt : ℕ)
      → j + n ≡ 512
      → pl pdpt ≡ some (record { owner = root; height = 2; path = p })
      → Live k pl m0 h (Keep root a3 a2 (p * 512 + j) ((p * 512 + j) * 512)) c m
      → Live k pl m0 h
          (Keep root a3 a2 (p * 512 + 512) ((p * 512 + 512) * 512))
          (c + count_directories n m0 pdpt j)
          (free_directories n m pdpt j)
  unfolding free_directories count_directories is_present
  directories_Live zero j m a3 a2 p c pdpt e at v =
      Live-weaken k pl m0 h
        (Keep-weaken root a3 a2 (p * 512 + j) ((p * 512 + j) * 512) a3 a2 (p * 512 + 512)
          ((p * 512 + 512) * 512) (omega arith) (omega arith) (omega arith) (omega arith))
        (omega arith) v
  directories_Live (suc n) j m a3 a2 p c pdpt e at v =
      let s = is_present-same k pl m0 h v pdpt j in
      let x = m0.entries pdpt j in
      let pd = bit_and x pte_addr_mask in
      let b = p * 512 + j in
      let b' = p * 512 + (j + 1) in
      elim (Bool-cases (is_set x 1)) [
        | inr q ↦
            let weaker =
              Keep-weaken root a3 a2 b (b * 512) a3 a2 b' (b' * 512) (omega arith) (omega arith)
                (omega arith) (omega arith) in
            rw (s, q)
              (Live-recount k pl m0 h (omega arith) (
                directories_Live n (j + 1) m a3 a2 p c pdpt (omega arith) at
                  (Live-weaken k pl m0 h weaker refl v)))
        | inl q ↦
            let w : Place = record { owner = root; height = 1; path = b } in
            let placed =
              h.links pdpt (record { owner = root; height = 2; path = p }) 1 j at refl (omega arith)
                q refl in
            let start : Live k pl m0 h (Keep root a3 a2 b (b * 512 + 0)) c m =
              Live-weaken k pl m0 h
                (Keep-weaken root a3 a2 b (b * 512) a3 a2 b (b * 512 + 0) (omega arith)
                  (omega arith) (omega arith) (omega arith))
                refl v in
            let inner = last_tables_Live 512 0 m a3 a2 b b c pd (omega arith) placed start in
            let m' = free_last_tables 512 m pd 0 in
            let weaker =
              Keep-weaken root a3 a2 b (b * 512 + 512) a3 a2 b' (b' * 512) (omega arith)
                (omega arith) (omega arith) (omega arith) in
            let next =
              free_frame-Live k pl m0 h pd w inner placed (inr (omega arith)) weaker
                (Keep-not root a3 a2 b' (b' * 512) w refl (omega arith)) in
            rw (s, q)
              (Live-recount k pl m0 h (omega arith) (
                directories_Live n (j + 1) (free_frame m' pd) a3 a2 p
                  (c + count_last_tables 512 m0 pd 0 + 1) pdpt (omega arith) at next))
      ]

  pointer_tables_Live :
      (n i : ℕ) (m : Memory) (a3 c : ℕ)
      → i + n ≡ 256
      → pl root ≡ some (root_place root)
      → Live k pl m0 h (Keep root a3 i (i * 512) (i * 512 * 512)) c m
      → Live k pl m0 h
          (Keep root a3 256 (256 * 512) (256 * 512 * 512))
          (c + count_pointer_tables n m0 root i)
          (free_pointer_tables n m root i)
  unfolding free_pointer_tables count_pointer_tables is_present
  pointer_tables_Live zero i m a3 c e at v =
      Live-weaken k pl m0 h
        (Keep-weaken root a3 i (i * 512) (i * 512 * 512) a3 256 (256 * 512) (256 * 512 * 512)
          (omega arith) (omega arith) (omega arith) (omega arith))
        (omega arith) v
  pointer_tables_Live (suc n) i m a3 c e at v =
      let s = is_present-same k pl m0 h v root i in
      let x = m0.entries root i in
      let pdpt = bit_and x pte_addr_mask in
      let i' = i + 1 in
      elim (Bool-cases (is_set x 1)) [
        | inr q ↦
            let weaker =
              Keep-weaken root a3 i (i * 512) (i * 512 * 512) a3 i' (i' * 512) (i' * 512 * 512)
                (omega arith) (omega arith) (omega arith) (omega arith) in
            rw (s, q)
              (Live-recount k pl m0 h (omega arith) (
                pointer_tables_Live n i' m a3 c (omega arith) at
                  (Live-weaken k pl m0 h weaker refl v)))
        | inl q ↦
            let w : Place = record { owner = root; height = 2; path = i } in
            let lower : leb 256 i ≡ false = ground arith in
            let placed : pl pdpt ≡ some w =
              h.links root (root_place root) 2 i at refl (omega arith) q refl
              ∙ rw lower (
                  ap (λ (y : ℕ). some (record { owner = root; height = 2; path = y }))
                    (let z : 0 + i ≡ i = omega arith in z)) in
            let start : Live k pl m0 h (Keep root a3 i (i * 512 + 0) ((i * 512 + 0) * 512)) c m =
              Live-weaken k pl m0 h
                (Keep-weaken root a3 i (i * 512) (i * 512 * 512) a3 i (i * 512 + 0)
                  ((i * 512 + 0) * 512) (omega arith) (omega arith) (omega arith) (omega arith))
                refl v in
            let inner = directories_Live 512 0 m a3 i i c pdpt (omega arith) placed start in
            let m' = free_directories 512 m pdpt 0 in
            let weaker =
              Keep-weaken root a3 i (i * 512 + 512) ((i * 512 + 512) * 512) a3 i' (i' * 512)
                (i' * 512 * 512) (omega arith) (omega arith) (omega arith) (omega arith) in
            let next =
              free_frame-Live k pl m0 h pdpt w inner placed (inr (omega arith)) weaker
                (Keep-not root a3 i' (i' * 512) (i' * 512 * 512) w refl (omega arith)) in
            rw (s, q)
              (Live-recount k pl m0 h (omega arith) (
                pointer_tables_Live n i' (free_frame m' pdpt) a3
                  (c + count_directories 512 m0 pdpt 0 + 1) (omega arith) at next))
      ]

  start_Live : Live k pl m0 h (Keep root 0 0 0 0) 0 m0
  start_Live = record {
    same = refl;
    apart = λ x u at kept. h.apart x u at;
    valid = h.valid;
    once = h.once;
    low = h.low;
    counted = omega arith;
  }

  pub dropped_Live :
      pl root ≡ some (root_place root)
      → Live k pl m0 h (λ u. u.owner ≢ root) (count_tables m0 root) (free_user_page_tables m0 root)
  unfolding free_user_page_tables count_tables
  dropped_Live at =
      let inner = pointer_tables_Live 256 0 m0 0 0 (omega arith) at start_Live in
      Live-recount k pl m0 h (omega arith) (
        free_frame-Live k pl m0 h root (root_place root) inner at (inr (omega arith)) (λ u o. inl o)
          (λ u o eq. o (ap (λ (x : Place). x.owner) eq)))
