-- ===== src/Program/Elf/Segments.antt =====
-- What the first pass of `load_elf` of src/proc/elf.rs says of the segments.
use sar_osx.Base.{
  All, ℕ, ◌≤◌, bit_and, ◌≡◌, refl, ap, ◌∙◌, inl, inr, Bool, true, false, not, some, List, [], ◌∷◌,
  arith, ltb, add64, ◌==◌, if◌then◌else◌, ==_iff, Bool-cases, length, take, drop,
}
use sar_osx.Base.Result.{Result, ok, err, bind_done}
use sar_osx.Program.Elf.{
  ElfError, out_of_bounds, Elf64Phdr, Scan, scan_load, scan_interp, scan_phdr, scan,
}

-- A segment lies between the bounds that have been gathered.
abbrev pub Within : Scan → Elf64Phdr → Type 0
Within s p = p.p_type ≡ 1 → (s.load_min ≤ p.p_vaddr) × (add64 p.p_vaddr p.p_memsz ≤ s.load_max)

-- The bounds only widen.
pub record Widens (s s' : Scan) : Type 0 where
  pub lower : s'.load_min ≤ s.load_min
  pub upper : s.load_max ≤ s'.load_max

Within-Widens : (s s' : Scan) (p : Elf64Phdr) → Widens s s' → Within s p → Within s' p
Within-Widens s s' p w inside load = (
  (let l = w.lower in let i = (inside load).0 in omega (arith, l, i)),
  (let u = w.upper in let i = (inside load).1 in omega (arith, u, i)),
)

scan_load-Widens : (s : Scan) (p : Elf64Phdr) → Widens s (scan_load s p) × Within (scan_load s p) p
unfolding scan_load
scan_load-Widens s p =
    (record { lower = ground arith; upper = ground arith }, λ _. (ground arith, ground arith))

abbrev SameBounds : Scan → Scan → Type 0
SameBounds s s' = (s.load_min ≡ s'.load_min) × (s.load_max ≡ s'.load_max)

ended :
    (s s1 s' : Scan)
    → SameBounds s s1
    → (let r : Result ElfError Scan = ok s1 in r) ≡ ok s'
    → SameBounds s s'
ended s s1 s' same e =
    let e' : s1 ≡ s' = cc in (same.0 ∙ ap (λ t. t.load_min) e', same.1 ∙ ap (λ t. t.load_max) e')

-- The other types: `b` to `d` and `i` are the results of the tests.
other_ladder :
    (b c d i : Bool) (s s1 s2 s3 s' : Scan)
    → SameBounds s s1
    → SameBounds s s2
    → SameBounds s s3
    → (if b
        then ok s1
        else if c
        then (if i then err out_of_bounds else ok s2)
        else if d
        then ok s3
        else ok s)
      ≡ ok s'
    → SameBounds s s'
other_ladder true c d i s s1 s2 s3 s' x y z e = ended s s1 s' x e
other_ladder false true d true s s1 s2 s3 s' x y z e = cc
other_ladder false true d false s s1 s2 s3 s' x y z e = ended s s2 s' y e
other_ladder false false true i s s1 s2 s3 s' x y z e = ended s s3 s' z e
other_ladder false false false i s s1 s2 s3 s' x y z e = ended s s s' (refl, refl) e

-- A header of another type leaves the bounds.
scan_other :
    (bytes : List ℕ) (slide : ℕ) (s : Scan) (p : Elf64Phdr) (s' : Scan)
    → (p.p_type == 1) ≡ false
    → scan_phdr bytes slide s p ≡ ok s'
    → SameBounds s s'
unfolding scan_phdr scan_interp
scan_other bytes slide s p s' other e =
    let r = rw other at e in
    other_ladder (p.p_type == 6) (p.p_type == 3) (p.p_type == 0x6474_E551)
      (ltb (length bytes) (add64 p.p_offset p.p_filesz)) s
      (record s { phdr_vaddr = add64 p.p_vaddr slide })
      (record s { interp_path = some (take p.p_filesz (drop p.p_offset bytes)) })
      (record s { stack_exec = not (bit_and p.p_flags 1 == 0) }) s' (refl, refl) (refl, refl)
      (refl, refl) r

scan_phdr-Widens :
    (bytes : List ℕ) (slide : ℕ) (s : Scan) (p : Elf64Phdr) (s' : Scan)
    → scan_phdr bytes slide s p ≡ ok s'
    → Widens s s' × Within s' p
unfolding scan_phdr
scan_phdr-Widens bytes slide s p s' e = elim (Bool-cases (p.p_type == 1)) [
  | inl q ↦
      let same : scan_load s p ≡ s' = (let r : ok (scan_load s p) ≡ ok s' = rw q at e in cc) in
      rw (← same) (scan_load-Widens s p)
  | inr q ↦
      let (low, high) = scan_other bytes slide s p s' q e in
      (
        record { lower = omega (arith, low); upper = omega (arith, high) },
        λ load. absurd (let q' : (p.p_type == 1) ≡ true = (==_iff p.p_type 1).1 load in cc),
      )
]

-- A first pass that succeeds has only widened the bounds, and every segment to be loaded lies between
-- the bounds that it ends with, the end of the segment added up in 64 bits.
pub scan-Within :
    (bytes : List ℕ) (slide : ℕ) (s : Scan) (phdrs : List Elf64Phdr) (s' : Scan)
    → scan bytes slide s phdrs ≡ ok s'
    → Widens s s' × All (Within s') phdrs
unfolding scan
scan-Within bytes slide s [] s' e =
    let same : s ≡ s' = cc in rw (← same) (record { lower = omega arith; upper = omega arith }, tt)
scan-Within bytes slide s (p ∷ rest) s' e =
    let (s1, first, later) =
      bind_done (scan_phdr bytes slide s p) (λ t. scan bytes slide t rest) s' e in
    let (w, inside) = scan_phdr-Widens bytes slide s p s1 first in
    let (w', all) = scan-Within bytes slide s1 rest s' later in
    (
      record {
        lower = (let a = w.lower in let b = w'.lower in omega (arith, a, b));
        upper = (let a = w.upper in let b = w'.upper in omega (arith, a, b));
      },
      (Within-Widens s1 s' p w' inside, all),
    )
