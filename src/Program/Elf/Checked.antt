-- ===== src/Program/Elf/Checked.antt =====
-- Which headers `load_elf` of src/proc/elf.rs accepts.
use sar_osx.Base.{
  ℕ, ◌≤◌, ◌≡◌, refl, ap, ◌↔◌, Bool, true, false, not, ◌&&◌, List, arith, ltb, ◌==◌, if◌then◌else◌,
  ==_iff, length,
}
use sar_osx.Base.Bytes.{byte_at}
use sar_osx.Base.Result.{ok, err}
use sar_osx.Program.Elf.{
  too_small, bad_magic, not_elf64, not_little_endian, bad_version, not_executable, wrong_arch,
  out_of_bounds, Elf64Ehdr, has_magic, is_loadable, table_end, check_ehdr, check_header, valid_ehdr,
  is_valid_elf, ehdr_at,
}

ltb-false→le : (a b : ℕ) → ltb a b ≡ false → b ≤ a
ltb-false→le a b h = ground arith

le→ltb-false : (a b : ℕ) → b ≤ a → ltb a b ≡ false
le→ltb-false a b h = ground arith

-- The chain of the tests: `a` to `g` and `i` are their results.
ladder :
    (a b c d e f g i : Bool) (h h' : Elf64Ehdr)
    → ((if a
          then err too_small
          else if not b
          then err bad_magic
          else if not c
          then err not_elf64
          else if not d
          then err not_little_endian
          else if not e
          then err bad_version
          else if not f
          then err not_executable
          else if not g
          then err wrong_arch
          else if i
          then err out_of_bounds
          else ok h)
        ≡ ok h')
      ↔ ((h ≡ h')
          × ((if a then false else b && (c && (d && g))) ≡ true)
          × (e ≡ true)
          × (f ≡ true)
          × (i ≡ false))
ladder true b c d e f g i h h' = ((λ x. cc), λ x. cc)
ladder false false c d e f g i h h' = ((λ x. cc), λ x. cc)
ladder false true false d e f g i h h' = ((λ x. cc), λ x. cc)
ladder false true true false e f g i h h' = ((λ x. cc), λ x. cc)
ladder false true true true false f g i h h' = ((λ x. cc), λ x. cc)
ladder false true true true true false g i h h' = ((λ x. cc), λ x. cc)
ladder false true true true true true false i h h' = ((λ x. cc), λ x. cc)
ladder false true true true true true true true h h' = ((λ x. cc), λ x. cc)
ladder false true true true true true true false h h' =
    ((λ x. ((let same : h ≡ h' = cc in same), refl, refl, refl, refl)), λ x. ap ok x.0)

check_ehdr-valid_ehdr :
    (size : ℕ) (h h' : Elf64Ehdr)
    → (check_ehdr size h ≡ ok h') ↔ (
        (h ≡ h')
        × (valid_ehdr size h ≡ true)
        × (byte_at h.e_ident 6 ≡ 1)
        × (is_loadable h ≡ true)
        × (table_end h ≤ size))
unfolding check_ehdr valid_ehdr
check_ehdr-valid_ehdr size h h' =
    let l =
      ladder (ltb size 64) (has_magic h) (byte_at h.e_ident 4 == 2) (byte_at h.e_ident 5 == 1)
        (byte_at h.e_ident 6 == 1) (is_loadable h) (h.e_machine == 62) (ltb size (table_end h)) h
        h' in
    (
      (λ x.
          let (same, valid, version, kind, room) = l.0 x in
          (
            same,
            valid,
            (==_iff (byte_at h.e_ident 6) 1).0 version,
            kind,
            ltb-false→le size (table_end h) room,
          )),
      λ (same, valid, version, kind, room). l.1 (
        same,
        valid,
        (==_iff (byte_at h.e_ident 6) 1).1 version,
        kind,
        le→ltb-false size (table_end h) room,
      ),
    )

-- `load_elf` goes past its checks of the header exactly for the files that `is_valid_elf` accepts and
-- that besides are of version 1, of the type EXEC or DYN, and long enough for the table of program
-- headers, with its end added up in 64 bits.
pub check_header_lem :
    (bytes : List ℕ) (h : Elf64Ehdr)
    → (check_header bytes ≡ ok h) ↔ (
        (ehdr_at bytes ≡ h)
        × (is_valid_elf bytes ≡ true)
        × (byte_at (ehdr_at bytes).e_ident 6 ≡ 1)
        × (is_loadable (ehdr_at bytes) ≡ true)
        × (table_end (ehdr_at bytes) ≤ length bytes))
unfolding check_header is_valid_elf
check_header_lem bytes h = check_ehdr-valid_ehdr (length bytes) (ehdr_at bytes) h
