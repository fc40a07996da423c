-- ===== src/Program/Elf.antt =====
-- src/proc/elf.rs: the checks of `load_elf` on the header of a file, and its first pass over the program
-- headers. A file is the list of its bytes.
pub mod Checked
pub mod Segments
use sar_osx.Base.{
  ℕ, zero, suc, ◌+◌, ◌-◌, ◌*◌, ◌^◌, Bool, true, false, not, ◌&&◌, Option, none, some, List, [], ◌∷◌,
  length, take, drop, bit_and, ltb, ◌==◌, if◌then◌else◌, add64,
}
use sar_osx.Base.Bytes.{byte_at}
use sar_osx.Base.Result.{Result, ok, err, ◌>>=◌}

pub data ElfError : Type 0 where
  too_small : ElfError
  bad_magic : ElfError
  not_elf64 : ElfError
  not_little_endian : ElfError
  bad_version : ElfError
  not_executable : ElfError
  wrong_arch : ElfError
  bad_phdr : ElfError
  out_of_bounds : ElfError
  mapping_failed : ElfError
  alloc_failed : ElfError

-- A number of `n` bytes, the lowest first.
unfoldable pub number_at : (n : ℕ) → List ℕ → (offset : ℕ) → ℕ
number_at zero bytes offset = 0
number_at (suc n) bytes offset = byte_at bytes offset + 256 * number_at n bytes (offset + 1)

pub record Elf64Ehdr : Type 0 where
  pub e_ident : List ℕ
  pub e_type : ℕ
  pub e_machine : ℕ
  pub e_version : ℕ
  pub e_entry : ℕ
  pub e_phoff : ℕ
  pub e_shoff : ℕ
  pub e_flags : ℕ
  pub e_ehsize : ℕ
  pub e_phentsize : ℕ
  pub e_phnum : ℕ
  pub e_shentsize : ℕ
  pub e_shnum : ℕ
  pub e_shstrndx : ℕ

abbrev pub ehdr_size : ℕ
ehdr_size = 64

unfoldable pub ehdr_at : List ℕ → Elf64Ehdr
ehdr_at bytes = record {
  e_ident = take 16 bytes;
  e_type = number_at 2 bytes 16;
  e_machine = number_at 2 bytes 18;
  e_version = number_at 4 bytes 20;
  e_entry = number_at 8 bytes 24;
  e_phoff = number_at 8 bytes 32;
  e_shoff = number_at 8 bytes 40;
  e_flags = number_at 4 bytes 48;
  e_ehsize = number_at 2 bytes 52;
  e_phentsize = number_at 2 bytes 54;
  e_phnum = number_at 2 bytes 56;
  e_shentsize = number_at 2 bytes 58;
  e_shnum = number_at 2 bytes 60;
  e_shstrndx = number_at 2 bytes 62;
}

abbrev pub has_magic : Elf64Ehdr → Bool
has_magic h =
    (byte_at h.e_ident 0 == 0x7F)
    && ((byte_at h.e_ident 1 == 0x45)
        && ((byte_at h.e_ident 2 == 0x4C) && (byte_at h.e_ident 3 == 0x46)))

-- ET_EXEC and ET_DYN
abbrev pub is_loadable : Elf64Ehdr → Bool
is_loadable h = if h.e_type == 2 then true else h.e_type == 3

-- The end of the table of program headers, as the code adds it up.
abbrev pub table_end : Elf64Ehdr → ℕ
table_end h = add64 h.e_phoff (h.e_phnum * h.e_phentsize)

unfoldable pub check_ehdr : (size : ℕ) → Elf64Ehdr → Result ElfError Elf64Ehdr
check_ehdr size h =
    if ltb size ehdr_size
    then err too_small
    else if not (has_magic h)
    then err bad_magic
    else if not (byte_at h.e_ident 4 == 2)
    then err not_elf64
    else if not (byte_at h.e_ident 5 == 1)
    then err not_little_endian
    else if not (byte_at h.e_ident 6 == 1)
    then err bad_version
    else if not (is_loadable h)
    then err not_executable
    else if not (h.e_machine == 62)
    then err wrong_arch
    else if ltb size (table_end h)
    then err out_of_bounds
    else ok h

unfoldable pub check_header : List ℕ → Result ElfError Elf64Ehdr
check_header bytes = check_ehdr (length bytes) (ehdr_at bytes)

unfoldable pub valid_ehdr : (size : ℕ) → Elf64Ehdr → Bool
valid_ehdr size h =
    if ltb size ehdr_size
    then false
    else has_magic h
      && ((byte_at h.e_ident 4 == 2) && ((byte_at h.e_ident 5 == 1) && (h.e_machine == 62)))

unfoldable pub is_valid_elf : List ℕ → Bool
is_valid_elf bytes = valid_ehdr (length bytes) (ehdr_at bytes)

pub record Elf64Phdr : Type 0 where
  pub p_type : ℕ
  pub p_flags : ℕ
  pub p_offset : ℕ
  pub p_vaddr : ℕ
  pub p_paddr : ℕ
  pub p_filesz : ℕ
  pub p_memsz : ℕ
  pub p_align : ℕ

-- What the first pass gathers.
pub record Scan : Type 0 where
  pub load_min : ℕ
  pub load_max : ℕ
  pub phdr_vaddr : ℕ
  pub interp_path : Option (List ℕ)
  pub stack_exec : Bool

abbrev pub scan_start : Scan
scan_start = record {
  load_min = 2 ^ 64 - 1;
  load_max = 0;
  phdr_vaddr = 0;
  interp_path = none;
  stack_exec = false;
}

-- PT_LOAD
unfoldable pub scan_load : Scan → Elf64Phdr → Scan
scan_load s p =
    let end = add64 p.p_vaddr p.p_memsz in
    record s {
      load_min = if ltb p.p_vaddr s.load_min then p.p_vaddr else s.load_min;
      load_max = if ltb s.load_max end then end else s.load_max;
    }

-- PT_INTERP
unfoldable pub scan_interp : List ℕ → Scan → Elf64Phdr → Result ElfError Scan
scan_interp bytes s p =
    if ltb (length bytes) (add64 p.p_offset p.p_filesz)
    then err out_of_bounds
    else ok (record s { interp_path = some (take p.p_filesz (drop p.p_offset bytes)) })

unfoldable pub scan_phdr : List ℕ → (slide : ℕ) → Scan → Elf64Phdr → Result ElfError Scan
scan_phdr bytes slide s p =
    if p.p_type == 1
    then ok (scan_load s p)
    else if p.p_type == 6
    then ok (record s { phdr_vaddr = add64 p.p_vaddr slide })
    else if p.p_type == 3
    then scan_interp bytes s p
    else if p.p_type == 0x6474_E551
    then ok (record s { stack_exec = not (bit_and p.p_flags 1 == 0) })
    else ok s

unfoldable pub scan : List ℕ → (slide : ℕ) → Scan → List Elf64Phdr → Result ElfError Scan
scan bytes slide s [] = ok s
scan bytes slide s (p ∷ rest) = scan_phdr bytes slide s p >>= λ s'. scan bytes slide s' rest
