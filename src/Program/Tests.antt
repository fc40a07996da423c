-- ===== src/Program/Tests.antt =====
-- Runs of src/proc/exec.rs, src/proc/stack.rs and src/proc/elf.rs: a string of a process, a first
-- stack, and the headers of a program.
use sar_osx.Base.{
  [], ℕ, ◌+◌, ◌*◌, ◌/◌, ◌%◌, ◌<◌, ◌≡◌, refl, ◌↔◌, ◌&&◌, none, some, List, ◌∷◌, ◌++◌, arith, ◌==◌,
  if◌then◌else◌, length,
}
use sar_osx.Pmm.{
  BuddyAllocator, alloc, alloc_from, take_block, pop, pop_blocks, find_order, split, push,
}
use sar_osx.Paging.{
  Memory, map_page, translate, translate_page, get_table, get_or_alloc_table, link,
  alloc_zeroed_frame, zeroed, is_present,
}
use sar_osx.Program.{memory_byte, user_byte, found_byte, write_byte, write_bytes}
use sar_osx.Program.Strings.{IsString, ends, next, read_user_string, read_user_string_lem}
use sar_osx.Program.Stack.{
  LoadedElf, build_user_stack, commit_pages, map_user_stack, write_chunks, write_at, on_write,
  on_some, push_strings, push_words, le_bytes,
}
use sar_osx.Base.{All, true, ◌≤◌, replicate}
use sar_osx.Base.Bytes.{byte_at}
use sar_osx.Base.Result.{ok}
use sar_osx.Program.Elf.{
  number_at, ehdr_at, check_ehdr, check_header, is_valid_elf, is_loadable, table_end, Elf64Phdr,
  scan_start, scan_load, scan_phdr, scan, Scan,
}
use sar_osx.Program.Elf.Checked.{check_header_lem}
use sar_osx.Program.Elf.Segments.{Widens, Within, scan-Within}
use sar_osx.Program.Stack.Pointer.{build_user_stack_lem, strings_end, string_bytes}

abbrev frames : BuddyAllocator
frames = record {
  lists = λ o.
      if o == 5
      then record { blocks = 0x40_0000 ∷ []; count = 1 }
      else record { blocks = []; count = 0 };
  free_pages = 32;
  total_pages = 32;
}

abbrev root : ℕ
root = 0x2000

-- One page at 0x1000 of the process, with the bytes `h`, `i` and a zero at its end.
abbrev greeting : Memory
greeting = record {
  entries = λ t i.
      if t == 0x2000 && i == 0
      then 0x3007
      else if t == 0x3000 && i == 0
      then 0x4007
      else if t == 0x4000 && i == 0
      then 0x5007
      else if t == 0x5000 && i == 1
      then 0x8007
      else if t == 0x8000 && i == 0
      then 0x6968
      else 0;
  pmm = frames;
}

greeting-IsString : IsString greeting root 0x1000 (0x68 ∷ 0x69 ∷ [])
unfolding user_byte found_byte memory_byte translate translate_page get_table is_present
greeting-IsString =
    next 0x1000 0x68 (0x69 ∷ []) refl (λ e. absurd (omega (arith, e)))
      (next 0x1001 0x69 [] refl (λ e. absurd (omega (arith, e))) (ends 0x1002 refl))

read_user_string_lem_example :
    (read_user_string greeting root 0x1000 16 ≡ some (0x68 ∷ 0x69 ∷ 0 ∷ [])) ↔ (
      (s : List ℕ) × IsString greeting root 0x1000 s
      × (length s < 16)
      × ((0x68 ∷ 0x69 ∷ 0 ∷ []) ≡ s ++ 0 ∷ []))
read_user_string_lem_example =
    read_user_string_lem greeting root 0x1000 16 (0x68 ∷ 0x69 ∷ 0 ∷ [])
      (λ e. absurd (omega (arith, e)))

read_greeting : read_user_string greeting root 0x1000 16 ≡ some (0x68 ∷ 0x69 ∷ 0 ∷ [])
read_greeting =
    (read_user_string_lem greeting root 0x1000 16 (0x68 ∷ 0x69 ∷ 0 ∷ [])
        (λ e. absurd (omega (arith, e)))).1
      (0x68 ∷ 0x69 ∷ [], greeting-IsString, omega arith, refl)

abbrev blank : Memory
blank = record { entries = λ t i. 0; pmm = frames }

abbrev program : LoadedElf
program = record {
  entry = 0x40_1000;
  brk = 0x40_5000;
  phdr_vaddr = 0x40_0040;
  phnum = 4;
  phent = 56;
  load_base = 0x40_0000;
  interp_path = none;
}

abbrev args : List (List ℕ)
args = (0x6C ∷ 0x73 ∷ []) ∷ (0x2F ∷ []) ∷ []

stack_done :
    (build_user_stack blank root program args [] (0x6C ∷ 0x73 ∷ 0 ∷ [])).0 ≡ some 0x7FFF_FFFE_FED8
unfolding build_user_stack map_user_stack commit_pages write_at write_chunks on_write on_some
    push_strings push_words le_bytes write_bytes write_byte memory_byte map_page translate
    translate_page get_table get_or_alloc_table is_present link alloc_zeroed_frame zeroed alloc
    alloc_from take_block pop pop_blocks find_order split push
stack_done = refl

build_user_stack_lem_example :
    (0x7FFF_FFFE_FED8 + 8 * 33 ≡ strings_end args [] (0x6C ∷ 0x73 ∷ 0 ∷ []) / 16 * 16)
    × (0x7FFF_FFFE_FED8 % 16 ≡ 8)
unfolding string_bytes
build_user_stack_lem_example =
    build_user_stack_lem blank root program args [] (0x6C ∷ 0x73 ∷ 0 ∷ []) 0x7FFF_FFFE_FED8
      (omega arith) stack_done

-- The header of a program at 0x40_1000 without program headers.
abbrev header : List ℕ
header =
    (0x7F ∷ 0x45 ∷ 0x4C ∷ 0x46 ∷ 2 ∷ 1 ∷ 1 ∷ 0 ∷ [])
    ++ replicate 8 0
    ++ (2 ∷ 0 ∷ 62 ∷ 0 ∷ 1 ∷ 0 ∷ 0 ∷ 0 ∷ 0 ∷ 16 ∷ 64 ∷ 0 ∷ 0 ∷ 0 ∷ 0 ∷ 0 ∷ 64 ∷ [])
    ++ replicate 31 0

check_header_lem_example : (check_header header ≡ ok (ehdr_at header)) ↔ (
    (ehdr_at header ≡ ehdr_at header)
    × (is_valid_elf header ≡ true)
    × (byte_at (ehdr_at header).e_ident 6 ≡ 1)
    × (is_loadable (ehdr_at header) ≡ true)
    × (table_end (ehdr_at header) ≤ length header))
check_header_lem_example = check_header_lem header (ehdr_at header)

header_passes : check_header header ≡ ok (ehdr_at header)
unfolding check_header check_ehdr ehdr_at number_at
header_passes = refl

abbrev text : Elf64Phdr
text = record {
  p_type = 1;
  p_flags = 5;
  p_offset = 0x1000;
  p_vaddr = 0x40_1000;
  p_paddr = 0x40_1000;
  p_filesz = 0x200;
  p_memsz = 0x200;
  p_align = 0x1000;
}

abbrev variables : Elf64Phdr
variables = record {
  p_type = 1;
  p_flags = 6;
  p_offset = 0x2000;
  p_vaddr = 0x40_3000;
  p_paddr = 0x40_3000;
  p_filesz = 0x10;
  p_memsz = 0x2000;
  p_align = 0x1000;
}

abbrev scanned : Scan
scanned = record {
  load_min = 0x40_1000;
  load_max = 0x40_5000;
  phdr_vaddr = 0;
  interp_path = none;
  stack_exec = scan_start.stack_exec;
}

both_scanned : scan [] 0 scan_start (text ∷ variables ∷ []) ≡ ok scanned
unfolding scan scan_phdr scan_load
both_scanned = refl

scan-Within_example : Widens scan_start scanned × All (Within scanned) (text ∷ variables ∷ [])
scan-Within_example = scan-Within [] 0 scan_start (text ∷ variables ∷ []) scanned both_scanned
