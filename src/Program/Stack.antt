-- ===== src/Program/Stack.antt =====
-- src/proc/stack.rs: the first stack of a program, `build_user_stack`. The area of the stack, which
-- `map_user_stack` adds, is with the areas; here are its pages and what is written to them.
pub mod Pointer
use sar_osx.Base.{
  [], ℕ, zero, suc, ◌+◌, ◌-◌, ◌*◌, ◌/◌, ◌%◌, ◌^◌, min, bit_and, bit_or, Bool, true, false, Option,
  none, some, List, ◌∷◌, ◌++◌, length, take, drop,
}
use sar_osx.Pmm.{page_size, not64}
use sar_osx.Paging.{
  Memory, pte_present, pte_writable, pte_user, pte_no_exec, alloc_zeroed_frame, or_fail, map_page,
  translate,
}
use sar_osx.Program.{write_bytes}

-- What the loader says of a program, src/proc/elf.rs.
pub record LoadedElf : Type 0 where
  pub entry : ℕ
  pub brk : ℕ
  pub phdr_vaddr : ℕ
  pub phnum : ℕ
  pub phent : ℕ
  pub load_base : ℕ
  pub interp_path : Option (List ℕ)

abbrev pub user_stack_top : ℕ
user_stack_top = 0x7FFF_FFFF_0000

-- `-` on `u64`, as a release build does it.
abbrev pub sub64 : ℕ → ℕ → ℕ
sub64 a b = (a + (2 ^ 64 - b)) % 2 ^ 64

abbrev pub stack_pte_flags : ℕ
stack_pte_flags = bit_or (bit_or (bit_or pte_present pte_writable) pte_user) pte_no_exec

-- The loop of `map_user_stack`, with `n` pages left; the result of `map` is not looked at.
unfoldable pub commit_pages : (n : ℕ) → Memory → (root vaddr : ℕ) → Bool × Memory
commit_pages zero m root vaddr = (true, m)
commit_pages (suc n) m root vaddr = or_fail (alloc_zeroed_frame m) λ phys m'.
    commit_pages n (map_page m' root vaddr phys stack_pte_flags).1 root (vaddr + page_size)

-- 64 KiB are committed.
unfoldable pub map_user_stack : Memory → (root : ℕ) → Bool × Memory
map_user_stack m root = commit_pages 16 m root (user_stack_top - 64 * 1024)

-- The loop of `write_at`, each round of which writes a byte or more; `n` bounds the rounds.
unfoldable pub write_chunks : (n : ℕ) → Memory → (root virt : ℕ) → List ℕ → Bool × Memory
write_chunks n m root virt [] = (true, m)
write_chunks zero m root virt (b ∷ bytes) = (true, m)
write_chunks (suc n) m root virt (b ∷ bytes) =
    let to_copy = min (page_size - virt % page_size) (length (b ∷ bytes)) in
    or_fail (translate m root virt, m)
      λ phys m'.
        write_chunks n (write_bytes m' phys (take to_copy (b ∷ bytes))) root (virt + to_copy)
          (drop to_copy (b ∷ bytes))

unfoldable pub write_at : Memory → (root virt : ℕ) → List ℕ → Bool × Memory
write_at m root virt bytes = write_chunks (length bytes) m root virt bytes

-- `?` after a write, and after a part of the function that gives a value.
unfoldable pub on_write :
    {A : Type 0} → Bool × Memory → (Memory → Option A × Memory) → Option A × Memory
on_write (false, m) k = (none, m)
on_write (true, m) k = k m

unfoldable pub on_some :
    {A B : Type 0} → Option A × Memory → (A → Memory → Option B × Memory) → Option B × Memory
on_some (none, m) k = (none, m)
on_some (some a, m) k = k a m

-- The loops over `argv` and `envp`, the last string first; the cursor and the pointers in order.
unfoldable pub push_strings :
    List (List ℕ) → Memory → (root cursor : ℕ) → Option (ℕ × List ℕ) × Memory
push_strings [] m root cursor = (some (cursor, []), m)
push_strings (arg ∷ rest) m root cursor = on_some (push_strings rest m root cursor) λ (c, ptrs) m'.
    let c' = sub64 c (length arg + 1) in
    on_write (write_at m' root c' arg) λ m''. (some (c', c' ∷ ptrs), m'')

-- `to_le_bytes` of a word of `n` bytes.
unfoldable pub le_bytes : (n val : ℕ) → List ℕ
le_bytes zero val = []
le_bytes (suc n) val = val % 256 ∷ le_bytes n (val / 256)

-- The words of the list are pushed from its end, so that they stand in memory in order.
unfoldable pub push_words : List ℕ → Memory → (root rsp : ℕ) → Option ℕ × Memory
push_words [] m root rsp = (some rsp, m)
push_words (val ∷ rest) m root rsp = on_some (push_words rest m root rsp) λ r m'.
    let r' = sub64 r 8 in on_write (write_at m' root r' (le_bytes 8 val)) λ m''. (some r', m'')

abbrev pub random_bytes : List ℕ
random_bytes =
    0xDE ∷ 0xAD ∷ 0xBE ∷ 0xEF ∷ 0xCA ∷ 0xFE ∷ 0xBA ∷ 0xBE ∷ 0x13 ∷ 0x37 ∷ 0x42 ∷ 0x00 ∷ 0x11 ∷ 0x22
    ∷ 0x33 ∷ 0x44 ∷ []

-- The auxiliary vector, in the order of memory: a tag and its value each.
abbrev pub auxv : LoadedElf → (random execfn : ℕ) → List ℕ
auxv loaded random execfn =
    11 ∷ 0 ∷ 12 ∷ 0 ∷ 13 ∷ 0 ∷ 14 ∷ 0 ∷ 3 ∷ loaded.phdr_vaddr ∷ 4 ∷ loaded.phent ∷ 5 ∷ loaded.phnum
    ∷ 6 ∷ page_size ∷ 7 ∷ loaded.load_base ∷ 8 ∷ 0 ∷ 9 ∷ loaded.entry ∷ 25 ∷ random ∷ 31 ∷ execfn
    ∷ 0 ∷ 0 ∷ []

-- What stands from the stack pointer on.
abbrev pub stack_words : LoadedElf → (random execfn argc : ℕ) → (argv envp : List ℕ) → List ℕ
stack_words loaded random execfn argc argv envp =
    argc ∷ (argv ++ (0 ∷ (envp ++ (0 ∷ auxv loaded random execfn))))

unfoldable pub build_user_stack :
    Memory
    → (root : ℕ) → LoadedElf
    → (argv envp : List (List ℕ)) → (execfn : List ℕ) → Option ℕ × Memory
build_user_stack m root loaded argv envp execfn = on_write (map_user_stack m root) λ m1.
    let random = sub64 user_stack_top 16 in
    on_write (write_at m1 root random random_bytes) λ m2.
      let name = sub64 random (length execfn + 1) in
      on_write (write_at m2 root name execfn) λ m3.
        on_some (push_strings argv m3 root name) λ (c, argv_ptrs) m4.
          on_some (push_strings envp m4 root c) λ (c', envp_ptrs) m5.
            push_words (stack_words loaded random name (length argv) argv_ptrs envp_ptrs) m5 root
              (bit_and c' (not64 15))
