-- ===== src/Program.antt =====
-- What a program meets of the kernel's memory: the bytes of a frame as src/proc/exec.rs and
-- src/proc/stack.rs read and write them through `translate`. A word of a frame holds eight bytes, the
-- lowest first.
pub mod Strings
pub mod Stack
pub mod Elf
mod Tests
use sar_osx.Base.{[], ℕ, ◌+◌, ◌-◌, ◌*◌, ◌/◌, ◌%◌, ◌^◌, List, ◌∷◌, Option, none, some}
use sar_osx.Paging.{Memory, set_entry, translate}

-- The frame, the word in it and the value of the byte's place in the word, of a physical address.
abbrev pub frame_of : ℕ → ℕ
frame_of phys = phys / 4096 * 4096

abbrev pub word_of : ℕ → ℕ
word_of phys = phys % 4096 / 8

abbrev pub place_of : ℕ → ℕ
place_of phys = 2 ^ (8 * (phys % 8))

unfoldable pub memory_byte : Memory → (phys : ℕ) → ℕ
memory_byte m phys = m.entries (frame_of phys) (word_of phys) / place_of phys % 256

unfoldable pub write_byte : Memory → (phys byte : ℕ) → Memory
write_byte m phys byte =
    let word = m.entries (frame_of phys) (word_of phys) in
    set_entry m (frame_of phys) (word_of phys)
      (word - memory_byte m phys * place_of phys + byte * place_of phys)

-- `copy_nonoverlapping` to a physical address.
unfoldable pub write_bytes : Memory → (phys : ℕ) → List ℕ → Memory
write_bytes m phys [] = m
write_bytes m phys (b ∷ bytes) = write_bytes (write_byte m phys b) (phys + 1) bytes

unfoldable pub found_byte : Memory → Option ℕ → Option ℕ
found_byte m none = none
found_byte m (some phys) = some (memory_byte m phys)

-- The byte at an address of a process.
unfoldable pub user_byte : Memory → (root addr : ℕ) → Option ℕ
unfolding found_byte
user_byte m root addr = found_byte m (translate m root addr)
