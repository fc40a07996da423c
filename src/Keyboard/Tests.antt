-- ===== src/Keyboard/Tests.antt =====
-- Runs of the keyboard code of src/drivers/keyboard.rs.
use sar_osx.Base.{ℕ, ◌≡◌, refl, true, false, Option, some, List, [], ◌∷◌, arith, set}
use sar_osx.Keyboard.{
  KbBuffer, Modifiers, Keyboard, new, push, pop, is_empty, read_char, shifted_char, typed,
  process_scancode, scancode_map,
}
use sar_osx.Keyboard.Ring.{IsValid, items, items-push, items-pop}

-- Two bytes that lie round the end of the array.
abbrev wrapped : KbBuffer
wrapped = record { buf = set (set new.buf 255 7) 0 8; head = 1; tail = 255 }

wrapped-IsValid : IsValid wrapped
wrapped-IsValid = record { size = refl; head = omega arith; tail = omega arith }

items-push_example : items (push wrapped 9) ≡ 7 ∷ 8 ∷ 9 ∷ []
items-push_example = items-push wrapped 9 wrapped-IsValid

items-pop_example :
    ◌≡◌ {A = Option ℕ × List ℕ} ((pop wrapped).0, items (pop wrapped).1) (some 7, 8 ∷ [])
items-pop_example = items-pop wrapped wrapped-IsValid

nothing_waits : is_empty new ≡ true
unfolding is_empty
nothing_waits = refl

abbrev shift_held : Modifiers
shift_held = record { shift = true; ctrl = false; alt = false; caps = false }

abbrev ctrl_held : Modifiers
ctrl_held = record { shift = false; ctrl = true; alt = false; caps = false }

abbrev idle : Keyboard
idle = record { mods = shift_held; kb_buf = new; wakes = 0 }

-- Shift down, the key of `1`, shift up.
types_bang :
    items (process_scancode (process_scancode (process_scancode idle 0x2a) 2) 0xb6).kb_buf
    ≡ b'!' ∷ []
unfolding process_scancode push shifted_char sar_osx.Keyboard.push_char
types_bang = refl

reads_bang : (read_char (process_scancode idle 2)).0 ≡ some b'!'
unfolding process_scancode push shifted_char read_char pop sar_osx.Keyboard.push_char
reads_bang = refl
