-- ===== src/Keyboard/Scancode.antt =====
-- What a scancode does: which byte a key types, and which state a key changes.
use sar_osx.Base.{
  ℕ, ◌-◌, ◌≤◌, ◌<◌, ◌≡◌, ◌≢◌, refl, Bool, true, false, ◌&&◌, xor, arith, ltb, leb, ◌==◌, bit_and,
  if◌then◌else◌, get_or, passes, passes-lt,
}
use sar_osx.Keyboard.{Modifiers, Keyboard, scancode_map, shifted_char, typed, process_scancode}

abbrev mods : Bool → Bool → Bool → Bool → Modifiers
mods s c a l = record { shift = s; ctrl = c; alt = a; caps = l }

abbrev in_range : ℕ → Bool
in_range t = leb 1 t && ltb t 128

abbrev row : Bool → Bool → Bool → Bool → ℕ → Bool
row s c a l sc =
    let e = get_or scancode_map sc 0 in (if e == 0 then true else in_range (typed (mods s c a l) e))

table : (s c a l : Bool) → passes (row s c a l) 128 ≡ true
unfolding passes typed shifted_char mathlib.Core.Bool.xor
table true true true true = refl
table true true true false = refl
table true true false true = refl
table true true false false = refl
table true false true true = refl
table true false true false = refl
table true false false true = refl
table true false false false = refl
table false true true true = refl
table false true true false = refl
table false true false true = refl
table false true false false = refl
table false false true true = refl
table false false true false = refl
table false false false true = refl
table false false false false = refl

row_lem :
    (m : Modifiers) (e : ℕ)
    → e ≢ 0
    → (if e == 0 then true else in_range (typed m e)) ≡ true
    → (0 < typed m e) × (typed m e < 128)
row_lem m e ne h = ground arith

-- Every key of the map that types something types an ASCII byte other than NUL.
pub typed_range :
    (m : Modifiers) (sc : ℕ)
    → sc < 128
    → get_or scancode_map sc 0 ≢ 0
    → (0 < typed m (get_or scancode_map sc 0)) × (typed m (get_or scancode_map sc 0) < 128)
typed_range m sc h ne =
    row_lem m (get_or scancode_map sc 0) ne
      (passes-lt (row m.shift m.ctrl m.alt m.caps) 128 (table m.shift m.ctrl m.alt m.caps) sc h)

-- Under any modifiers, the key of a small letter types its control code with Ctrl; without it, the
-- capital when exactly one of Shift and Caps Lock is on, and otherwise the letter.
pub typed-letter :
    (m : Modifiers) (c : ℕ)
    → 97 ≤ c
    → c ≤ 122
    → typed m c ≡ (if m.ctrl then c - 96 else if xor m.shift m.caps then c - 32 else c)
unfolding typed
typed-letter m c lo hi = ground arith

abbrev pub Released : ℕ → Type 0
Released sc = (bit_and sc 0x80 == 0) ≡ false

-- Letting go of a key types nothing and wakes nobody.
pub process_scancode-Released :
    (k : Keyboard) (sc : ℕ)
    → Released sc
    → ((process_scancode k sc).kb_buf ≡ k.kb_buf)
      × ((process_scancode k sc).wakes ≡ k.wakes)
      × ((process_scancode k sc).mods.caps ≡ k.mods.caps)
unfolding process_scancode
process_scancode-Released k sc r = ground arith
