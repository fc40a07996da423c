-- ===== src/Keyboard.antt =====
-- src/drivers/keyboard.rs: the ring buffer of typed bytes and the decoding of PS/2 scancodes.
pub mod Ring
pub mod Scancode
mod Tests
use sar_osx.Base.{
  ℕ, zero, suc, ◌+◌, ◌-◌, ◌%◌, ◌<◌, ◌≡◌, Bool, true, false, not, ◌&&◌, xor, Option, none, some,
  List, [], ◌∷◌, bit_and, ltb, leb, ◌==◌, if◌then◌else◌, length, get_or, set, replicate,
}

abbrev pub kb_buf_size : ℕ
kb_buf_size = 256

-- One slot stays free: `head` is where the next byte goes, `tail` where the oldest byte is.
pub record KbBuffer : Type 0 where
  pub buf : List ℕ
  pub head : ℕ
  pub tail : ℕ

abbrev pub new : KbBuffer
new = record { buf = replicate kb_buf_size 0; head = 0; tail = 0 }

pub push : KbBuffer → ℕ → KbBuffer
push b c =
    let next = (b.head + 1) % kb_buf_size in
    if next == b.tail then b else record b { buf = set b.buf b.head c; head = next }

pub pop : KbBuffer → Option ℕ × KbBuffer
pop b =
    if b.head == b.tail
    then (none, b)
    else (some (get_or b.buf b.tail 0), record b { tail = (b.tail + 1) % kb_buf_size })

pub is_empty : KbBuffer → Bool
is_empty b = b.head == b.tail

pub record Modifiers : Type 0 where
  pub shift : Bool
  pub ctrl : Bool
  pub alt : Bool
  pub caps : Bool

abbrev pub scancode_map : List ℕ
scancode_map =
    0 ∷ 27 ∷ 49 ∷ 50 ∷ 51 ∷ 52 ∷ 53 ∷ 54 ∷ 55 ∷ 56 ∷ 57 ∷ 48 ∷ 45 ∷ 61 ∷ 8 ∷ 9 ∷ 113 ∷ 119 ∷ 101
    ∷ 114 ∷ 116 ∷ 121 ∷ 117 ∷ 105 ∷ 111 ∷ 112 ∷ 91 ∷ 93 ∷ 10 ∷ 0 ∷ 97 ∷ 115 ∷ 100 ∷ 102 ∷ 103 ∷ 104
    ∷ 106 ∷ 107 ∷ 108 ∷ 59 ∷ 39 ∷ 96 ∷ 0 ∷ 92 ∷ 122 ∷ 120 ∷ 99 ∷ 118 ∷ 98 ∷ 110 ∷ 109 ∷ 44 ∷ 46 ∷ 47
    ∷ 0 ∷ 42 ∷ 0 ∷ 32 ∷ 0 ∷ 0 ∷ 0 ∷ 0 ∷ 0 ∷ 0 ∷ 0 ∷ 0 ∷ 0 ∷ 0 ∷ 0 ∷ 0 ∷ 0 ∷ 0 ∷ 0 ∷ 0 ∷ 0 ∷ 0 ∷ 0
    ∷ 0 ∷ 0 ∷ 0 ∷ 0 ∷ 0 ∷ 0 ∷ 0 ∷ 0 ∷ 0 ∷ 0 ∷ 0 ∷ 0 ∷ 0 ∷ 0 ∷ 0 ∷ 0 ∷ 0 ∷ 0 ∷ 0 ∷ 0 ∷ 0 ∷ 0 ∷ 0 ∷ 0
    ∷ 0 ∷ 0 ∷ 0 ∷ 0 ∷ 0 ∷ 0 ∷ 0 ∷ 0 ∷ 0 ∷ 0 ∷ 0 ∷ 0 ∷ 0 ∷ 0 ∷ 0 ∷ 0 ∷ 0 ∷ 0 ∷ 0 ∷ 0 ∷ 0 ∷ []

-- The arms of the match in `shifted_char`: a key and what it types with shift.
abbrev pub shift_table : List (ℕ × ℕ)
shift_table =
    (49, 33)
    ∷ (50, 64)
    ∷ (51, 35)
    ∷ (52, 36)
    ∷ (53, 37)
    ∷ (54, 94)
    ∷ (55, 38)
    ∷ (56, 42)
    ∷ (57, 40)
    ∷ (48, 41)
    ∷ (45, 95)
    ∷ (61, 43)
    ∷ (91, 123)
    ∷ (93, 125)
    ∷ (92, 124)
    ∷ (59, 58)
    ∷ (39, 34)
    ∷ (96, 126)
    ∷ (44, 60)
    ∷ (46, 62)
    ∷ (47, 63)
    ∷ []

lookup_byte : List (ℕ × ℕ) → ℕ → ℕ
lookup_byte [] c = c
lookup_byte ((k, v) ∷ rest) c = if c == k then v else lookup_byte rest c

pub shifted_char : ℕ → ℕ
unfolding lookup_byte
shifted_char c = lookup_byte shift_table c

abbrev pub is_ascii_alphabetic : ℕ → Bool
is_ascii_alphabetic c =
    if leb 65 c then (if leb c 90 then true else (leb 97 c && leb c 122)) else false

abbrev pub to_ascii_uppercase : ℕ → ℕ
to_ascii_uppercase c = if leb 97 c && leb c 122 then c - 32 else c

-- The statics `MODS` and `KB_BUF`; `wakes` counts the calls of `wake_up_all_sleeping`.
pub record Keyboard : Type 0 where
  pub mods : Modifiers
  pub kb_buf : KbBuffer
  pub wakes : ℕ

-- `push_char`, and the end of `process_scancode`.
pub push_char : Keyboard → ℕ → Keyboard
push_char k c = record k { kb_buf = push k.kb_buf c; wakes = k.wakes + 1 }

pub read_char : Keyboard → Option ℕ × Keyboard
read_char k = let (c, b) = pop k.kb_buf in (c, record k { kb_buf = b })

-- The byte that a key with map entry `c` types under the modifiers.
pub typed : Modifiers → ℕ → ℕ
typed m c =
    let c' =
      if is_ascii_alphabetic c
      then (if xor m.shift m.caps then to_ascii_uppercase c else c)
      else (if m.shift then shifted_char c else c) in
    if m.ctrl && is_ascii_alphabetic c' then to_ascii_uppercase c' - 64 else c'

-- A key that is no modifier.
pub process_key : Keyboard → ℕ → Bool → Keyboard
unfolding typed
process_key k sc_clean released =
    if released
    then k
    else if ltb sc_clean (length scancode_map)
    then (let c = get_or scancode_map sc_clean 0 in
        if c == 0 then k else push_char k (typed k.mods c))
    else k

pub process_scancode : Keyboard → ℕ → Keyboard
unfolding process_key
process_scancode k sc =
    let released = not (bit_and sc 0x80 == 0) in
    let sc_clean = bit_and sc 0x7f in
    let m = k.mods in
    if sc_clean == 0x2A
    then record k { mods = record m { shift = not released } }
    else if sc_clean == 0x36
    then record k { mods = record m { shift = not released } }
    else if sc_clean == 0x1D
    then record k { mods = record m { ctrl = not released } }
    else if sc_clean == 0x38
    then record k { mods = record m { alt = not released } }
    else if sc_clean == 0x3A && not released
    then record k { mods = record m { caps = not m.caps } }
    else process_key k sc_clean released
