-- ===== src/Keyboard/Ring.antt =====
-- The ring buffer as a queue: what `push` and `pop` do to the bytes that wait in it.
use sar_osx.Base.{
  ℕ, zero, suc, ◌+◌, ◌-◌, ◌%◌, ◌≤◌, ◌<◌, ◌≡◌, ◌≢◌, refl, ap, ◌∙◌, inl, inr, true, false, Option,
  none, some, List, [], ◌∷◌, ◌++◌, arith, ltb, ◌==◌, Bool-cases, if◌then◌else◌, length, get_or, set,
  length-set,
}
use sar_osx.Keyboard.{KbBuffer, push, pop}

pub record IsValid (b : KbBuffer) : Type 0 where
  pub size : length b.buf ≡ 256
  pub head : b.head < 256
  pub tail : b.tail < 256

abbrev pub count : KbBuffer → ℕ
count b = (b.head + 256 - b.tail) % 256

-- `n` bytes from index `i` on, round the end of the array.
abbrev pub window : List ℕ → ℕ → ℕ → List ℕ
window buf zero i = []
window buf (suc n) i = get_or buf i 0 ∷ window buf n ((i + 1) % 256)

-- The bytes that wait, the oldest first.
abbrev pub items : KbBuffer → List ℕ
items b = window b.buf (count b) b.tail

get_or-set_ne : (xs : List ℕ) (i j v : ℕ) → i ≢ j → get_or (set xs j v) i 0 ≡ get_or xs i 0
get_or-set_ne [] i j v h = refl
get_or-set_ne (x ∷ xs) zero zero v h = absurd (h refl)
get_or-set_ne (x ∷ xs) zero (suc j) v h = refl
get_or-set_ne (x ∷ xs) (suc i) zero v h = refl
get_or-set_ne (x ∷ xs) (suc i) (suc j) v h = get_or-set_ne xs i j v (λ e. h (ap suc e))

get_or-set_self : (xs : List ℕ) (i v : ℕ) → i < length xs → get_or (set xs i v) i 0 ≡ v
get_or-set_self [] i v h = elim h [ ]
get_or-set_self (x ∷ xs) zero v h = refl
get_or-set_self (x ∷ xs) (suc i) v h = get_or-set_self xs i v (omega arith)

-- A write at `j` is not seen by a window that stops before it.
window-set :
    (buf : List ℕ) (n i j v : ℕ)
    → i < 256
    → j < 256
    → n ≤ (j + 256 - i) % 256
    → window (set buf j v) n i ≡ window buf n i
window-set buf zero i j v hi hj h = refl
window-set buf (suc n) i j v hi hj h = rw (
  get_or-set_ne buf i j v (omega arith),
  window-set buf n ((i + 1) % 256) j v (omega arith) hj (omega arith),
)

window-snoc :
    (buf : List ℕ) (n i : ℕ)
    → i < 256
    → window buf (suc n) i ≡ window buf n i ++ get_or buf ((i + n) % 256) 0 ∷ []
window-snoc buf zero i h = let e : (i + 0) % 256 ≡ i = omega arith in rw e
window-snoc buf (suc n) i h =
    let e : ((i + 1) % 256 + n) % 256 ≡ (i + suc n) % 256 = omega arith in
    ap (λ t. get_or buf i 0 ∷ t) (rw (← e) (window-snoc buf n ((i + 1) % 256) (omega arith)))

-- Every operation keeps the indices in range.
pub push-IsValid : (b : KbBuffer) (c : ℕ) → IsValid b → IsValid (push b c)
unfolding push
push-IsValid b c v = ground (arith, length-set b.buf b.head c)

pub pop-IsValid : (b : KbBuffer) → IsValid b → IsValid (pop b).1
unfolding pop
pop-IsValid b v = ground arith

items-push_room :
    (b : KbBuffer) (c : ℕ) → IsValid b → count b < 255 → items (push b c) ≡ items b ++ c ∷ []
unfolding push
items-push_room b c v h =
    let next : ((b.head + 1) % 256 == b.tail) ≡ false = ground arith in
    let more : ((b.head + 1) % 256 + 256 - b.tail) % 256 ≡ suc (count b) = omega arith in
    let here : (b.tail + count b) % 256 ≡ b.head = omega arith in
    rw (next, more)
      (window-snoc (set b.buf b.head c) (count b) b.tail v.tail
        ∙ (rw (
          here,
          get_or-set_self b.buf b.head c (omega arith),
          window-set b.buf (count b) b.tail b.head c v.tail v.head (omega arith),
        )))

-- In a valid buffer, `push` appends the byte to those that wait when they are fewer than 255, and
-- otherwise drops it.
pub items-push :
    (b : KbBuffer) (c : ℕ)
    → IsValid b
    → items (push b c) ≡ (if ltb (count b) 255 then items b ++ c ∷ [] else items b)
items-push b c v = elim (Bool-cases (ltb (count b) 255)) [
  | inl e ↦ rw e (items-push_room b c v (ground arith))
  | inr e ↦ rw e (full (ground arith))
]
  where
    full : ((b.head + 1) % 256 == b.tail) ≡ true → items (push b c) ≡ items b
    full h = unfold push in rw h

abbrev pub dequeue : List ℕ → Option ℕ × List ℕ
dequeue [] = (none, [])
dequeue (x ∷ xs) = (some x, xs)

-- In a valid buffer, `pop` takes the oldest byte that waits and leaves the others, and gives none
-- when none waits.
pub items-pop : (b : KbBuffer) → IsValid b → ((pop b).0, items (pop b).1) ≡ dequeue (items b)
unfolding pop
items-pop b v = elim (Bool-cases (b.head == b.tail)) [
  | inl e ↦ let none_left : count b ≡ 0 = ground arith in rw (e, none_left)
  | inr e ↦
      let one_less : count b ≡ suc ((b.head + 256 - (b.tail + 1) % 256) % 256) = ground arith in
      rw (e, one_less)
]
