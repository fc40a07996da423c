-- ===== src/Program/Strings.antt =====
-- src/proc/exec.rs: `read_user_string`, which copies a path or an argument of a process.
use sar_osx.Base.{
  [], ℕ, zero, suc, ◌<◌, ◌≡◌, refl, sym, ◌∙◌, ap, ◌≢◌, ◌↔◌, Option, none, some, List, ◌∷◌, ◌++◌,
  if◌then◌else◌, ◌==◌, ==_iff, Bool-cases, inl, inr, true, false, length, arith, add64,
}
use sar_osx.Paging.{Memory}
use sar_osx.Program.{user_byte}

unfoldable pub add_byte : ℕ → Option (List ℕ) → Option (List ℕ)
add_byte b none = none
add_byte b (some s) = some (b ∷ s)

-- The rest of the round for a byte, `later` what the rounds after it give.
unfoldable pub read_on : Option ℕ → Option (List ℕ) → Option (List ℕ)
unfolding add_byte
read_on none later = none
read_on (some b) later = if b == 0 then some (0 ∷ []) else add_byte b later

-- The loop, with room for `n` bytes; the terminator is pushed at the end.
unfoldable pub read_bytes : (n : ℕ) → Memory → (root addr : ℕ) → Option (List ℕ)
unfolding read_on
read_bytes zero m root addr = none
read_bytes (suc n) m root addr =
    read_on (user_byte m root addr) (read_bytes n m root (add64 addr 1))

unfoldable pub read_user_string : Memory → (root ptr max_len : ℕ) → Option (List ℕ)
read_user_string m root ptr max_len = if ptr == 0 then none else read_bytes max_len m root ptr

-- The bytes of a string in the memory of a process, without the terminator.
pub data IsString (m : Memory) (root : ℕ) : (addr : ℕ) → List ℕ → Type 0 where
  ends : (addr : ℕ) → user_byte m root addr ≡ some 0 → IsString m root addr []
  next :
      (addr b : ℕ) (s : List ℕ)
      → user_byte m root addr ≡ some b
      → b ≢ 0
      → IsString m root (add64 addr 1) s
      → IsString m root addr (b ∷ s)

read_bytes-IsString :
    (n : ℕ) (m : Memory) (root addr : ℕ) (s : List ℕ)
    → IsString m root addr s
    → length s < n
    → read_bytes n m root addr ≡ some (s ++ 0 ∷ [])
unfolding read_bytes read_on add_byte
read_bytes-IsString zero m root addr s h lt = absurd (omega arith)
read_bytes-IsString (suc n) m root addr s (ends a e) lt = rw e refl
read_bytes-IsString (suc n) m root addr s (next a b t e ne h) lt =
    let other : (b == 0) ≡ false = ground arith in
    rw (e, other, read_bytes-IsString n m root (add64 addr 1) t h (omega arith)) refl

-- A string that was read, taken apart.
record Read (n : ℕ) (m : Memory) (root addr : ℕ) (whole : List ℕ) : Type 0 where
  text : List ℕ
  stands : IsString m root addr text
  short : length text < n
  split : whole ≡ text ++ 0 ∷ []

add_byte-Read :
    (n : ℕ) (m : Memory) (root addr : ℕ) (whole : List ℕ) (b : ℕ) (later : Option (List ℕ))
    → user_byte m root addr ≡ some b
    → b ≢ 0
    → ((rest : List ℕ) → later ≡ some rest → Read n m root (add64 addr 1) rest)
    → add_byte b later ≡ some whole
    → Read (suc n) m root addr whole
unfolding add_byte
add_byte-Read n m root addr whole b none e ne ih done = cc
add_byte-Read n m root addr whole b (some rest) e ne ih done =
    let r = ih rest refl in
    let same : b ∷ rest ≡ whole = cc in
    record {
      text = b ∷ r.text;
      stands = next addr b r.text e ne r.stands;
      short = omega (arith, r.short);
      split = sym same ∙ ap (λ (l : List ℕ). b ∷ l) r.split;
    }

read_on-Read :
    (n : ℕ) (m : Memory) (root addr : ℕ) (whole : List ℕ) (o : Option ℕ) (later : Option (List ℕ))
    → user_byte m root addr ≡ o
    → ((rest : List ℕ) → later ≡ some rest → Read n m root (add64 addr 1) rest)
    → read_on o later ≡ some whole
    → Read (suc n) m root addr whole
unfolding read_on add_byte
read_on-Read n m root addr whole none later e ih done = cc
read_on-Read n m root addr whole (some b) later e ih done = elim (Bool-cases (b == 0)) [
  | inl q ↦
      let zero_byte : b ≡ 0 = (==_iff b 0).0 q in
      let same : some (0 ∷ []) ≡ some whole = rw q at done in
      record {
        text = [];
        stands = ends addr (e ∙ ap some zero_byte);
        short = omega arith;
        split = cc;
      }
  | inr q ↦
      add_byte-Read n m root addr whole b later e
        (λ z. let yes = (==_iff b 0).1 z in let bad : true ≡ false = sym yes ∙ q in cc) ih
        (rw q at done)
]

read_bytes-Read :
    (n : ℕ) (m : Memory) (root addr : ℕ) (whole : List ℕ)
    → read_bytes n m root addr ≡ some whole
    → Read n m root addr whole
unfolding read_bytes
read_bytes-Read zero m root addr whole e = cc
read_bytes-Read (suc n) m root addr whole e =
    read_on-Read n m root addr whole (user_byte m root addr) (read_bytes n m root (add64 addr 1))
      refl (λ rest e'. read_bytes-Read n m root (add64 addr 1) rest e') e

-- For a pointer that is not null: `read_user_string` gives a list of bytes exactly when it is a string
-- that stands there in the memory of the process, with its terminator, and the string is shorter than
-- the limit; in every other case it gives none.
pub read_user_string_lem :
    (m : Memory) (root ptr max_len : ℕ) (whole : List ℕ)
    → ptr ≢ 0
    → (read_user_string m root ptr max_len ≡ some whole)
      ↔ ((s : List ℕ) × IsString m root ptr s × (length s < max_len) × (whole ≡ s ++ 0 ∷ []))
unfolding read_user_string
read_user_string_lem m root ptr max_len whole ne =
    let q : (ptr == 0) ≡ false = ground arith in
    (
      (λ e.
          let r = read_bytes-Read max_len m root ptr whole (rw q at e) in
          (r.text, r.stands, r.short, r.split)),
      λ h. rw (q, h.3) (read_bytes-IsString max_len m root ptr h.0 h.1 h.2),
    )
