-- ===== src/Fs/RamFs/Content.antt =====
-- The content of a file under `read`, `write` and `truncate`.
use sar_osx.Base.{
  append-nil, ℕ, ◌+◌, ◌-◌, ◌≤◌, ◌<◌, min, max, ◌≡◌, refl, sym, ap, ◌∙◌, ◌≢◌, ◌⊎◌, inl, inr, true,
  false, List, [], ◌∷◌, ◌++◌, arith, ltb, leb, ◌==◌, if◌then◌else◌, Bool-cases, length, get_or,
  take, drop, replicate, length-append, length-take, length-drop, length-replicate,
}
use mathlib.Core.Path.{subst}
use sar_osx.Base.Result.{ok}
use sar_osx.Base.Bytes.{
  take-append_left, drop-append_left, byte_at, byte-append_left, byte-append_right, byte-pad,
  byte-take, byte-drop, take-long, nil_of_length,
}
use sar_osx.Fs.Vfs.{Node, ram_file, Store}
use sar_osx.Fs.RamFs.{
  set_node, read, read_in, read_bytes, resize, write, write_in, write_bytes, truncate, truncate_in,
}

-- The content that `write` copies the bytes into.
abbrev grown : (content : List ℕ) (end : ℕ) → List ℕ
grown content end = if ltb (length content) end then resize content end else content

length-grown : (content : List ℕ) (end : ℕ) → length (grown content end) ≡ max (length content) end
length-grown content end = elim (Bool-cases (ltb (length content) end)) [
  | inl e ↦
      rw
        (
          e,
          length-append (take end content) (replicate (end - length content) (let z : ℕ = 0 in z)),
          length-take end content,
          length-replicate (end - length content) (let z : ℕ = 0 in z),
        )
        (ground arith)
  | inr e ↦ rw e (ground arith)
]

byte-grown : (content : List ℕ) (end i : ℕ) → get_or (grown content end) i 0 ≡ get_or content i 0
byte-grown content end i = elim (Bool-cases (ltb (length content) end)) [
  | inl e ↦
      let whole = take-long end content (ground arith) in
      rw (e, whole) (byte-pad content (end - length content) i)
  | inr e ↦ rw e
]

-- What `write_bytes` makes, as its three parts, the first of them as long as the offset.
length-front :
    (content : List ℕ) (offset n : ℕ) → length (take offset (grown content (offset + n))) ≡ offset
length-front content offset n =
    rw (length-take offset (grown content (offset + n)), length-grown content (offset + n))
      (omega arith)

length-write_bytes :
    (content : List ℕ) (offset : ℕ) (bytes : List ℕ)
    → length (write_bytes content offset bytes) ≡ max (length content) (offset + length bytes)
unfolding write_bytes
length-write_bytes content offset bytes =
    let end = offset + length bytes in
    omega (
      arith,
      length-append (take offset (grown content end)) (bytes ++ drop end (grown content end)),
      length-append bytes (drop end (grown content end)),
      length-front content offset (length bytes),
      length-drop end (grown content end),
      length-grown content end,
    )

read-write_bytes :
    (content : List ℕ) (offset : ℕ) (bytes : List ℕ)
    → drop offset (write_bytes content offset bytes)
      ≡ bytes ++ drop (offset + length bytes) (grown content (offset + length bytes))
unfolding write_bytes
read-write_bytes content offset bytes =
    let end = offset + length bytes in
    let front = take offset (grown content end) in
    let back = bytes ++ drop end (grown content end) in
    subst (λ k. drop k (front ++ back) ≡ back) (length-front content offset (length bytes))
      (drop-append_left front back)

-- A byte outside the range that is written is as before, 0 where the content ended before.
byte-write_bytes :
    (content : List ℕ) (offset : ℕ) (bytes : List ℕ) (i : ℕ)
    → (i < offset) ⊎ (offset + length bytes ≤ i)
    → byte_at (write_bytes content offset bytes) i ≡ byte_at content i
unfolding write_bytes
byte-write_bytes content offset bytes i (inl h) =
    let end = offset + length bytes in
    let front = take offset (grown content end) in
    byte-append_left front (bytes ++ drop end (grown content end)) i
      (omega (arith, length-front content offset (length bytes)))
    ∙ byte-take offset (grown content end) i h
    ∙ byte-grown content end i
byte-write_bytes content offset bytes i (inr h) =
    let end = offset + length bytes in
    let front = take offset (grown content end) in
    let back = drop end (grown content end) in
    byte-append_right front (bytes ++ back) (i - offset) i
      (omega (arith, length-front content offset (length bytes)))
    ∙ byte-append_right bytes back (i - end) (i - offset) (omega arith)
    ∙ byte-drop end (grown content end) (i - end) i (omega arith)
    ∙ byte-grown content end i

read_bytes-write_bytes :
    (content : List ℕ) (offset : ℕ) (bytes : List ℕ)
    → read_bytes (write_bytes content offset bytes) offset (length bytes) ≡ bytes
unfolding read_bytes
read_bytes-write_bytes content offset bytes =
    let new = write_bytes content offset bytes in
    let size = length-write_bytes content offset bytes in
    elim (Bool-cases (leb (length new) offset)) [
      | inl e ↦ rw e (sym (nil_of_length bytes (ground (arith, size))))
      | inr e ↦
          let all : min (length new - offset) (length bytes) ≡ length bytes =
            ground (arith, size) in
          rw (e, all, read-write_bytes content offset bytes)
            (take-append_left bytes
              (drop (offset + length bytes) (grown content (offset + length bytes))))
    ]

-- The bytes of the file at an address, none for a node of another kind.
abbrev pub file_bytes : Node → List ℕ
file_bytes (ram_file ino mode content) = content
file_bytes _ = []

byte-resize :
    (content : List ℕ) (n i : ℕ) → i < n → byte_at (resize content n) i ≡ byte_at content i
byte-resize content n i h =
    byte-pad (take n content) (n - length content) i ∙ byte-take n content i h

length-resize : (content : List ℕ) (n : ℕ) → length (resize content n) ≡ n
length-resize content n = omega (
  arith,
  length-append (take n content) (replicate (n - length content) (let z : ℕ = 0 in z)),
  length-take n content,
  length-replicate (n - length content) (let z : ℕ = 0 in z),
)

-- The operations at the address of a file.
module _ (s : Store) (h ino mode : ℕ) (content : List ℕ)
    (e : s.node h ≡ ram_file ino mode content) where
  pub read-file : (offset len : ℕ) → read s h offset len ≡ ok (read_bytes content offset len)
  unfolding read read_in
  read-file offset len = rw e

  pub write-file :
      (offset : ℕ) (bytes : List ℕ)
      → write s h offset bytes
        ≡ (ok (length bytes), set_node s h (ram_file ino mode (write_bytes content offset bytes)))
  unfolding write write_in
  write-file offset bytes = rw e

  pub truncate-file :
      (size : ℕ)
      → truncate s h size ≡ (ok tt, set_node s h (ram_file ino mode (resize content size)))
  unfolding truncate truncate_in
  truncate-file size = rw e

-- The whole content is what `read` gives for its length, and what `write` leaves in an empty file.
pub read_bytes-all : (content : List ℕ) → read_bytes content 0 (length content) ≡ content
unfolding read_bytes
read_bytes-all [] = refl
read_bytes-all (c ∷ content) =
    let all : min (length (c ∷ content) - 0) (length (c ∷ content)) ≡ length (c ∷ content) =
      omega arith in
    let more : leb (length (c ∷ content)) 0 ≡ false = ground arith in
    rw (more, all) (take-long (length (c ∷ content)) (c ∷ content) (omega arith))

pub write_bytes-all : (content bytes : List ℕ) → write_bytes (resize content 0) 0 bytes ≡ bytes
write_bytes-all content bytes =
    let size = length-resize content 0 in
    let rest = drop (0 + length bytes) (grown (resize content 0) (0 + length bytes)) in
    let empty : rest ≡ [] = nil_of_length rest (
      omega (
        arith,
        length-drop (0 + length bytes) (grown (resize content 0) (0 + length bytes)),
        length-grown (resize content 0) (0 + length bytes),
        size,
      )) in
    read-write_bytes (resize content 0) 0 bytes ∙ ap (λ l. bytes ++ l) empty ∙ append-nil bytes

-- `write` to a file takes all the bytes and `read` finds them there; every byte outside the range
-- is as before, 0 where the content had ended; the file is then as long as the larger of its old
-- length and the end of the range; and no other node changes.
pub write_lem :
    (s : Store) (h ino mode : ℕ) (content : List ℕ) (offset : ℕ) (bytes : List ℕ)
    → s.node h ≡ ram_file ino mode content
    → let after = (write s h offset bytes).1 in
      ((write s h offset bytes).0 ≡ ok (length bytes))
      × (read after h offset (length bytes) ≡ ok bytes)
      × ((i : ℕ)
          → (i < offset) ⊎ (offset + length bytes ≤ i)
          → byte_at (file_bytes (after.node h)) i ≡ byte_at content i)
      × (length (file_bytes (after.node h)) ≡ max (length content) (offset + length bytes))
      × ((j : ℕ) → h ≢ j → after.node j ≡ s.node j)
unfolding write write_in read read_in
write_lem s h ino mode content offset bytes e =
    let here : (h == h) ≡ true = ground arith in
    rw (e, here)
      (
        refl,
        ap ok (read_bytes-write_bytes content offset bytes),
        byte-write_bytes content offset bytes,
        length-write_bytes content offset bytes,
        λ j d. let there : (h == j) ≡ false = ground arith in rw there,
      )

-- `truncate` gives a file exactly the size that is asked for; the bytes below it are as before, 0
-- where the content had ended; and no other node changes.
pub truncate_lem :
    (s : Store) (h ino mode : ℕ) (content : List ℕ) (size : ℕ)
    → s.node h ≡ ram_file ino mode content
    → let after = (truncate s h size).1 in
      ((truncate s h size).0 ≡ ok tt)
      × (length (file_bytes (after.node h)) ≡ size)
      × ((i : ℕ) → i < size → byte_at (file_bytes (after.node h)) i ≡ byte_at content i)
      × ((j : ℕ) → h ≢ j → after.node j ≡ s.node j)
unfolding truncate truncate_in
truncate_lem s h ino mode content size e =
    let here : (h == h) ≡ true = ground arith in
    rw (e, here)
      (
        refl,
        length-resize content size,
        byte-resize content size,
        λ j d. let there : (h == j) ≡ false = ground arith in rw there,
      )
