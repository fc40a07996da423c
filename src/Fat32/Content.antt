-- ===== src/Fat32/Content.antt =====
-- What `read` of a file of src/fs/fat32.rs puts into the buffer.
use sar_osx.Base.{
  ℕ, ◌+◌, ◌-◌, ◌≤◌, ◌<◌, min, max, ◌≡◌, refl, sym, ap, ◌∙◌, inl, inr, ◌||◌, List, [], ◌∷◌, ◌++◌,
  arith, ltb, leb, ◌==◌, ltb→lt, leb→le, Bool-cases, length, take, drop, length-append, length-take,
  length-drop,
}
use sar_osx.Base.Bytes.{byte_at, byte-append_left, byte-append_right, byte-take, byte-drop}
use sar_osx.Base.Result.{ok}
use sar_osx.Fat32.{Disk, Fat32Ctx, cluster_bytes, cluster_chain, read_cluster}
use sar_osx.Fat32.Inode.{fat_file, splice, in_start, in_end, slice, read_clusters, fat_read}

module _ (buf : List ℕ) (dst : ℕ) (bytes : List ℕ) (fits : dst + length bytes ≤ length buf) where
  length-splice : length (splice buf dst bytes) ≡ length buf
  unfolding splice
  length-splice = omega (
    arith,
    length-append (take dst buf) (bytes ++ drop (dst + length bytes) buf),
    length-append bytes (drop (dst + length bytes) buf),
    length-take dst buf,
    length-drop (dst + length bytes) buf,
  )

  byte-splice_before : (k : ℕ) → k < dst → byte_at (splice buf dst bytes) k ≡ byte_at buf k
  unfolding splice
  byte-splice_before k h =
      byte-append_left (take dst buf) (bytes ++ drop (dst + length bytes) buf) k
        (omega (arith, length-take dst buf))
      ∙ byte-take dst buf k h

  byte-splice_inside :
      (k : ℕ) → k < length bytes → byte_at (splice buf dst bytes) (dst + k) ≡ byte_at bytes k
  unfolding splice
  byte-splice_inside k h =
      byte-append_right (take dst buf) (bytes ++ drop (dst + length bytes) buf) k (dst + k)
        (omega (arith, length-take dst buf))
      ∙ byte-append_left bytes (drop (dst + length bytes) buf) k h

length-slice : (d : List ℕ) (i j : ℕ) → j ≤ length d → length (slice d i j) ≡ j - i
length-slice d i j h = omega (arith, length-take (j - i) (drop i d), length-drop i d)

byte-slice : (d : List ℕ) (i j k : ℕ) → k < j - i → byte_at (slice d i j) k ≡ byte_at d (i + k)
byte-slice d i j k h = byte-take (j - i) (drop i d) k h ∙ byte-drop i d k (i + k) refl

-- The clusters of a chain can be read, and this is what they hold, one after the other.
pub data Holds (disk : Disk) (ctx : Fat32Ctx) : List ℕ → List ℕ → Type 0 where
  end : Holds disk ctx [] []
  cluster :
      {c : ℕ} {chain d rest : List ℕ}
      → read_cluster disk ctx c ≡ ok d
      → length d ≡ cluster_bytes ctx
      → Holds disk ctx chain rest
      → Holds disk ctx (c ∷ chain) (d ++ rest)

-- The result of the loop from the byte `start` of the file on.
record Filled (start offset stop done : ℕ) (buf content : List ℕ) (r : ℕ × List ℕ) : Type 0 where
  count : r.0 ≡ done + (min stop (start + length content) - max start offset)
  size : length r.1 ≡ length buf
  before : (k : ℕ) → offset + k < start → byte_at r.1 k ≡ byte_at buf k
  inside :
      (k p : ℕ)
      → offset + k ≡ start + p
      → offset + k < stop
      → p < length content
      → byte_at r.1 k ≡ byte_at content p

-- The rest of the clusters, as seen from the cluster before them.
far_byte :
    (d rest : List ℕ) (p : ℕ) → length d ≤ p → byte_at (d ++ rest) p ≡ byte_at rest (p - length d)
far_byte d rest p h = byte-append_right d rest (p - length d) p (omega arith)

start-in_start : (start offset : ℕ) → start + in_start start offset ≡ max start offset
start-in_start start offset = ground arith

-- One cluster copied, and the loop from the next one on.
read_clusters-step :
    (d rest : List ℕ) {cs : ℕ} (start offset stop done : ℕ) (buf : List ℕ)
    → length d ≡ cs
    → offset < start + cs
    → start < stop
    → stop ≤ offset + length buf
    → let i = in_start start offset in
      let j = in_end start cs stop in
      let buf' = splice buf (start + i - offset) (slice d i j) in
      (stop ≤ offset + length buf')
      × ((r : ℕ × List ℕ)
          → Filled (start + cs) offset stop (done + (j - i)) buf' rest r
          → Filled start offset stop done buf (d ++ rest) r)
read_clusters-step d rest {cs} start offset stop done buf size near here room =
    let i = in_start start offset in
    let j = in_end start cs stop in
    let first = start-in_start start offset in
    let piece = slice d i j in
    let long : length piece ≡ j - i = length-slice d i j (omega arith) in
    let dst = start + i - offset in
    let fits : dst + length piece ≤ length buf = omega (arith, first, long) in
    let same = length-splice buf dst piece fits in
    (
      omega (arith, same),
      λ r f. record {
        count = omega (arith, f.count, first, size, length-append d rest);
        size = f.size ∙ same;
        before = λ k h.
            f.before k (omega arith)
            ∙ byte-splice_before buf dst piece fits k (omega (arith, first));
        inside = λ k p h l m. elim (Bool-cases (ltb p cs)) [
          | inl n ↦
              let lt = ltb→lt p cs n in
              let at : dst + (p - i) ≡ k = omega (arith, first) in
              let from : i + (p - i) ≡ p = omega (arith, first) in
              f.before k (omega arith)
              ∙ ap (byte_at (splice buf dst piece)) (sym at)
              ∙ byte-splice_inside buf dst piece fits (p - i) (omega (arith, long, first))
              ∙ byte-slice d i j (p - i) (omega (arith, first))
              ∙ ap (byte_at d) from
              ∙ sym (byte-append_left d rest p (omega arith))
          | inr n ↦
              let le : cs ≤ p = ground arith in
              f.inside k (p - length d) (omega arith) l (omega (arith, length-append d rest))
              ∙ sym (far_byte d rest p (omega arith))
        ];
      },
    )

read_clusters-Filled :
    (disk : Disk) (ctx : Fat32Ctx) {chain content : List ℕ}
    → Holds disk ctx chain content
    → (start offset stop done : ℕ) (buf : List ℕ) → stop ≤ offset + length buf
    → (r : ℕ × List ℕ) × (read_clusters disk ctx chain start offset stop done buf ≡ ok r)
      × Filled start offset stop done buf content r
unfolding read_clusters
read_clusters-Filled disk ctx end start offset stop done buf room = (
  (done, buf),
  refl,
  record {
    count = omega arith;
    size = refl;
    before = λ k h. refl;
    inside = λ k p e h l. absurd (omega arith);
  },
)
read_clusters-Filled disk ctx (cluster {c} {chain} {d} {rest} e size tail) start offset stop done
      buf room =
    let cs = cluster_bytes ctx in
    let i = in_start start offset in
    let j = in_end start cs stop in
    elim (Bool-cases (leb (start + cs) offset)) [
      | inl skip ↦
          let (r, er, f) =
            read_clusters-Filled disk ctx tail (start + cs) offset stop done buf room in
          (
            r,
            rw skip er,
            record {
              count =
                  omega
                    (arith, f.count, size, length-append d rest, leb→le (start + cs) offset skip);
              size = f.size;
              before = λ k h. f.before k (omega arith);
              inside = λ k p h l m.
                  let far = leb→le (start + cs) offset skip in
                  f.inside k (p - length d) (omega (arith, size)) l
                    (omega (arith, length-append d rest))
                  ∙ sym (far_byte d rest p (omega (arith, size)));
            },
          )
      | inr near ↦ elim (Bool-cases (leb stop start)) [
        | inl past ↦ (
          (done, buf),
          rw (near, past) refl,
          record {
            count = omega (arith, leb→le stop start past);
            size = refl;
            before = λ k h. refl;
            inside = λ k p h l m. absurd (omega (arith, leb→le stop start past));
          },
        )
        | inr here ↦
            let step =
              read_clusters-step d rest start offset stop done buf size (ground arith)
                (ground arith) room in
            let (r, er, f) =
              read_clusters-Filled disk ctx tail (start + cs) offset stop (done + (j - i))
                (splice buf (start + i - offset) (slice d i j)) step.0 in
            (r, rw (near, here, e) er, step.1 r f)
      ]
    ]

-- `read` of a file whose clusters can all be read and hold at least its size fills the front of the
-- buffer with the bytes of the file from the offset on, as many as the buffer takes and the file has
-- left, and says how many; past the end that is none.
pub fat_read_lem :
    (disk : Disk) (ctx : Fat32Ctx) (first size ino offset : ℕ) (buf : List ℕ)
    {chain content : List ℕ}
    → cluster_chain disk ctx first ≡ ok chain
    → Holds disk ctx chain content
    → size ≤ length content
    → (r : ℕ × List ℕ) × (fat_read disk ctx (fat_file first size ino) offset buf ≡ ok r)
      × (r.0 ≡ min (length buf) (size - offset))
      × (length r.1 ≡ length buf)
      × ((k : ℕ) → k < r.0 → byte_at r.1 k ≡ byte_at content (offset + k))
unfolding fat_read
fat_read_lem disk ctx first size ino offset buf {chain} {content} found holds enough =
    let n = min (length buf) (size - offset) in
    elim (Bool-cases (leb size offset || length buf == 0)) [
      | inl none_left ↦ ((0, buf), rw none_left, ground arith, refl, λ k h. absurd (omega arith))
      | inr some_left ↦
          let (r, er, f) =
            read_clusters-Filled disk ctx holds 0 offset (offset + n) 0 buf (omega arith) in
          let more : offset < size = ground arith in
          let count : r.0 ≡ n = omega (arith, f.count) in
          (
            r,
            rw (some_left, found) er,
            count,
            f.size,
            λ k h.
                f.inside k (offset + k) (omega arith) (omega (arith, count)) (omega (arith, count)),
          )
    ]
