-- ===== src/Program/Stack/Pointer.antt =====
-- Where `build_user_stack` of src/proc/stack.rs leaves the stack pointer.
use sar_osx.Base.{
  [], ℕ, ◌+◌, ◌-◌, ◌*◌, ◌/◌, ◌%◌, ◌^◌, ◌≤◌, ◌<◌, bit_and, ◌≡◌, refl, Bool, true, false, Option,
  none, some, List, ◌∷◌, ◌++◌, arith, length, length-append,
}
use sar_osx.Base.Bits.{bit_and_high}
use sar_osx.Pmm.{not64}
use sar_osx.Paging.{Memory}
use sar_osx.Program.Stack.{
  LoadedElf, user_stack_top, sub64, on_write, on_some, push_strings, push_words, stack_words, auxv,
  build_user_stack, map_user_stack, write_at, le_bytes, random_bytes,
}

on_write-some :
    {A : Type 0} (w : Bool × Memory) (k : Memory → Option A × Memory) (a : A)
    → (on_write w k).0 ≡ some a
    → (m : Memory) × ((k m).0 ≡ some a)
unfolding on_write
on_write-some (false, m) k a e = cc
on_write-some (true, m) k a e = (m, e)

on_some-some :
    {A B : Type 0} (w : Option A × Memory) (k : A → Memory → Option B × Memory) (b : B)
    → (on_some w k).0 ≡ some b
    → (a : A) × (m : Memory) × (w.0 ≡ some a) × ((k a m).0 ≡ some b)
unfolding on_some
on_some-some (none, m) k b e = cc
on_some-some (some a, m) k b e = (a, m, refl, e)

-- The bytes that strings take with a terminator each.
unfoldable pub string_bytes : List (List ℕ) → ℕ
string_bytes [] = 0
string_bytes (s ∷ rest) = length s + 1 + string_bytes rest

sub64_lem : (a b : ℕ) → a < 2 ^ 64 → b ≤ a → sub64 a b ≡ a - b
sub64_lem a b lt le = omega arith

push_strings_lem :
    (args : List (List ℕ)) (m : Memory) (root cursor c : ℕ) (ptrs : List ℕ)
    → cursor < 2 ^ 64
    → string_bytes args ≤ cursor
    → (push_strings args m root cursor).0 ≡ some (c, ptrs)
    → (c + string_bytes args ≡ cursor) × (length ptrs ≡ length args)
unfolding push_strings string_bytes
push_strings_lem [] m root cursor c ptrs lt le e = (
  let same : cursor ≡ c = cc in omega arith,
  let none_left : [] ≡ ptrs = cc in rw (← none_left) refl,
)
push_strings_lem (arg ∷ rest) m root cursor c ptrs lt le e =
    let ((c1, ptrs1), m1, first, then') =
      on_some-some (push_strings rest m root cursor)
        (λ (x, ps) m'.
          let x' = sub64 x (length arg + 1) in
          on_write (write_at m' root x' arg) λ m''. (some (x', x' ∷ ps), m''))
        (c, ptrs) e in
    let (m2, last) =
      on_write-some (write_at m1 root (sub64 c1 (length arg + 1)) arg)
        (λ m''. (some (sub64 c1 (length arg + 1), sub64 c1 (length arg + 1) ∷ ptrs1), m''))
        (c, ptrs) then' in
    let ih = push_strings_lem rest m root cursor c1 ptrs1 lt (omega arith) first in
    let here : sub64 c1 (length arg + 1) ≡ c = cc in
    let list : sub64 c1 (length arg + 1) ∷ ptrs1 ≡ ptrs = cc in
    (
      omega (
        arith,
        here,
        ih.0,
        sub64_lem c1 (length arg + 1) (omega (arith, ih.0)) (omega (arith, ih.0)),
      ),
      rw (← list) (omega (arith, ih.1)),
    )

push_words_lem :
    (words : List ℕ) (m : Memory) (root rsp r : ℕ)
    → rsp < 2 ^ 64
    → 8 * length words ≤ rsp
    → (push_words words m root rsp).0 ≡ some r
    → r + 8 * length words ≡ rsp
unfolding push_words
push_words_lem [] m root rsp r lt le e = let same : rsp ≡ r = cc in omega arith
push_words_lem (val ∷ rest) m root rsp r lt le e =
    let (r1, m1, first, then') =
      on_some-some (push_words rest m root rsp)
        (λ x m'.
          let x' = sub64 x 8 in
          on_write (write_at m' root x' (le_bytes 8 val)) λ m''. (some x', m''))
        r e in
    let (m2, last) =
      on_write-some (write_at m1 root (sub64 r1 8) (le_bytes 8 val))
        (λ m''. (some (sub64 r1 8), m'')) r then' in
    let ih = push_words_lem rest m root rsp r1 lt (omega arith) first in
    let here : sub64 r1 8 ≡ r = cc in
    omega (arith, here, ih, sub64_lem r1 8 (omega (arith, ih)) (omega (arith, ih)))

stack_words-length :
    (loaded : LoadedElf) (random name argc : ℕ) (argv envp : List ℕ)
    → length (stack_words loaded random name argc argv envp) ≡ 31 + length argv + length envp
stack_words-length loaded random name argc argv envp = omega (
  arith,
  length-append argv (0 ∷ (envp ++ (0 ∷ auxv loaded random name))),
  length-append envp (0 ∷ auxv loaded random name),
)

-- Where the strings end, below the top of the stack.
unfoldable pub strings_end : (argv envp : List (List ℕ)) (execfn : List ℕ) → ℕ
strings_end argv envp execfn =
    user_stack_top - (16 + length execfn + 1 + string_bytes argv + string_bytes envp)

-- When the strings and words fit below the top of the stack: if `build_user_stack` gives a stack
-- pointer, it is 31 words and one for each argument and each variable below the end of the strings,
-- rounded down to 16; so it is a multiple of 16 exactly when their number is odd, and otherwise 8 off.
pub build_user_stack_lem :
    (m : Memory) (root : ℕ) (loaded : LoadedElf) (argv envp : List (List ℕ)) (execfn : List ℕ)
    (rsp : ℕ)
    → string_bytes argv + string_bytes envp + length execfn + 8 * (length argv + length envp) + 512
      ≤ user_stack_top
    → (build_user_stack m root loaded argv envp execfn).0 ≡ some rsp
    → (rsp + 8 * (31 + length argv + length envp) ≡ strings_end argv envp execfn / 16 * 16)
      × (rsp % 16 ≡ 8 * ((31 + length argv + length envp) % 2))
unfolding build_user_stack strings_end
build_user_stack_lem m root loaded argv envp execfn rsp fits e =
    let (m1, e1) = on_write-some (map_user_stack m root) _ rsp e in
    let random = sub64 user_stack_top 16 in
    let (m2, e2) = on_write-some (write_at m1 root random random_bytes) _ rsp e1 in
    let name = sub64 random (length execfn + 1) in
    let (m3, e3) = on_write-some (write_at m2 root name execfn) _ rsp e2 in
    let ((c, argv_ptrs), m4, f4, e4) = on_some-some (push_strings argv m3 root name) _ rsp e3 in
    let ((c', envp_ptrs), m5, f5, e5) = on_some-some (push_strings envp m4 root c) _ rsp e4 in
    let name_at : name ≡ user_stack_top - 16 - (length execfn + 1) = omega arith in
    let args = push_strings_lem argv m3 root name c argv_ptrs (omega arith) (omega arith) f4 in
    let vars =
      push_strings_lem envp m4 root c c' envp_ptrs (omega (arith, args.0)) (omega (arith, args.0))
        f5 in
    let start : bit_and c' (not64 15) ≡ c' / 16 * 16 =
      omega (arith, bit_and_high 60 4 c', vars.0, args.0) in
    let words = stack_words loaded random name (length argv) argv_ptrs envp_ptrs in
    let count : length words ≡ 31 + length argv + length envp = omega (
      arith,
      stack_words-length loaded random name (length argv) argv_ptrs envp_ptrs,
      args.1,
      vars.1,
    ) in
    let last =
      push_words_lem words m5 root (bit_and c' (not64 15)) rsp
        (omega (arith, start, vars.0, args.0)) (omega (arith, count, start, vars.0, args.0)) e5 in
    let at : rsp + 8 * (31 + length argv + length envp) ≡ c' / 16 * 16 =
      omega (arith, last, count, start) in
    let strings : c'
        ≡ user_stack_top - (16 + length execfn + 1 + string_bytes argv + string_bytes envp) =
      omega (arith, vars.0, args.0, name_at) in
    (omega (arith, at, strings), omega (arith, at))
