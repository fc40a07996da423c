-- ===== src/Base/Words.antt =====
-- `|` on machine words digit by digit: what it does to the digits above and below a position, and
-- the masks of one bit.
use Prim.Native.Nat.{
  ℕ, zero, suc, ◌+◌, ◌-◌, ◌*◌, ◌/◌, ◌%◌, ◌^◌, ◌≤◌, ◌<◌, max, bit_and, bit_or, digits,
  bit_or-bitwise,
}
use mathlib.Core.Path.{◌≡◌, refl, ◌∙◌}
use native.Mathlib.Omega.{arith}
use native.Mathlib.Nat.{pow-suc, one-le-pow}
use sar_osx.Base.Bits.{bit_and_step, bit_or_step, bit_and_high, mod-double, div-double, no_surplus}

or_digits_zero : (k x : ℕ) → x ≤ k → digits (λ y. y) max k x 0 ≡ x
or_digits_zero k zero h = let z : ℕ = 0 in no_surplus (λ y. y) max k z z h
or_digits_zero zero (suc x) h = elim h [ ]
or_digits_zero (suc k) (suc x) h = omega (arith, or_digits_zero k (suc x / 2) (omega arith))

pub bit_or_zero : (x : ℕ) → bit_or x 0 ≡ x
bit_or_zero x = bit_or-bitwise x 0 ∙ or_digits_zero x x (omega arith)

pub zero_bit_or : (x : ℕ) → bit_or 0 x ≡ x
zero_bit_or x = let z : ℕ = 0 in bit_or-bitwise z x

-- The digits above a position.
pub bit_or_div : (k a b : ℕ) → bit_or a b / 2 ^ k ≡ bit_or (a / 2 ^ k) (b / 2 ^ k)
bit_or_div zero a b =
    let e : (x : ℕ) → x / 2 ^ 0 ≡ x = λ x. omega arith in rw (e a, e b, e (bit_or a b)) refl
bit_or_div (suc k) a b =
    let p = one-le-pow k 2 (omega arith) in
    let half : bit_or a b / 2 ≡ bit_or (a / 2) (b / 2) = omega (arith, bit_or_step a b) in
    rw
      (
        pow-suc 2 k,
        div-double a (2 ^ k) p,
        div-double b (2 ^ k) p,
        div-double (bit_or a b) (2 ^ k) p,
        half,
      )
      (bit_or_div k (a / 2) (b / 2))

-- The digits below a position.
pub bit_or_mod : (k a b : ℕ) → bit_or a b % 2 ^ k ≡ bit_or (a % 2 ^ k) (b % 2 ^ k)
bit_or_mod zero a b =
    let e : (x : ℕ) → x % 2 ^ 0 ≡ 0 = λ x. omega arith in rw (e a, e b, e (bit_or a b)) refl
bit_or_mod (suc k) a b =
    let p = one-le-pow k 2 (omega arith) in
    let half : bit_or a b / 2 ≡ bit_or (a / 2) (b / 2) = omega (arith, bit_or_step a b) in
    let x = a / 2 % 2 ^ k * 2 + a % 2 in
    let y = b / 2 % 2 ^ k * 2 + b % 2 in
    let xh : x / 2 ≡ a / 2 % 2 ^ k = omega arith in
    let yh : y / 2 ≡ b / 2 % 2 ^ k = omega arith in
    let xl : x % 2 ≡ a % 2 = omega arith in
    let yl : y % 2 ≡ b % 2 = omega arith in
    rw
      (
        pow-suc 2 k,
        mod-double a (2 ^ k) p,
        mod-double b (2 ^ k) p,
        mod-double (bit_or a b) (2 ^ k) p,
        half,
        bit_or_mod k (a / 2) (b / 2),
        bit_or_step x y,
        xh,
        yh,
        xl,
        yl,
      )
      (omega (arith, bit_or_step a b))

-- Words without common digits add up.
pub bit_or-disjoint : (k q r : ℕ) → r < 2 ^ k → bit_or (q * 2 ^ k) r ≡ q * 2 ^ k + r
bit_or-disjoint k q r h =
    let p = one-le-pow k 2 (omega arith) in
    let hi = bit_or_div k (q * 2 ^ k) r in
    let lo = bit_or_mod k (q * 2 ^ k) r in
    let top : q * 2 ^ k / 2 ^ k ≡ q = grind arith in
    let none_above : r / 2 ^ k ≡ 0 = grind arith in
    let none_below : q * 2 ^ k % 2 ^ k ≡ 0 = grind arith in
    let all_below : r % 2 ^ k ≡ r = grind arith in
    let high : bit_or (q * 2 ^ k) r / 2 ^ k ≡ q = rw (hi, top, none_above) (bit_or_zero q) in
    let low : bit_or (q * 2 ^ k) r % 2 ^ k ≡ r = rw (lo, none_below, all_below) (zero_bit_or r) in
    grind arith

-- A mask of one bit.
pub bit_and_bit : (k a : ℕ) → bit_and a (2 ^ k) ≡ a / 2 ^ k % 2 * 2 ^ k
bit_and_bit k a =
    let e : (2 ^ 1 - 1) * 2 ^ k ≡ 2 ^ k = omega arith in let h = bit_and_high 1 k a in rw e at h

-- The same of `&`.
pub bit_and_div : (k a b : ℕ) → bit_and a b / 2 ^ k ≡ bit_and (a / 2 ^ k) (b / 2 ^ k)
bit_and_div zero a b =
    let e : (x : ℕ) → x / 2 ^ 0 ≡ x = λ x. omega arith in rw (e a, e b, e (bit_and a b)) refl
bit_and_div (suc k) a b =
    let p = one-le-pow k 2 (omega arith) in
    let half : bit_and a b / 2 ≡ bit_and (a / 2) (b / 2) = omega (arith, bit_and_step a b) in
    rw
      (
        pow-suc 2 k,
        div-double a (2 ^ k) p,
        div-double b (2 ^ k) p,
        div-double (bit_and a b) (2 ^ k) p,
        half,
      )
      (bit_and_div k (a / 2) (b / 2))

pub bit_and_mod : (k a b : ℕ) → bit_and a b % 2 ^ k ≡ bit_and (a % 2 ^ k) (b % 2 ^ k)
bit_and_mod zero a b =
    let e : (x : ℕ) → x % 2 ^ 0 ≡ 0 = λ x. omega arith in rw (e a, e b, e (bit_and a b)) refl
bit_and_mod (suc k) a b =
    let p = one-le-pow k 2 (omega arith) in
    let half : bit_and a b / 2 ≡ bit_and (a / 2) (b / 2) = omega (arith, bit_and_step a b) in
    let x = a / 2 % 2 ^ k * 2 + a % 2 in
    let y = b / 2 % 2 ^ k * 2 + b % 2 in
    let xh : x / 2 ≡ a / 2 % 2 ^ k = omega arith in
    let yh : y / 2 ≡ b / 2 % 2 ^ k = omega arith in
    let xl : x % 2 ≡ a % 2 = omega arith in
    let yl : y % 2 ≡ b % 2 = omega arith in
    rw
      (
        pow-suc 2 k,
        mod-double a (2 ^ k) p,
        mod-double b (2 ^ k) p,
        mod-double (bit_and a b) (2 ^ k) p,
        half,
        bit_and_mod k (a / 2) (b / 2),
        bit_and_step x y,
        xh,
        yh,
        xl,
        yl,
      )
      (omega (arith, bit_and_step a b))
