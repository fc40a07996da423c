-- ===== src/Base/Bits.antt =====
-- `&`, `|` and `^` of machine words at variables: one digit at a time, masks of low and high bits,
-- and the flip of one bit.
use Prim.Native.Nat.{
  ℕ, zero, suc, ◌+◌, ◌-◌, ◌*◌, ◌/◌, ◌%◌, ◌^◌, ◌≤◌, min, max, bit_and, bit_or, bit_xor, digits,
  differ, bit_and-bitwise, bit_or-bitwise, bit_xor-bitwise,
}
use mathlib.Core.Path.{◌≡◌, refl, ap, ◌∙◌}
use mathlib.Core.Logic.{◌⊎◌, inl, inr}
use native.Mathlib.Omega.{arith}
use native.Mathlib.Nat.{pow-suc, one-le-pow}
use sar_osx.Base.Tests.{Bool-cases, ◌==◌, if◌then◌else◌}

-- One unit of fuel more than is needed changes nothing, so any surplus may be taken away.
module _ (last : ℕ → ℕ) (join : ℕ → ℕ → ℕ) where
  one_more : (k x y : ℕ) → x ≤ k → digits last join (suc k) x y ≡ digits last join k x y
  one_more zero zero y h = refl
  one_more zero (suc x) y h = elim h [ ]
  one_more (suc k) zero y h = refl
  one_more (suc k) (suc x) y h =
      ap (λ t. t * 2 + join (suc x % 2) (y % 2)) (one_more k (suc x / 2) (y / 2) (omega arith))

  pub no_surplus : (k x y : ℕ) → x ≤ k → digits last join k x y ≡ digits last join x x y
  no_surplus zero x y h = let none_left : x ≡ 0 = omega arith in rw none_left
  no_surplus (suc k) x y h = elim (Bool-cases (x == suc k)) [
    | inl e ↦ let same : x ≡ suc k = ground arith in rw same
    | inr e ↦ let less : x ≤ k = ground arith in one_more k x y less ∙ no_surplus k x y less
  ]

  digits_step :
      ((y : ℕ) → last y ≡ last (y / 2) * 2 + join 0 (y % 2))
      → (x y : ℕ)
      → digits last join x x y ≡ digits last join (x / 2) (x / 2) (y / 2) * 2 + join (x % 2) (y % 2)
  digits_step base zero y = base y
  digits_step base (suc x) y =
      ap (λ t. t * 2 + join (suc x % 2) (y % 2)) (no_surplus x (suc x / 2) (y / 2) (omega arith))

pub bit_and_step : (a b : ℕ) → bit_and a b ≡ bit_and (a / 2) (b / 2) * 2 + min (a % 2) (b % 2)
bit_and_step a b = omega (
  arith,
  bit_and-bitwise a b,
  bit_and-bitwise (a / 2) (b / 2),
  digits_step (λ _. 0) min (λ b. omega arith) a b,
)

pub bit_or_step : (a b : ℕ) → bit_or a b ≡ bit_or (a / 2) (b / 2) * 2 + max (a % 2) (b % 2)
bit_or_step a b = omega (
  arith,
  bit_or-bitwise a b,
  bit_or-bitwise (a / 2) (b / 2),
  digits_step (λ b. b) max (λ b. omega arith) a b,
)

pub bit_xor_step : (a b : ℕ) → bit_xor a b ≡ bit_xor (a / 2) (b / 2) * 2 + differ (a % 2) (b % 2)
bit_xor_step a b = omega (
  arith,
  bit_xor-bitwise a b,
  bit_xor-bitwise (a / 2) (b / 2),
  digits_step (λ b. b) differ (λ b. omega arith) a b,
)

mod2 : (a : ℕ) → (a % 2 ≡ 0) ⊎ (a % 2 ≡ 1)
mod2 a = grind arith

pub mod-double : (a m : ℕ) → 1 ≤ m → a % (m * 2) ≡ a / 2 % m * 2 + a % 2
mod-double a m h = grind arith

and_digits_zero : (k x : ℕ) → digits (λ _. 0) min k x 0 ≡ 0
and_digits_zero zero x = refl
and_digits_zero (suc k) zero = refl
and_digits_zero (suc k) (suc x) = omega (arith, and_digits_zero k (suc x / 2))

pub bit_and_zero : (x : ℕ) → bit_and x 0 ≡ 0
bit_and_zero x = bit_and-bitwise x 0 ∙ and_digits_zero x x

differ_zero : (x : ℕ) → differ (x % 2) 0 ≡ x % 2
differ_zero x = elim (mod2 x) [ inl e ↦ rw e | inr e ↦ rw e ]

xor_digits_zero : (k x : ℕ) → x ≤ k → digits (λ y. y) differ k x 0 ≡ x
xor_digits_zero k zero h = let z : ℕ = 0 in no_surplus (λ y. y) differ k z z h
xor_digits_zero zero (suc x) h = elim h [ ]
xor_digits_zero (suc k) (suc x) h =
    omega (arith, xor_digits_zero k (suc x / 2) (omega arith), differ_zero (suc x))

pub bit_xor_zero : (x : ℕ) → bit_xor x 0 ≡ x
bit_xor_zero x = bit_xor-bitwise x 0 ∙ xor_digits_zero x x (omega arith)

-- A mask of `k` ones keeps the remainder by `2 ^ k`.
pub bit_and_low : (k a : ℕ) → bit_and a (2 ^ k - 1) ≡ a % 2 ^ k
bit_and_low zero a = omega (arith, bit_and_zero a)
bit_and_low (suc k) a =
    let p = one-le-pow k 2 (omega arith) in
    let half : (2 ^ k * 2 - 1) / 2 ≡ 2 ^ k - 1 = omega arith in
    rw (pow-suc 2 k) (
      omega (
        arith,
        bit_and_step a (2 ^ k * 2 - 1),
        ap (λ (t : ℕ). bit_and (a / 2) t) half,
        bit_and_low k (a / 2),
        mod-double a (2 ^ k) p,
      ))

-- An even mask does not read the lowest digit.
bit_and_double : (a m : ℕ) → bit_and a (m * 2) ≡ bit_and (a / 2) m * 2
bit_and_double a m =
    let half : m * 2 / 2 ≡ m = omega arith in
    omega (arith, bit_and_step a (m * 2), ap (λ (t : ℕ). bit_and (a / 2) t) half)

pub div-double : (a m : ℕ) → 1 ≤ m → a / (m * 2) ≡ a / 2 / m
div-double a m h = grind arith

-- A mask of `j` ones above `k` zeros.
pub bit_and_high : (j k a : ℕ) → bit_and a ((2 ^ j - 1) * 2 ^ k) ≡ a / 2 ^ k % 2 ^ j * 2 ^ k
bit_and_high j zero a =
    let e : (2 ^ j - 1) * 2 ^ 0 ≡ 2 ^ j - 1 = omega arith in
    let f : a / 2 ^ 0 ≡ a = omega arith in rw (e, f) (omega (arith, bit_and_low j a))
bit_and_high j (suc k) a =
    let p = one-le-pow k 2 (omega arith) in
    let e : (2 ^ j - 1) * (2 ^ k * 2) ≡ (2 ^ j - 1) * 2 ^ k * 2 = omega arith in
    rw (pow-suc 2 k, e, bit_and_double, div-double a (2 ^ k) p, bit_and_high j k (a / 2))
      (omega arith)

-- `^` with one bit set flips that bit.
abbrev pub flip : ℕ → ℕ
flip q = if q % 2 == 0 then q + 1 else q - 1

bit_xor_one : (q : ℕ) → bit_xor q 1 ≡ flip q
bit_xor_one q = elim (mod2 q) [
  | inl e ↦ ground (arith, bit_xor_step q 1, bit_xor_zero (q / 2), ap (λ (t : ℕ). differ t 1) e)
  | inr e ↦ ground (arith, bit_xor_step q 1, bit_xor_zero (q / 2), ap (λ (t : ℕ). differ t 1) e)
]

pub bit_xor_double :
    (m : ℕ)
    → ((q : ℕ) → bit_xor (q * m) m ≡ flip q * m)
    → (q : ℕ) → bit_xor (q * (m * 2)) (m * 2) ≡ flip q * (m * 2)
bit_xor_double m h q =
    let e : q * (m * 2) / 2 ≡ q * m = omega arith in
    let f : m * 2 / 2 ≡ m = omega arith in
    let g : q * (m * 2) % 2 ≡ 0 = omega arith in
    let g' : m * 2 % 2 ≡ 0 = omega arith in
    rw (bit_xor_step (q * (m * 2)) (m * 2), e, f, g, g', h q) (omega arith)

pub bit_xor-flip : (k q : ℕ) → bit_xor (q * 2 ^ k) (2 ^ k) ≡ flip q * 2 ^ k
bit_xor-flip zero q =
    let e : q * 2 ^ 0 ≡ q = omega arith in
    let f : flip q * 2 ^ 0 ≡ flip q = omega arith in rw (e, f) (bit_xor_one q)
bit_xor-flip (suc k) q = rw (pow-suc 2 k) (bit_xor_double (2 ^ k) (bit_xor-flip k) q)
