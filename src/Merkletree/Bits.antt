-- ===== src/Merkletree/Bits.antt =====
-- math/bits, as the tree code uses it on uint64 values.
use certspotter.Prelude.{
  ℕ, zero, suc, ◌+◌, ◌*◌, ◌/◌, ◌%◌, ◌^◌, ◌≤◌, ◌≡◌, refl, ◌==◌, if◌then◌else◌, arith, ◌⊎◌, inl, inr,
  Bool-cases, ◌<◌, pow_two-suc,
}

-- The ones among the lowest `width` bits.
unfoldable pub ones_count : ℕ → ℕ → ℕ
ones_count zero n = 0
ones_count (suc width) n = n % 2 + ones_count width (n / 2)

-- `bits.OnesCount64`
abbrev pub ones_count64 : ℕ → ℕ
ones_count64 n = ones_count 64 n

-- The zeros below the lowest one; `width` if there is none.
unfoldable pub trailing_zeros : ℕ → ℕ → ℕ
trailing_zeros zero n = 0
trailing_zeros (suc width) n = if n % 2 == 1 then 0 else suc (trailing_zeros width (n / 2))

-- `bits.TrailingZeros64`
abbrev pub trailing_zeros64 : ℕ → ℕ
trailing_zeros64 n = trailing_zeros 64 n

-- `x << k` on uint64
abbrev pub shl64 : ℕ → ℕ → ℕ
shl64 x k = x * 2 ^ k % 2 ^ 64

-- `a + b` on uint64
abbrev pub add64 : ℕ → ℕ → ℕ
add64 a b = (a + b) % 2 ^ 64

pub ones_count-zero : (width : ℕ) → ones_count width 0 ≡ 0
unfolding ones_count
ones_count-zero zero = refl
ones_count-zero (suc width) = omega (arith, ones_count-zero width)

pub ones_count-double : (width n : ℕ) → ones_count (suc width) (2 * n) ≡ ones_count width n
unfolding ones_count
ones_count-double width n = let e : 2 * n / 2 ≡ n = omega arith in rw e (omega arith)

pub ones_count-double_one :
    (width n : ℕ) → ones_count (suc width) (2 * n + 1) ≡ suc (ones_count width n)
unfolding ones_count
ones_count-double_one width n = let e : (2 * n + 1) / 2 ≡ n = omega arith in rw e (omega arith)

parity : (n : ℕ) → ((n % 2 ≡ 0) × ((n + 1) / 2 ≡ n / 2)) ⊎ ((n % 2 ≡ 1) × ((n + 1) / 2 ≡ n / 2 + 1))
parity n = elim (Bool-cases (n % 2 == 0)) [
  | inl e ↦ inl (ground arith, ground arith)
  | inr e ↦ inr (ground arith, ground arith)
]

-- Adding one sets one bit at most.
pub ones_count-suc-le : (width n : ℕ) → ones_count width (n + 1) ≤ ones_count width n + 1
unfolding ones_count
ones_count-suc-le zero n = omega arith
ones_count-suc-le (suc width) n = elim (parity n) [
  | inl (e, half) ↦ rw half (omega arith)
  | inr (e, half) ↦ rw half (omega (arith, ones_count-suc-le width (n / 2)))
]

pub trailing_zeros-double :
    (width n : ℕ) → trailing_zeros (suc width) (2 * n) ≡ suc (trailing_zeros width n)
unfolding trailing_zeros
trailing_zeros-double width n =
    let e : 2 * n / 2 ≡ n = omega arith in let r : 2 * n % 2 ≡ 0 = omega arith in rw (e, r)

pub trailing_zeros-double_one : (width n : ℕ) → trailing_zeros (suc width) (2 * n + 1) ≡ 0
unfolding trailing_zeros
trailing_zeros-double_one width n = let r : (2 * n + 1) % 2 ≡ 1 = omega arith in rw r

-- A number that is not 0 has a one among its bits.
pub trailing_zeros-lt : (width n : ℕ) → 0 < n → n < 2 ^ width → trailing_zeros width n < width
unfolding trailing_zeros
trailing_zeros-lt zero n pos fits = absurd (omega arith)
trailing_zeros-lt (suc width) n pos fits =
    ground (arith, pow_two-suc width, trailing_zeros-lt width (n / 2))

pub half_below :
    (width n k m m' : ℕ)
    → n ≡ 2 * k
    → m < 2 ^ trailing_zeros (suc width) n
    → 2 * m' ≤ m
    → m' < 2 ^ trailing_zeros width k
half_below width n k m m' e s h = omega (arith, rw (e, trailing_zeros-double, pow_two-suc) at s)
