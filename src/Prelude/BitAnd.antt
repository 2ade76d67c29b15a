-- ===== src/Prelude/BitAnd.antt =====
-- Laws of the bitwise `and` and `or` at variables, from their digit recursion: one digit at a time,
-- the meeting of two words with the same top bit, and the join of two words with no common bit.
use Prim.Native.Nat.{
  ℕ, zero, suc, ◌+◌, ◌-◌, ◌*◌, ◌/◌, ◌%◌, ◌^◌, ◌≤◌, ◌<◌, min, max, bit_and, bit_or, digits,
  bit_and-bitwise, bit_or-bitwise,
}
use mathlib.Core.Path.{◌≡◌, refl, sym, ap, ◌∙◌}
use mathlib.Core.Logic.{◌≢◌}
use native.Mathlib.Omega.{arith}
use native.Mathlib.Decide.{dec_le, ℕ_discrete}
use native.Mathlib.Nat.{pow-suc, mul_assoc}

-- Fuel beyond the first operand's size is not used.
module _ (rest : ℕ → ℕ) (digit : ℕ → ℕ → ℕ) where
  digits-zero : (n b : ℕ) → digits rest digit n 0 b ≡ rest b
  digits-zero zero b = refl
  digits-zero (suc n) b = refl

  fuel_free : (n m a b : ℕ) → a ≤ n → a ≤ m → digits rest digit n a b ≡ digits rest digit m a b
  fuel_free n m zero b p q = digits-zero n b ∙ sym (digits-zero m b)
  fuel_free zero m (suc a) b p q = absurd (omega arith)
  fuel_free (suc n) zero (suc a) b p q = absurd (omega arith)
  fuel_free (suc n) (suc m) (suc a) b p q =
      let half : digits rest digit n (suc a / 2) (b / 2) ≡ digits rest digit m (suc a / 2) (b / 2) =
        fuel_free n m (suc a / 2) (b / 2) (omega arith) (omega arith) in
      omega (arith, half)

-- One digit of each operation.
pub bit_and-digit : (a b : ℕ) → bit_and a b ≡ bit_and (a / 2) (b / 2) * 2 + min (a % 2) (b % 2)
bit_and-digit zero b = omega (arith, bit_and-bitwise 0 b, bit_and-bitwise 0 (b / 2))
bit_and-digit (suc a) b = omega (
  arith,
  bit_and-bitwise (suc a) b,
  bit_and-bitwise (suc a / 2) (b / 2),
  fuel_free (λ b. zero) min a (suc a / 2) (suc a / 2) (b / 2) (omega arith) (omega arith),
)

pub bit_or-digit : (a b : ℕ) → bit_or a b ≡ bit_or (a / 2) (b / 2) * 2 + max (a % 2) (b % 2)
bit_or-digit zero b = omega (arith, bit_or-bitwise 0 b, bit_or-bitwise 0 (b / 2))
bit_or-digit (suc a) b = omega (
  arith,
  bit_or-bitwise (suc a) b,
  bit_or-bitwise (suc a / 2) (b / 2),
  fuel_free (λ b. b) max a (suc a / 2) (suc a / 2) (b / 2) (omega arith) (omega arith),
)

-- Two words with the same top bit meet.
pub bit_and-ne_zero :
    (k a b : ℕ) → 2 ^ k ≤ a → a < 2 ^ suc k → 2 ^ k ≤ b → b < 2 ^ suc k → bit_and a b ≢ 0
bit_and-ne_zero zero a b la ha lb hb e = omega (arith, bit_and-digit a b)
bit_and-ne_zero (suc k) a b la ha lb hb e =
    let half = pow-suc 2 k in
    let whole = pow-suc 2 (suc k) in
    bit_and-ne_zero k (a / 2) (b / 2) (omega (arith, half)) (omega (arith, half, whole))
      (omega (arith, half)) (omega (arith, half, whole)) (omega (arith, bit_and-digit a b))

bit_or-zero_fuel : (n a : ℕ) → a ≤ n → bit_or a 0 ≡ a
bit_or-zero_fuel n zero h = refl
bit_or-zero_fuel zero (suc a) h = absurd (omega arith)
bit_or-zero_fuel (suc n) (suc a) h =
    omega (arith, bit_or-digit (suc a) 0, bit_or-zero_fuel n (suc a / 2) (omega arith))

-- A word whose low bits are clear joins a word of low bits as a sum.
pub bit_or-shifted : (k a b : ℕ) → b < 2 ^ k → bit_or (a * 2 ^ k) b ≡ a * 2 ^ k + b
bit_or-shifted zero a b h =
    let none : b ≡ 0 = omega arith in
    rw none (omega (arith, bit_or-zero_fuel (a * 2 ^ 0) (a * 2 ^ 0) (omega arith)))
bit_or-shifted (suc k) a b h =
    let twice : a * 2 ^ suc k ≡ a * 2 ^ k * 2 =
      ap (λ (t : ℕ). a * t) (pow-suc 2 k) ∙ sym (mul_assoc a (2 ^ k) 2) in
    let half : a * 2 ^ suc k / 2 ≡ a * 2 ^ k = omega (arith, twice) in
    let digit : bit_or (a * 2 ^ suc k) b
        ≡ bit_or (a * 2 ^ k) (b / 2) * 2 + max (a * 2 ^ suc k % 2) (b % 2) =
      rw (← half) (bit_or-digit (a * 2 ^ suc k) b) in
    omega (arith, digit, twice, bit_or-shifted k a (b / 2) (omega (arith, pow-suc 2 k)))

bit_and-self_fuel : (n a : ℕ) → a ≤ n → bit_and a a ≡ a
bit_and-self_fuel n zero h = refl
bit_and-self_fuel zero (suc a) h = absurd (omega arith)
bit_and-self_fuel (suc n) (suc a) h =
    omega (arith, bit_and-digit (suc a) (suc a), bit_and-self_fuel n (suc a / 2) (omega arith))

pub bit_and_self : (a : ℕ) → bit_and a a ≡ a
bit_and_self a = bit_and-self_fuel a a (omega arith)

-- The digit law with the halves named.
pub digit_at :
    (a b x y : ℕ) → a / 2 ≡ x → b / 2 ≡ y → bit_and a b ≡ bit_and x y * 2 + min (a % 2) (b % 2)
digit_at a b x y p q = rw (← p, ← q) (bit_and-digit a b)

-- A positive number that shares no bit with its predecessor is a power of two, and conversely.
power_fuel : (n a : ℕ) → a ≤ n → 0 < a → bit_and a (a - 1) ≡ 0 → (k : ℕ) × (a ≡ 2 ^ k)
power_fuel zero a h pos e = absurd (omega arith)
power_fuel (suc n) a h pos e = elim (dec_le a 1) [
  | yes one ↦ (0, omega arith)
  | no more ↦ elim (ℕ_discrete (a % 2) 0) [
    | yes even ↦
        let step = digit_at a (a - 1) (a / 2) (a / 2 - 1) refl (omega arith) in
        let (k, p) = power_fuel n (a / 2) (omega arith) (omega arith) (omega (arith, step)) in
        (suc k, omega (arith, p, pow-suc 2 k))
    | no odd ↦
        let step = digit_at a (a - 1) (a / 2) (a / 2) refl (omega arith) in
        absurd (omega (arith, step, bit_and_self (a / 2)))
  ]
]

pub power_of_bit_and : (a : ℕ) → 0 < a → bit_and a (a - 1) ≡ 0 → (k : ℕ) × (a ≡ 2 ^ k)
power_of_bit_and a = power_fuel a a (omega arith)

pub bit_and-power : (k : ℕ) → bit_and (2 ^ k) (2 ^ k - 1) ≡ 0
bit_and-power zero = refl
bit_and-power (suc k) = omega (
  arith,
  digit_at (2 ^ suc k) (2 ^ suc k - 1) (2 ^ k) (2 ^ k - 1) (omega (arith, pow-suc 2 k))
      (omega (arith, pow-suc 2 k)),
  bit_and-power k,
  pow-suc 2 k,
)

-- All ones keep a word.
pub bit_and-ones : (w a : ℕ) → a < 2 ^ w → bit_and a (2 ^ w - 1) ≡ a
bit_and-ones zero a h = let none : a ≡ 0 = omega arith in rw none refl
bit_and-ones (suc w) a h =
    let whole = pow-suc 2 w in
    let half : (2 ^ suc w - 1) / 2 ≡ 2 ^ w - 1 = omega (arith, whole) in
    omega (
      arith,
      whole,
      bit_and-digit a (2 ^ suc w - 1),
      ap (bit_and (a / 2)) half,
      bit_and-ones w (a / 2) (omega (arith, whole)),
    )

-- A number and its negation share the lowest bit that is set.
pub bit_and-negation : (w k : ℕ) → 0 < k → k < 2 ^ w → 0 < bit_and k (2 ^ w - k)
bit_and-negation zero k pos small = absurd (omega arith)
bit_and-negation (suc w) k pos small =
    let whole = pow-suc 2 w in
    let digit = bit_and-digit k (2 ^ suc w - k) in
    elim (ℕ_discrete (k % 2) 0) [
      | no e ↦ let odd : k % 2 ≡ 1 = omega arith in omega (arith, digit, whole, odd)
      | yes even ↦
          let half : (2 ^ suc w - k) / 2 ≡ 2 ^ w - k / 2 = omega (arith, whole, even) in
          omega (
            arith,
            digit,
            ap (bit_and (k / 2)) half,
            bit_and-negation w (k / 2) (omega (arith, even)) (omega (arith, whole)),
          )
    ]
