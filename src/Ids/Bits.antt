-- ===== src/Ids/Bits.antt =====
-- `|` of numbers whose binary digits do not overlap is their sum.
use Prim.Native.Nat.{digits, bit_or, bit_or-bitwise}
use ppchat.Prelude.{ℕ, zero, suc, ◌+◌, ◌*◌, ◌/◌, ◌%◌, ◌^◌, ◌≤◌, ◌<◌, ◌≡◌, refl, arith, max}

-- Any count of digits that is large enough gives the same number.
digits_enough :
    (n m a b : ℕ) → a ≤ n → a ≤ m → digits (λ y. y) max n a b ≡ digits (λ y. y) max m a b
digits_enough zero zero a b an am = refl
digits_enough zero (suc m) zero b an am = refl
digits_enough zero (suc m) (suc a) b an am = absurd (omega arith)
digits_enough (suc n) zero zero b an am = refl
digits_enough (suc n) zero (suc a) b an am = absurd (omega arith)
digits_enough (suc n) (suc m) zero b an am = refl
digits_enough (suc n) (suc m) (suc a) b an am =
    rw (digits_enough n m (suc a / 2) (b / 2) (omega arith) (omega arith)) refl

bit_or-digits : (a b : ℕ) → bit_or a b ≡ digits (λ y. y) max a a b
bit_or-digits a b = bit_or-bitwise a b

bit_or-half : (a b : ℕ) → bit_or a b ≡ bit_or (a / 2) (b / 2) * 2 + max (a % 2) (b % 2)
bit_or-half zero b = rw (bit_or-digits zero b, bit_or-digits (zero / 2) (b / 2)) (omega arith)
bit_or-half (suc a) b =
    rw
      (
        bit_or-digits (suc a) b,
        bit_or-digits (suc a / 2) (b / 2),
        digits_enough a (suc a / 2) (suc a / 2) (b / 2) (omega arith) (omega arith),
      )
      refl

abbrev shift : ℕ → ℕ → ℕ
shift zero a = a
shift (suc k) a = 2 * shift k a

digits-zero : (n a : ℕ) → a ≤ n → digits (λ y. y) max n a 0 ≡ a
digits-zero zero zero an = refl
digits-zero zero (suc a) an = absurd (omega arith)
digits-zero (suc n) zero an = refl
digits-zero (suc n) (suc a) an = omega (arith, digits-zero n (suc a / 2) (omega arith))

shift-bit_or : (k a b : ℕ) → b < shift k 1 → bit_or (shift k a) b ≡ shift k a + b
shift-bit_or zero a b below =
    let none_left : b ≡ 0 = omega arith in
    rw (none_left, bit_or-digits a 0) (omega (arith, digits-zero a a (omega arith)))
shift-bit_or (suc k) a b below =
    let half : (2 * shift k a) / 2 ≡ shift k a = omega arith in
    rw (bit_or-half (2 * shift k a) b, half) (omega (arith, shift-bit_or k a (b / 2) (omega arith)))

pub bit_or-12 : (a b : ℕ) → b < 2 ^ 12 → bit_or (a * 2 ^ 12) b ≡ a * 2 ^ 12 + b
bit_or-12 a b below =
    let shifted : a * 2 ^ 12 ≡ shift 12 a = omega arith in rw shifted (shift-bit_or 12 a b below)

pub bit_or-22 : (a b : ℕ) → b < 2 ^ 22 → bit_or (a * 2 ^ 22) b ≡ a * 2 ^ 22 + b
bit_or-22 a b below =
    let shifted : a * 2 ^ 22 ≡ shift 22 a = omega arith in rw shifted (shift-bit_or 22 a b below)
