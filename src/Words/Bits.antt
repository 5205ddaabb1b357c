-- ===== src/Words/Bits.antt =====
-- The binary operations that C++ applies to page-table entries and flags, as arithmetic on the low
-- bits: what `|` and `&` with a mask of one bit, and `|` of parts that share no bit, come to.
use native.Mathlib.Nat.{mul_assoc}
use Prim.Native.Nat.{digits, bitwise, bit_or-bitwise, bit_and-bitwise}
use hrafn_os.Prelude.{
  ℕ, zero, suc, ◌+◌, ◌*◌, ◌/◌, ◌%◌, ◌^◌, ◌≤◌, ◌<◌, min, max, ◌≡◌, refl, sym, ap, ◌∙◌, bit_and,
  bit_or, arith,
}

-- The count of digits to go is enough once it is the first number.
digits-enough :
    (z : ℕ → ℕ) (f : ℕ → ℕ → ℕ) (n m a b : ℕ) → a ≤ n → a ≤ m → digits z f n a b ≡ digits z f m a b
digits-enough z f zero zero a b p q = refl
digits-enough z f zero (suc m) zero b p q = refl
digits-enough z f zero (suc m) (suc a) b p q = absurd (omega arith)
digits-enough z f (suc n) zero zero b p q = refl
digits-enough z f (suc n) zero (suc a) b p q = absurd (omega arith)
digits-enough z f (suc n) (suc m) zero b p q = refl
digits-enough z f (suc n) (suc m) (suc a) b p q =
    ap (λ d. d * 2 + f (suc a % 2) (b % 2))
      (digits-enough z f n m (suc a / 2) (b / 2) (omega arith) (omega arith))

bitwise-step :
    (z : ℕ → ℕ) (f : ℕ → ℕ → ℕ) (a b : ℕ)
    → z b ≡ z (b / 2) * 2 + f 0 (b % 2)
    → bitwise z f a b ≡ bitwise z f (a / 2) (b / 2) * 2 + f (a % 2) (b % 2)
bitwise-step z f zero b h = h
bitwise-step z f (suc a) b h =
    ap (λ d. d * 2 + f (suc a % 2) (b % 2))
      (digits-enough z f a (suc a / 2) (suc a / 2) (b / 2) (omega arith) (omega arith))

bit_or-digits : (a b : ℕ) → bit_or a b ≡ bitwise (λ b. b) max a b
bit_or-digits a b = bit_or-bitwise a b

pub bit_or-step : (a b : ℕ) → bit_or a b ≡ bit_or (a / 2) (b / 2) * 2 + max (a % 2) (b % 2)
bit_or-step a b =
    bit_or-digits a b
    ∙ bitwise-step (λ b. b) max a b (omega arith)
    ∙ ap (λ d. d * 2 + max (a % 2) (b % 2)) (sym (bit_or-digits (a / 2) (b / 2)))

bit_and-digits : (a b : ℕ) → bit_and a b ≡ bitwise (λ b. 0) min a b
bit_and-digits a b = bit_and-bitwise a b

pub bit_and-step : (a b : ℕ) → bit_and a b ≡ bit_and (a / 2) (b / 2) * 2 + min (a % 2) (b % 2)
bit_and-step a b =
    bit_and-digits a b
    ∙ bitwise-step (λ b. 0) min a b (omega arith)
    ∙ ap (λ d. d * 2 + min (a % 2) (b % 2)) (sym (bit_and-digits (a / 2) (b / 2)))

or_zero : (n a : ℕ) → a ≤ n → bit_or a 0 ≡ a
or_zero zero zero l = bit_or-step 0 0
or_zero zero (suc a) l = absurd (omega arith)
or_zero (suc n) a l = bit_or-step a 0 ∙ (let h = or_zero n (a / 2) (omega arith) in omega arith)

and_zero : (n a : ℕ) → a ≤ n → bit_and a 0 ≡ 0
and_zero zero zero l = bit_and-step 0 0
and_zero zero (suc a) l = absurd (omega arith)
and_zero (suc n) a l = bit_and-step a 0 ∙ (let h = and_zero n (a / 2) (omega arith) in omega arith)

-- Parts that share no bit are added.
pub bit_or-add : (k a b : ℕ) → b < 2 ^ k → bit_or (a * 2 ^ k) b ≡ a * 2 ^ k + b
bit_or-add zero a b l =
    let q : b ≡ 0 = omega arith in rw q (or_zero (a * 1) (a * 1) (omega arith) ∙ omega arith)
bit_or-add (suc k) a b l =
    let h = bit_or-add k a (b / 2) (omega arith) in
    let double : 2 ^ suc k ≡ 2 ^ k * 2 = omega arith in
    let d : a * 2 ^ suc k ≡ a * 2 ^ k * 2 = ap (λ p. a * p) double ∙ sym (mul_assoc a (2 ^ k) 2) in
    let e : a * 2 ^ suc k / 2 ≡ a * 2 ^ k = omega arith in
    let m : a * 2 ^ suc k % 2 ≡ 0 = omega arith in
    bit_or-step (a * 2 ^ suc k) b ∙ rw (e, m, h) (omega arith)

pub bit_and-one : (a : ℕ) → bit_and a 1 ≡ a % 2
bit_and-one a = bit_and-step a 1 ∙ (let h = and_zero (a / 2) (a / 2) (omega arith) in omega arith)

pub bit_and-double : (a b : ℕ) → bit_and a (b * 2) ≡ bit_and (a / 2) b * 2
bit_and-double a b =
    bit_and-step a (b * 2) ∙ (let h : b * 2 / 2 ≡ b = omega arith in rw h (omega arith))

pub bit_and-four : (a : ℕ) → bit_and a 4 ≡ a / 4 % 2 * 4
bit_and-four a =
    bit_and-double a 2
    ∙ (let h = bit_and-double (a / 2) 1 in let k = bit_and-one (a / 2 / 2) in omega arith)

pub bit_or-one : (a : ℕ) → bit_or a 1 ≡ a / 2 * 2 + 1
bit_or-one a = bit_or-step a 1 ∙ (let h = or_zero (a / 2) (a / 2) (omega arith) in omega arith)

pub bit_or-four : (a : ℕ) → bit_or a 4 ≡ a / 8 * 8 + 4 + a % 4
bit_or-four a =
    let p = bit_or-step a 4 in
    let q = bit_or-step (a / 2) 2 in let r = bit_or-one (a / 2 / 2) in omega arith

pub bit_or-zero : (a : ℕ) → bit_or a 0 ≡ a
bit_or-zero a = or_zero a a (omega arith)
