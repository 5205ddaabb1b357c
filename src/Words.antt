-- ===== src/Words.antt =====
-- Fixed-width arithmetic of the kernel's C++: `uint64_t` and `uint32_t` values are natural numbers
-- below 2 ^ 64 and 2 ^ 32, and every operation that can wrap is written with its modulus.
pub mod Bits
use hrafn_os.Prelude.{ℕ, ◌+◌, ◌-◌, ◌*◌, ◌/◌, ◌%◌, ◌^◌}

abbrev pub u64 : ℕ → ℕ
u64 n = n % 2 ^ 64

abbrev pub u32 : ℕ → ℕ
u32 n = n % 2 ^ 32

-- `a - b` on `uint64_t`
abbrev pub sub64 : ℕ → ℕ → ℕ
sub64 a b = (a + 2 ^ 64 - b) % 2 ^ 64

-- `n & ~(2^k - 1)`: the low `k` bits cleared
abbrev pub align_down : ℕ → ℕ → ℕ
align_down n k = n / 2 ^ k * 2 ^ k
