-- ===== src/Bitmap/Laws.antt =====
-- The laws of the bitmap operations at every index: a byte has few values, so its part is checked
-- value by value, and the array part follows from the laws of `set`.
use hrafn_os.Prelude.{
  holds_under, holds_under-at, ℕ, zero, suc, ◌-◌, ◌/◌, ◌%◌, ◌<◌, ◌≡◌, ◌≢◌, refl, Bool, true, false,
  not, ◌&&◌, ◌||◌, inl, inr, List, bit_and, bit_or, arith, ltb, ◌==◌, ltb→lt, Bool-cases, get_or,
  set, length, length-set, get_or-set_self, get_or-set_ne, set-beyond, replicate, get_or-replicate,
}
use hrafn_os.Bitmap.{shl_one, bitmap_test, bitmap_set, bitmap_clear}

abbrev bit : ℕ → ℕ → Bool
bit b k = not (bit_and b (shl_one k) == 0)

same : Bool → Bool → Bool
same true b = b
same false b = not b

eq_of_same : (a b : Bool) → same a b ≡ true → a ≡ b
unfolding same
eq_of_same a b h = ground arith

-- The facts about one byte `b`, a written bit `k` and a read bit `j`.
byte_row : ℕ → ℕ → ℕ → Bool
byte_row b k j =
    same (bit (bit_or b (shl_one k)) j) ((k == j) || bit b j)
    && (same (bit (bit_and b (255 - shl_one k)) j) (not (k == j) && bit b j)
        && (ltb (bit_or b (shl_one k)) 256 && ltb (bit_and b (255 - shl_one k)) 256))

byte_table : holds_under (λ b. holds_under (λ k. holds_under (λ j. byte_row b k j) 8) 8) 256 ≡ true
unfolding holds_under byte_row same
byte_table = refl

byte_row-true : (b k j : ℕ) → b < 256 → k < 8 → j < 8 → byte_row b k j ≡ true
byte_row-true b k j hb hk hj =
    holds_under-at (λ j. byte_row b k j)
      (holds_under-at (λ k. holds_under (λ j. byte_row b k j) 8)
        (holds_under-at (λ b. holds_under (λ k. holds_under (λ j. byte_row b k j) 8) 8) byte_table
          hb)
        hk)
      hj

module _ (b k j : ℕ) (hb : b < 256) (hk : k < 8) (hj : j < 8) where
  bit-or : bit (bit_or b (shl_one k)) j ≡ ((k == j) || bit b j)
  unfolding byte_row
  bit-or = eq_of_same _ _ (ground (arith, byte_row-true b k j hb hk hj))

  bit-and_not : bit (bit_and b (255 - shl_one k)) j ≡ (not (k == j) && bit b j)
  unfolding byte_row
  bit-and_not = eq_of_same _ _ (ground (arith, byte_row-true b k j hb hk hj))

  bit_or-lt : bit_or b (shl_one k) < 256
  unfolding byte_row
  bit_or-lt = ltb→lt _ _ (ground (arith, byte_row-true b k j hb hk hj))

  bit_and-lt : bit_and b (255 - shl_one k) < 256
  unfolding byte_row
  bit_and-lt = ltb→lt _ _ (ground (arith, byte_row-true b k j hb hk hj))

-- Every entry of the array is a byte.
abbrev pub IsBytes : List ℕ → Type 0
IsBytes m = (i : ℕ) → get_or m i 0 < 256

IsBytes-write : (m : List ℕ) (i v : ℕ) → IsBytes m → v < 256 → IsBytes (set m i v)
IsBytes-write m i v h hv j = elim (Bool-cases (i == j)) [
  | inl e ↦ elim (Bool-cases (ltb i (length m))) [
    | inl l ↦ let e' : i ≡ j = ground arith in rw (← e', get_or-set_self m i v 0 (ltb→lt _ _ l)) hv
    | inr l ↦ rw (set-beyond m i v (ground arith)) (h j)
  ]
  | inr e ↦ rw (get_or-set_ne m i j v 0 (ground arith)) (h j)
]

pub bitmap_set-IsBytes : (m : List ℕ) (f : ℕ) → IsBytes m → IsBytes (bitmap_set m f)
unfolding bitmap_set
bitmap_set-IsBytes m f h =
    IsBytes-write m (f / 8) _ h (bit_or-lt _ (f % 8) 0 (h (f / 8)) (omega arith) (omega arith))

pub bitmap_clear-IsBytes : (m : List ℕ) (f : ℕ) → IsBytes m → IsBytes (bitmap_clear m f)
unfolding bitmap_clear
bitmap_clear-IsBytes m f h =
    IsBytes-write m (f / 8) _ h (bit_and-lt _ (f % 8) 0 (h (f / 8)) (omega arith) (omega arith))

pub length-bitmap_set : (m : List ℕ) (f : ℕ) → length (bitmap_set m f) ≡ length m
unfolding bitmap_set
length-bitmap_set m f = length-set m (f / 8) _

pub length-bitmap_clear : (m : List ℕ) (f : ℕ) → length (bitmap_clear m f) ≡ length m
unfolding bitmap_clear
length-bitmap_clear m f = length-set m (f / 8) _

same_bit : (f g : ℕ) → f / 8 ≡ g / 8 → (f % 8 == g % 8) ≡ (f == g)
same_bit f g e = ground arith

other_byte : (f g : ℕ) → f / 8 ≢ g / 8 → (f == g) ≡ false
other_byte f g ne = ground arith

module _ (m : List ℕ) (f g : ℕ) (h : IsBytes m) (room : f / 8 < length m) where
  -- Setting bit `f` makes it read as used and leaves every other bit as it was.
  pub bitmap_test-set : bitmap_test (bitmap_set m f) g ≡ ((f == g) || bitmap_test m g)
  unfolding bitmap_test bitmap_set
  bitmap_test-set = elim (Bool-cases (f / 8 == g / 8)) [
    | inl e ↦
        let e' : f / 8 ≡ g / 8 = ground arith in
        rw (
          ← e',
          get_or-set_self m (f / 8) (bit_or (get_or m (f / 8) 0) (shl_one (f % 8))) 0 room,
          bit-or (get_or m (f / 8) 0) (f % 8) (g % 8) (h (f / 8)) (omega arith) (omega arith),
          same_bit f g e',
        )
    | inr e ↦
        let ne : f / 8 ≢ g / 8 = ground arith in
        rw (
          get_or-set_ne m (f / 8) (g / 8) (bit_or (get_or m (f / 8) 0) (shl_one (f % 8))) 0 ne,
          other_byte f g ne,
        )
  ]

  -- Clearing bit `f` makes it read as free and leaves every other bit as it was.
  pub bitmap_test-clear : bitmap_test (bitmap_clear m f) g ≡ (not (f == g) && bitmap_test m g)
  unfolding bitmap_test bitmap_clear
  bitmap_test-clear = elim (Bool-cases (f / 8 == g / 8)) [
    | inl e ↦
        let e' : f / 8 ≡ g / 8 = ground arith in
        rw (
          ← e',
          get_or-set_self m (f / 8) (bit_and (get_or m (f / 8) 0) (255 - shl_one (f % 8))) 0 room,
          bit-and_not (get_or m (f / 8) 0) (f % 8) (g % 8) (h (f / 8)) (omega arith) (omega arith),
          same_bit f g e',
        )
    | inr e ↦
        let ne : f / 8 ≢ g / 8 = ground arith in
        rw (
          get_or-set_ne m (f / 8) (g / 8) (bit_and (get_or m (f / 8) 0) (255 - shl_one (f % 8))) 0
              ne,
          other_byte f g ne,
        )
  ]

full_byte : holds_under (λ k. bit 0xff k) 8 ≡ true
unfolding holds_under
full_byte = refl

-- A bitmap filled with 0xFF reads as used at each of its bits.
pub bitmap_test-replicate : (n f : ℕ) → f / 8 < n → bitmap_test (replicate n 0xff) f ≡ true
unfolding bitmap_test
bitmap_test-replicate n f h =
    rw (get_or-replicate {A = ℕ} n (f / 8) 0xff 0 h)
      (holds_under-at (λ k. bit 0xff k) {k = f % 8} full_byte (omega arith))

pub IsBytes-replicate : (n v : ℕ) → v < 256 → IsBytes (replicate n v)
IsBytes-replicate zero v h i = omega arith
IsBytes-replicate (suc n) v h zero = h
IsBytes-replicate (suc n) v h (suc i) = IsBytes-replicate n v h i
