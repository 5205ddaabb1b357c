-- ===== src/Bitmap.antt =====
-- A bitmap of one bit per object, eight to a byte: the bit operations that kernel/pmm.cpp applies to
-- its frame bitmap and kernel/munin.cpp to g_block_used.
pub mod Laws
use hrafn_os.Prelude.{ℕ, ◌-◌, ◌/◌, ◌%◌, ◌^◌, Bool, not, List, bit_and, bit_or, ◌==◌, get_or, set}

-- `1u << k`
abbrev pub shl_one : ℕ → ℕ
shl_one k = 2 ^ k

-- `bitmap[f / 8] & (1u << (f % 8))`, read as a truth value
unfoldable pub bitmap_test : List ℕ → ℕ → Bool
bitmap_test m f = not (bit_and (get_or m (f / 8) 0) (shl_one (f % 8)) == 0)

-- `bitmap[f / 8] |= (uint8_t)(1u << (f % 8))`
unfoldable pub bitmap_set : List ℕ → ℕ → List ℕ
bitmap_set m f = set m (f / 8) (bit_or (get_or m (f / 8) 0) (shl_one (f % 8)))

-- `bitmap[f / 8] &= (uint8_t)~(1u << (f % 8))`
unfoldable pub bitmap_clear : List ℕ → ℕ → List ℕ
bitmap_clear m f = set m (f / 8) (bit_and (get_or m (f / 8) 0) (255 - shl_one (f % 8)))
