-- ===== src/Kbd/Keys.antt =====
-- The keys of kernel/kbd.cpp by the characters that they type.
use hrafn_os.Kbd.{map_lower, map_upper, is_shift, normalize}
use hrafn_os.Kbd.Scancodes.{plain}
use hrafn_os.Prelude.{
  ℕ, suc, Bool, not, ◌&&◌, ◌||◌, List, [], ◌∷◌, ltb, ◌==◌, if◌then◌else◌, get_or,
}

-- where a character stands in a table, or the table's length
place_of : ℕ → List ℕ → ℕ
place_of c [] = 0
place_of c (x ∷ xs) = let rest = suc (place_of c xs) in if x == c then 0 else rest

-- The table's key for a character is a key and not a shift key.
abbrev found_at : List ℕ → ℕ → ℕ → Bool
found_at t sc c = ltb sc 128 && (not (is_shift sc) && (normalize (get_or t sc 0) == c))

abbrev key_row : ℕ → Bool
key_row c =
    not (plain c)
    || (found_at map_lower (place_of c map_lower) c || found_at map_upper (place_of c map_upper) c)
