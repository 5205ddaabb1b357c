-- ===== src/Gfx.antt =====
-- kernel/gfx.cpp: drawing on a surface of pixels. `pixels` is indexed as in the source, row by row with
-- `pitch` pixels to a row. Coordinates are C++ `int`s, here integers whose sums, products and casts
-- `wrap` to 32 bits; where a sum overflows, the source's behaviour is undefined, and the theorems ask
-- that none does. A loop recurs on the rounds left; `gfx_line` takes fuel, and Gfx/Line proves how
-- much is enough.
pub mod Art
pub mod Rect
pub mod Toward
pub mod Width
pub mod Line
use hrafn_os.Prelude.Int.{ℤ, pos, negsuc, pos_part, neg_part, ◌+ℤ◌, ◌-ℤ◌, ◌*ℤ◌, ltb_ℤ, wrap}
use hrafn_os.Prelude.{
  ◌>>=◌, bind-some, ℕ, zero, suc, ◌+◌, ◌-◌, ◌*◌, ◌/◌, ◌%◌, ◌^◌, ◌≤◌, ◌<◌, min, max, ◌≡◌, ◌≢◌, refl,
  sym, ap, ◌∙◌, ◌↔◌, Bool, true, false, not, ◌&&◌, ◌||◌, inl, inr, ◌⊎◌, List, [], ◌∷◌, ◌++◌, map,
  Option, none, some, bit_and, bit_or, bit_xor, arith, ltb, leb, ◌==◌, ==_iff, ltb→lt, lt→ltb,
  leb→le, tests, Bool-cases, Option-cases, if◌then◌else◌, get_or, get_elem?, set, take, drop,
  replicate, length, length-set, length-append, length-map, length-take, length-drop,
  length-replicate, take-append-drop, get_elem?-set_self, get_elem?-set_ne, get_or-set_self,
  get_or-set_ne, get_or-beyond, set-beyond, get_or-replicate, get_or-append_left,
  get_or-append_self, get_or-drop_one, take-beyond,
}

pub record Surface : Type 0 where
  pub pixels : ℕ → ℕ
  pub width : ℕ
  pub height : ℕ
  pub pitch : ℕ

-- `RGB`
pub rgb : ℕ → ℕ → ℕ → ℕ
rgb r g b = bit_or (bit_or (r * 2 ^ 16) (g * 2 ^ 8)) b

-- `pixels[a] = color`
abbrev pub paint : ℕ → ℕ → (ℕ → ℕ) → ℕ → ℕ
paint a color p x = if x == a then color else p x

unfoldable pub putpixel : ℤ → ℤ → ℕ → Surface → Surface
putpixel x y color s =
    if ltb_ℤ x (pos 0)
      || (ltb_ℤ y (pos 0)
          || (not (ltb_ℤ x (wrap (pos s.width))) || not (ltb_ℤ y (wrap (pos s.height)))))
    then s
    else record s { pixels = paint (pos_part y * s.pitch + pos_part x) color s.pixels }

-- `for (; x < x1; x++) row[x] = color`, with `n` pixels left and the row at `row`
unfoldable pub fill_row : ℕ → ℕ → ℕ → ℕ → (ℕ → ℕ) → ℕ → ℕ
fill_row zero x row color p = p
fill_row (suc n) x row color p = fill_row n (x + 1) row color (paint (row + x) color p)

-- the loop over the rows from `y` on, each from `x0` for `w` pixels
unfoldable pub fill_rows : ℕ → ℕ → ℕ → ℕ → ℕ → ℕ → (ℕ → ℕ) → ℕ → ℕ
fill_rows zero y x0 w pitch color p = p
fill_rows (suc n) y x0 w pitch color p =
    fill_rows n (y + 1) x0 w pitch color (fill_row w x0 (y * pitch) color p)

pub clear : ℕ → Surface → Surface
clear color s = record s { pixels = fill_rows s.height 0 0 s.width s.pitch color s.pixels }

-- `if (a > hi) a = hi`
abbrev pub at_most : ℤ → ℤ → ℤ
at_most a hi = if ltb_ℤ hi a then hi else a

-- Below 0 the start is 0, so the counters of the loops are numbers.
unfoldable pub fill_rect : ℤ → ℤ → ℤ → ℤ → ℕ → Surface → Surface
fill_rect x y w h color s =
    let x0 = pos_part x in
    let y0 = pos_part y in
    let x1 = pos_part (at_most (wrap (x +ℤ w)) (wrap (pos s.width))) in
    let y1 = pos_part (at_most (wrap (y +ℤ h)) (wrap (pos s.height))) in
    if not (ltb_ℤ (pos 0) w) || not (ltb_ℤ (pos 0) h)
    then s
    else record s { pixels = fill_rows (y1 - y0) y0 x0 (x1 - x0) s.pitch color s.pixels }

pub hline : ℤ → ℤ → ℤ → ℕ → Surface → Surface
hline x y w color s = fill_rect x y w (pos 1) color s

pub vline : ℤ → ℤ → ℤ → ℕ → Surface → Surface
vline x y h color s = fill_rect x y (pos 1) h color s

pub rect : ℤ → ℤ → ℤ → ℤ → ℕ → Surface → Surface
rect x y w h color s =
    if not (ltb_ℤ (pos 0) w) || not (ltb_ℤ (pos 0) h)
    then s
    else let s1 = hline x y w color s in
      let s2 = hline x (wrap (wrap (y +ℤ h) -ℤ pos 1)) w color s1 in
      let s3 = vline x y h color s2 in vline (wrap (wrap (x +ℤ w) -ℤ pos 1)) y h color s3

abbrev pub one_step : ℤ → ℤ → ℤ
one_step a b = if ltb_ℤ a b then pos 1 else negsuc 0

abbrev pub distance : ℤ → ℤ → ℤ
distance a b = let d = wrap (b -ℤ a) in if ltb_ℤ d (pos 0) then wrap (pos 0 -ℤ d) else d

abbrev equal_ℤ : ℤ → ℤ → Bool
equal_ℤ a b = not (ltb_ℤ a b) && not (ltb_ℤ b a)

-- the loop of `gfx_line`; `none` when the fuel runs out
unfoldable pub line_from : ℕ → ℤ → ℤ → ℤ → ℤ → ℤ → ℤ → ℤ → ℤ → ℤ → ℕ → Surface → Option Surface
line_from zero dx dy sx sy err x0 y0 x1 y1 color s = none
line_from (suc fuel) dx dy sx sy err x0 y0 x1 y1 color s =
    let s' = putpixel x0 y0 color s in
    let e2 = wrap (pos 2 *ℤ err) in
    let go_x = ltb_ℤ (wrap (pos 0 -ℤ dy)) e2 in
    let go_y = ltb_ℤ e2 dx in
    let err1 = if go_x then wrap (err -ℤ dy) else err in
    let err2 = if go_y then wrap (err1 +ℤ dx) else err1 in
    let onward =
      line_from fuel dx dy sx sy err2 (if go_x then wrap (x0 +ℤ sx) else x0)
        (if go_y then wrap (y0 +ℤ sy) else y0) x1 y1 color s' in
    if equal_ℤ x0 x1 && equal_ℤ y0 y1 then some s' else onward

unfoldable pub line : ℕ → ℤ → ℤ → ℤ → ℤ → ℕ → Surface → Option Surface
line fuel x0 y0 x1 y1 color s =
    let dx = distance x0 x1 in
    let dy = distance y0 y1 in
    line_from fuel dx dy (one_step x0 x1) (one_step y0 y1) (wrap (dx -ℤ dy)) x0 y0 x1 y1 color s
