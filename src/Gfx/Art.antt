-- ===== src/Gfx/Art.antt =====
-- The shapes that kernel/gfx.cpp draws pixel by pixel, and the back buffer. The glyphs of
-- kernel/font.cpp are an argument: row by row, 8 bits to a row.
use hrafn_os.Prelude.Int.{ℤ, pos, ◌+ℤ◌, wrap}
use hrafn_os.Memory.{write32}
use hrafn_os.Pmm.{Memory}
use hrafn_os.Fb.{Fb}
use hrafn_os.Gfx.{Surface, putpixel, rgb}
use hrafn_os.Prelude.{
  ℕ, zero, suc, ◌+◌, ◌*◌, ◌/◌, ◌^◌, not, List, [], ◌∷◌, bit_and, ◌==◌, if◌then◌else◌, get_or,
}

-- `GFX_BB_W`
abbrev pub gfx_bb_w : ℕ
gfx_bb_w = 1024

-- `gfx_backbuffer`, over the content of `g_backbuf`
pub backbuffer : Fb → (ℕ → ℕ) → Surface
backbuffer fb g_backbuf = record {
  pixels = g_backbuf;
  width = fb.g_width;
  height = fb.g_height;
  pitch = gfx_bb_w;
}

-- `for (; x < w; x++) dst[x] = src[x]`, with `n` pixels left
pub present_row : ℕ → ℕ → ℕ → (ℕ → ℕ) → ℕ → Memory → Memory
present_row zero x dst g_backbuf src m = m
present_row (suc n) x dst g_backbuf src m =
    present_row n (x + 1) dst g_backbuf src (write32 m (dst + 4 * x) (g_backbuf (src + x)))

-- the loop over the rows from `y` on, with `n` left
pub present_rows : ℕ → ℕ → Fb → (ℕ → ℕ) → Memory → Memory
present_rows zero y fb g_backbuf m = m
present_rows (suc n) y fb g_backbuf m =
    present_rows n (y + 1) fb g_backbuf
      (present_row fb.g_width 0 (fb.g_fb + y * fb.g_pitch) g_backbuf (y * gfx_bb_w) m)

pub present : Fb → (ℕ → ℕ) → Memory → Memory
present fb g_backbuf m = if fb.g_fb == 0 then m else present_rows fb.g_height 0 fb g_backbuf m

-- the rows of the arrow; a row stops where only zeros follow
abbrev pub arrow_rows : List (List ℕ)
arrow_rows =
    (1 ∷ [])
    ∷ (1 ∷ 1 ∷ [])
    ∷ (1 ∷ 2 ∷ 1 ∷ [])
    ∷ (1 ∷ 2 ∷ 2 ∷ 1 ∷ [])
    ∷ (1 ∷ 2 ∷ 2 ∷ 2 ∷ 1 ∷ [])
    ∷ (1 ∷ 2 ∷ 2 ∷ 2 ∷ 2 ∷ 1 ∷ [])
    ∷ (1 ∷ 2 ∷ 2 ∷ 2 ∷ 2 ∷ 2 ∷ 1 ∷ [])
    ∷ (1 ∷ 2 ∷ 2 ∷ 2 ∷ 2 ∷ 2 ∷ 2 ∷ 1 ∷ [])
    ∷ (1 ∷ 2 ∷ 2 ∷ 2 ∷ 2 ∷ 2 ∷ 2 ∷ 2 ∷ 1 ∷ [])
    ∷ (1 ∷ 2 ∷ 2 ∷ 2 ∷ 2 ∷ 2 ∷ 2 ∷ 2 ∷ 2 ∷ 1 ∷ [])
    ∷ (1 ∷ 2 ∷ 2 ∷ 2 ∷ 2 ∷ 2 ∷ 1 ∷ 1 ∷ 1 ∷ 1 ∷ 1 ∷ [])
    ∷ (1 ∷ 2 ∷ 2 ∷ 1 ∷ 2 ∷ 2 ∷ 1 ∷ [])
    ∷ (1 ∷ 2 ∷ 1 ∷ 0 ∷ 1 ∷ 2 ∷ 2 ∷ 1 ∷ [])
    ∷ (1 ∷ 1 ∷ 0 ∷ 0 ∷ 1 ∷ 2 ∷ 2 ∷ 1 ∷ [])
    ∷ (1 ∷ 0 ∷ 0 ∷ 0 ∷ 0 ∷ 1 ∷ 2 ∷ 2 ∷ 1 ∷ [])
    ∷ (0 ∷ 0 ∷ 0 ∷ 0 ∷ 0 ∷ 1 ∷ 2 ∷ 2 ∷ 1 ∷ [])
    ∷ (0 ∷ 0 ∷ 0 ∷ 0 ∷ 0 ∷ 0 ∷ 1 ∷ 1 ∷ 1 ∷ [])
    ∷ []

-- one pixel of the arrow: 1 is black, 2 is white, 0 is left alone
pub arrow_pixel : ℕ → ℤ → ℤ → Surface → Surface
arrow_pixel p x y s =
    if p == 1
    then putpixel x y (rgb 0 0 0) s
    else if p == 2
    then putpixel x y (rgb 255 255 255) s
    else s

-- a row of the arrow from column `col` on
pub cursor_row : List ℕ → ℕ → ℤ → ℤ → Surface → Surface
cursor_row [] col x y s = s
cursor_row (p ∷ ps) col x y s =
    cursor_row ps (col + 1) x y (arrow_pixel p (wrap (x +ℤ pos col)) y s)

pub cursor_rows : List (List ℕ) → ℕ → ℤ → ℤ → Surface → Surface
cursor_rows [] row x y s = s
cursor_rows (r ∷ rs) row x y s =
    cursor_rows rs (row + 1) x y (cursor_row r 0 x (wrap (y +ℤ pos row)) s)

pub cursor : ℤ → ℤ → Surface → Surface
cursor x y s = cursor_rows arrow_rows 0 x y s

-- FONT_W and FONT_H
abbrev pub font_w : ℕ
font_w = 8

abbrev pub font_h : ℕ
font_h = 16

-- the columns of a glyph's row, from `col` on with `n` left
pub char_row : ℕ → ℕ → ℕ → ℤ → ℤ → ℕ → Surface → Surface
char_row zero col bits x y color s = s
char_row (suc n) col bits x y color s = char_row n (col + 1) bits x y color (
    if not (bit_and bits (0x80 / 2 ^ col) == 0)
    then putpixel (wrap (x +ℤ pos col)) y color s
    else s)

pub char_rows : ℕ → ℕ → List ℕ → ℤ → ℤ → ℕ → Surface → Surface
char_rows zero row glyph x y color s = s
char_rows (suc n) row glyph x y color s =
    char_rows n (row + 1) glyph x y color
      (char_row font_w 0 (get_or glyph row 0) x (wrap (y +ℤ pos row)) color s)

pub char : (ℕ → List ℕ) → ℤ → ℤ → ℕ → ℕ → Surface → Surface
char font_glyph x y c color s = char_rows font_h 0 (font_glyph c) x y color s

-- `x` is where a line starts, `cx` and `cy` where the next character goes
pub draw_text : (ℕ → List ℕ) → ℤ → ℤ → ℤ → List ℕ → ℕ → Surface → Surface
draw_text font_glyph x cx cy [] color s = s
draw_text font_glyph x cx cy (c ∷ str) color s =
    let down = draw_text font_glyph x x (wrap (cy +ℤ pos font_h)) str color s in
    let onward =
      draw_text font_glyph x (wrap (cx +ℤ pos font_w)) cy str color
        (char font_glyph cx cy c color s) in
    if c == 10 then down else onward

pub text : (ℕ → List ℕ) → ℤ → ℤ → List ℕ → ℕ → Surface → Surface
text font_glyph x y str color s = draw_text font_glyph x x y str color s
