-- ===== src/Console.antt =====
-- kernel/console.cpp: the cursor and the escape machine of the framebuffer console. The glyphs painted,
-- the fills and the scrolls of the framebuffer are a list of calls, in order. The flag g_ready, which only its reader sees, is left out.
pub mod Cursor
use hrafn_os.Words.{u32}
use hrafn_os.Prelude.{
  ℕ, zero, suc, ◌+◌, ◌-◌, ◌*◌, ◌/◌, ◌%◌, ◌^◌, ◌≤◌, ◌<◌, min, max, ◌≡◌, ◌≢◌, refl, sym, ap, ◌∙◌, ◌↔◌,
  Bool, true, false, not, ◌&&◌, ◌||◌, inl, inr, ◌⊎◌, List, [], ◌∷◌, ◌++◌, map, Option, none, some,
  bit_and, bit_or, bit_xor, arith, ltb, leb, ◌==◌, ==_iff, ltb→lt, lt→ltb, leb→le, tests,
  Bool-cases, Option-cases, if◌then◌else◌, get_or, get_elem?, set, take, drop, replicate, length,
  length-set, length-append, length-map, length-take, length-drop, length-replicate,
  take-append-drop, get_elem?-set_self, get_elem?-set_ne, get_or-set_self, get_or-set_ne,
  get_or-beyond, set-beyond, get_or-replicate, get_or-append_left, get_or-append_self,
  get_or-drop_one, take-beyond,
}

pub data Draw : Type 0 where
  glyph : ℕ → ℕ → ℕ → Draw  -- `draw_glyph(c, col, row)`
  fill : Draw  -- `fb_fill(g_bg)`
  scroll_up : Draw  -- `fb_scroll_up(FONT_H, g_bg)`

pub data ConsoleState : Type 0 where
  normal esc csi : ConsoleState

-- the initial `g_state`
abbrev pub start_state : ConsoleState
start_state = normal

pub record Console : Type 0 where
  pub cols : ℕ
  pub rows : ℕ
  pub col : ℕ
  pub row : ℕ
  pub state : ConsoleState
  pub param : ℕ
  pub have_param : Bool

-- `console_init` on a screen of `width` by `height` pixels, with a font of `font_w` by `font_h`
unfoldable pub console_init : ℕ → ℕ → ℕ → ℕ → Console → Console × List Draw
console_init width height font_w font_h k =
    (record k { cols = width / font_w; rows = height / font_h; col = 0; row = 0 }, fill ∷ [])

unfoldable pub feed_line : Console → Console × List Draw
feed_line k =
    if leb k.rows (k.row + 1)
    then (record k { col = 0 }, scroll_up ∷ [])
    else (record k { col = 0; row = k.row + 1 }, [])

unfoldable pub console_clear : Console → Console × List Draw
console_clear k = (record k { col = 0; row = 0 }, fill ∷ [])

-- the loop of a tab, up to column `next`; every round takes one column
unfoldable pub fill_to : ℕ → ℕ → Console → Console × List Draw
fill_to zero next k = (k, [])
fill_to (suc fuel) next k =
    let (k', ds) = fill_to fuel next (record k { col = k.col + 1 }) in
    if ltb k.col next && ltb k.col k.cols then (k', glyph 32 k.col k.row ∷ ds) else (k, [])

-- `if (g_col >= g_cols) newline()`, behind the calls `ds`
unfoldable pub wrap_line : Console × List Draw → Console × List Draw
wrap_line (k, ds) =
    let (k', es) = feed_line k in if leb k.cols k.col then (k', ds ++ es) else (k, ds)

-- a character after ESC [
unfoldable pub console_csi : ℕ → Console → Console × List Draw
console_csi c k =
    let (k', ds) = console_clear k in
    if leb 48 c && leb c 57
    then (record k { param = u32 (k.param * 10 + (c - 48)); have_param = true }, [])
    else if c == 74
    then (if not k.have_param || (k.param == 2)
        then (record k' { state = normal }, ds)
        else (record k { state = normal }, []))
    else if c == 72
    then (record k { col = 0; row = 0; state = normal }, [])
    else (record k { state = normal }, [])

-- a character in the state ST_NORMAL
unfoldable pub console_normal : ℕ → Console → Console × List Draw
console_normal c k =
    if c == 27
    then (record k { state = esc }, [])
    else if c == 10
    then feed_line k
    else if c == 13
    then (record k { col = 0 }, [])
    else if c == 8
    then (if ltb 0 k.col then (record k { col = k.col - 1 }, []) else (k, []))
    else if c == 9
    then wrap_line (fill_to 8 ((k.col + 8) / 8 * 8) k)
    else wrap_line (record k { col = k.col + 1 }, glyph c k.col k.row ∷ [])

-- `console_putchar` on a byte
unfoldable pub console_putchar : ℕ → Console → Console × List Draw
console_putchar c k = elim k.state [
  | esc ↦
      if c == 91
      then (record k { state = csi; param = 0; have_param = false }, [])
      else (record k { state = normal }, [])
  | csi ↦ console_csi c k
  | normal ↦ console_normal c k
]

-- `console_write` on the bytes of a string
pub console_write : List ℕ → Console → Console × List Draw
console_write [] k = (k, [])
console_write (c ∷ cs) k =
    let (k1, ds) = console_putchar c k in let (k2, es) = console_write cs k1 in (k2, ds ++ es)
