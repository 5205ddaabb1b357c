-- ===== src/Term.antt =====
-- kernel/term.cpp: the 64 by 20 terminal grid and its escape-sequence machine. Drawing is left out.
pub mod Cursor
use hrafn_os.Words.{u32}
use hrafn_os.Prelude.{
  ℕ, zero, suc, ◌+◌, ◌-◌, ◌*◌, ◌/◌, ◌%◌, ◌^◌, ◌≤◌, ◌<◌, min, max, ◌≡◌, ◌≢◌, refl, sym, ap, ◌∙◌, ◌↔◌,
  Bool, true, false, not, ◌&&◌, ◌||◌, inl, inr, ◌⊎◌, List, [], ◌∷◌, ◌++◌, map, Option, none, some,
  bit_and, bit_or, bit_xor, arith, ltb, leb, ◌==◌, ==_iff, ltb→lt, lt→ltb, leb→le, tests,
  Bool-cases, Option-cases, if◌then◌else◌, get_or, get_elem?, set, take, drop, replicate, length,
  length-set, length-append, length-map, length-take, length-drop, length-replicate,
  take-append-drop, get_elem?-set_self, get_elem?-set_ne, get_or-set_self, get_or-set_ne,
  get_or-beyond, set-beyond, get_or-replicate,
}

abbrev pub term_cols : ℕ
term_cols = 64

abbrev pub term_rows : ℕ
term_rows = 20

abbrev pub space : ℕ
space = 32

pub data TState : Type 0 where
  normal esc csi : TState

-- `grid r c` is `g_grid[r][c]`.
pub record Term : Type 0 where
  pub grid : ℕ → ℕ → ℕ
  pub col : ℕ
  pub row : ℕ
  pub state : TState
  pub param : ℕ
  pub have_param : Bool

abbrev pub put : ℕ → ℕ → ℕ → (ℕ → ℕ → ℕ) → ℕ → ℕ → ℕ
put r c v g r' c' = if (r == r') && (c == c') then v else g r' c'

-- `term_clear`; `term_init` does the same
unfoldable pub clear : Term → Term
clear t = record t { grid = λ _ _. space; col = 0; row = 0 }

unfoldable pub newline : Term → Term
newline t =
    if leb term_rows (t.row + 1)
    then record t {
      col = 0;
      grid = λ r c. if ltb r (term_rows - 1) then t.grid (r + 1) c else space;
    }
    else record t { col = 0; row = t.row + 1 }

-- the loop of a tab, up to column `n`; every round takes one column
unfoldable pub tab_to : ℕ → ℕ → Term → Term
tab_to zero n t = t
tab_to (suc fuel) n t =
    let rest = tab_to fuel n (record t { grid = put t.row t.col space t.grid; col = t.col + 1 }) in
    if ltb t.col n && ltb t.col term_cols then rest else t

-- `if (g_col >= TERM_COLS) term_newline()`
unfoldable pub wrap : Term → Term
wrap t = if leb term_cols t.col then newline t else t

-- a character in the state ST_NORMAL
unfoldable pub put_normal : ℕ → Term → Term
put_normal c t =
    if c == 27
    then record t { state = esc }
    else if c == 10
    then newline t
    else if c == 13
    then record t { col = 0 }
    else if c == 8
    then (if ltb 0 t.col
        then record t { col = t.col - 1; grid = put t.row (t.col - 1) space t.grid }
        else t)
    else if c == 9
    then wrap (tab_to term_cols ((t.col + 8) / 8 * 8) t)
    else if ltb c 0x20 || ltb 0x7E c
    then t
    else wrap (record t { grid = put t.row t.col c t.grid; col = t.col + 1 })

-- a character after ESC [
unfoldable pub put_csi : ℕ → Term → Term
put_csi c t =
    if leb 48 c && leb c 57
    then record t { param = u32 (t.param * 10 + (c - 48)); have_param = true }
    else if c == 74
    then record (if not t.have_param || (t.param == 2) then clear t else t) { state = normal }
    else if c == 72
    then record t { col = 0; row = 0; state = normal }
    else record t { state = normal }

-- `term_putchar` on a byte
unfoldable pub putchar : ℕ → Term → Term
putchar c t = elim t.state [
  | esc ↦
      if c == 91
      then record t { state = csi; param = 0; have_param = false }
      else record t { state = normal }
  | csi ↦ put_csi c t
  | normal ↦ put_normal c t
]

-- the bytes of a write, in order
pub write_all : List ℕ → Term → Term
write_all [] t = t
write_all (c ∷ cs) t = write_all cs (putchar c t)
