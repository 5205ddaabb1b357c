-- ===== src/Window.antt =====
-- kernel/window.cpp: the window stack, hit testing, raising and dragging. Drawing is left out.
-- An int is an integer whose sums and differences `wrap` to 32 bits.
pub mod Stack
use hrafn_os.Prelude.Int.{ℤ, pos, negsuc, ◌+ℤ◌, ◌-ℤ◌, ltb_ℤ, wrap}
use hrafn_os.Prelude.{
  ℕ, zero, suc, ◌+◌, ◌-◌, ◌*◌, ◌/◌, ◌%◌, ◌^◌, ◌≤◌, ◌<◌, min, max, ◌≡◌, ◌≢◌, refl, sym, ap, ◌∙◌, ◌↔◌,
  Bool, true, false, not, ◌&&◌, ◌||◌, inl, inr, ◌⊎◌, List, [], ◌∷◌, ◌++◌, map, Option, none, some,
  bit_and, bit_or, bit_xor, arith, ltb, leb, ◌==◌, ==_iff, ltb→lt, lt→ltb, leb→le, tests,
  Bool-cases, Option-cases, if◌then◌else◌, get_or, get_elem?, set, take, drop, replicate, length,
  length-set, length-append, length-map, length-take, length-drop, length-replicate,
  take-append-drop, get_elem?-set_self, get_elem?-set_ne, get_or-set_self, get_or-set_ne,
  get_or-beyond, set-beyond, get_or-replicate,
}

-- WIN_MAX
abbrev pub win_max : ℕ
win_max = 16

-- TITLEBAR_H
abbrev pub titlebar_h : ℤ
titlebar_h = pos 24

pub record Window : Type 0 where
  pub x : ℤ
  pub y : ℤ
  pub w : ℤ
  pub h : ℤ
  pub content : ℕ
  pub title : ℕ
  pub is_term : Bool

-- `g_win[0 .. g_count)`, bottom to top; `none` for a `g_drag` of -1
pub record Desktop : Type 0 where
  pub wins : List Window
  pub drag : Option ℕ
  pub off_x : ℤ
  pub off_y : ℤ
  pub last_left : Bool

pub window_create : Window → Desktop → Desktop
window_create w d =
    if leb win_max (length d.wins) then d else record d { wins = d.wins ++ (w ∷ []) }

-- lo <= v && v < lo + size
abbrev pub within : ℤ → ℤ → ℤ → Bool
within lo size v = not (ltb_ℤ v lo) && ltb_ℤ v (wrap (lo +ℤ size))

abbrev pub hit : ℤ → ℤ → Window → Bool
hit mx my w = within w.x w.w mx && within w.y w.h my

-- the scan of `topmost_at` over windows `i`, `i + 1`, …: the last hit is the topmost
pub topmost_from : ℕ → ℤ → ℤ → List Window → Option ℕ
topmost_from i mx my [] = none
topmost_from i mx my (w ∷ ws) =
    let here = if hit mx my w then some i else none in
    elim (topmost_from (i + 1) mx my ws) [ none ↦ here | some j ↦ some j ]

abbrev pub topmost_at : ℤ → ℤ → Desktop → Option ℕ
topmost_at mx my d = topmost_from 0 mx my d.wins

-- `raise` on the windows: window `i` goes to the end and those above it move down by one
pub raised : ℕ → List Window → List Window
raised i [] = []
raised zero (w ∷ ws) = ws ++ (w ∷ [])
raised (suc i) (w ∷ ws) = w ∷ raised i ws

-- `raise`; for i ≥ g_count - 1 it does nothing
pub raise : ℕ → Desktop → Desktop
raise i d = if leb (length d.wins - 1) i then d else record d { wins = raised i d.wins }

-- the window at the top, once `raise` is done: it is grabbed when the press is on its title bar
pub grab : ℤ → ℤ → Desktop → Desktop
grab mx my d =
    let top = length d.wins - 1 in
    elim (get_elem? d.wins top) [
      | none ↦ d
      | some w ↦
          if within w.y titlebar_h my
          then record d { drag = some top; off_x = wrap (mx -ℤ w.x); off_y = wrap (my -ℤ w.y) }
          else d
    ]

-- the press edge of `window_handle`
pub press : ℤ → ℤ → Desktop → Desktop
press mx my d = elim (topmost_at mx my d) [ none ↦ d | some i ↦ grab mx my (raise i d) ]

-- `if (g_drag >= 0 && left)`: the dragged window follows the pointer
pub drag_to : ℤ → ℤ → Desktop → Desktop
drag_to mx my d = elim d.drag [
  | none ↦ d
  | some i ↦ elim (get_elem? d.wins i) [
    | none ↦ d
    | some w ↦ record d {
      wins = set d.wins i (record w { x = wrap (mx -ℤ d.off_x); y = wrap (my -ℤ d.off_y) });
    }
  ]
]

-- `window_handle`
pub handle : ℤ → ℤ → Bool → Desktop → Desktop
handle mx my left d =
    let d1 =
      if left && not d.last_left
      then press mx my d
      else if not left && d.last_left
      then record d { drag = none }
      else d in
    let d2 = if left then drag_to mx my d1 else d1 in record d2 { last_left = left }
