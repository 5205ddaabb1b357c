-- ===== src/Console/Cursor.antt =====
-- The cursor of kernel/console.cpp stays on the screen, and every glyph is painted on it.
use hrafn_os.Console.{
  normal, esc, csi, ConsoleState, console_csi, console_normal, console_putchar, console_write,
  fill_to, console_clear, Console, Draw, glyph, fill, scroll_up, feed_line, wrap_line, fill_to,
  console_normal, console_csi, console_putchar, console_write, console_clear, ConsoleState, normal,
  csi,
}
use hrafn_os.Prelude.{
  zero, suc, ◌&&◌, ◌||◌, not, ◌==◌, ◌-◌, ◌*◌, ◌/◌, ℕ, ◌+◌, ◌<◌, ◌≡◌, Bool, true, false, inl, inr,
  List, [], ◌∷◌, ◌++◌, arith, leb, Bool-cases, if◌then◌else◌, suc, ◌/◌, ltb, ◌*◌,
}

-- the cursor in a grid of the given size, which is not empty
pub record IsValid (cols rows : ℕ) (k : Console) : Type 0 where
  pub cols_are : k.cols ≡ cols
  pub rows_are : k.rows ≡ rows
  pub in_cols : k.col < cols
  pub in_rows : k.row < rows

-- Every painted cell is a cell of the grid.
abbrev pub OnScreen : ℕ → ℕ → List Draw → Type 0
OnScreen cols rows [] = Unit
OnScreen cols rows (glyph c x y ∷ ds) = ((x < cols) × (y < rows)) × OnScreen cols rows ds
OnScreen cols rows (fill ∷ ds) = OnScreen cols rows ds
OnScreen cols rows (scroll_up ∷ ds) = OnScreen cols rows ds

pub OnScreen-append :
    (cols rows : ℕ) (ds es : List Draw)
    → OnScreen cols rows ds
    → OnScreen cols rows es
    → OnScreen cols rows (ds ++ es)
OnScreen-append cols rows [] es p q = q
OnScreen-append cols rows (glyph c x y ∷ ds) es p q = (p.0, OnScreen-append cols rows ds es p.1 q)
OnScreen-append cols rows (fill ∷ ds) es p q = OnScreen-append cols rows ds es p q
OnScreen-append cols rows (scroll_up ∷ ds) es p q = OnScreen-append cols rows ds es p q

-- what a call leaves: a valid cursor, and glyphs on the screen
abbrev pub Good : ℕ → ℕ → Console × List Draw → Type 0
Good cols rows (k, ds) = IsValid cols rows k × OnScreen cols rows ds

module _ (cols rows : ℕ) (pc : 0 < cols) (pr : 0 < rows) where
  Good-if :
      (b : Bool) (t u : Console × List Draw)
      → Good cols rows t
      → Good cols rows u
      → Good cols rows (if b then t else u)
  Good-if true t u vt vu = vt
  Good-if false t u vt vu = vu

  -- a cursor that may stand just behind the last column
  Near : Console → Type 0
  Near k = (k.cols ≡ cols) × (k.rows ≡ rows) × (k.row < rows)

  feed_line-Good : (k : Console) → Near k → Good cols rows (feed_line k)
  unfolding feed_line Near
  feed_line-Good k (a, b, l) = elim (Bool-cases (leb k.rows (k.row + 1))) [
    | inl e ↦ rw e (record { cols_are = a; rows_are = b; in_cols = pc; in_rows = l }, tt)
    | inr e ↦ rw e (record { cols_are = a; rows_are = b; in_cols = pc; in_rows = ground arith }, tt)
  ]

  wrap_line-Good :
      (k : Console) (ds : List Draw)
      → Near k
      → OnScreen cols rows ds
      → Good cols rows (wrap_line (k, ds))
  unfolding wrap_line Near
  wrap_line-Good k ds (a, b, l) o = elim (Bool-cases (leb k.cols k.col)) [
    | inl e ↦
        rw e (let g = feed_line-Good k (a, b, l) in (g.0, OnScreen-append cols rows ds _ o g.1))
    | inr e ↦ rw e (record { cols_are = a; rows_are = b; in_cols = ground arith; in_rows = l }, o)
  ]

  fill_to-Near :
      (fuel next : ℕ) (k : Console)
      → Near k
      → Near (fill_to fuel next k).0 × OnScreen cols rows (fill_to fuel next k).1
  unfolding fill_to Near
  fill_to-Near zero next k n = (n, tt)
  fill_to-Near (suc fuel) next k n = elim (Bool-cases (ltb k.col next && ltb k.col k.cols)) [
    | inl e ↦
        let r = fill_to-Near fuel next (record k { col = k.col + 1 }) n in
        rw e (r.0, ((let a = n.0 in ground arith, n.2), r.1))
    | inr e ↦ rw e (n, tt)
  ]

  near : (k : Console) → IsValid cols rows k → Near k
  unfolding Near
  near k v = (v.cols_are, v.rows_are, v.in_rows)

  console_normal-Good :
      (c : ℕ) (k : Console) → IsValid cols rows k → Good cols rows (console_normal c k)
  unfolding console_normal Near
  console_normal-Good c k v =
      let at : (n : ℕ) → n < cols → IsValid cols rows (record k { col = n }) = λ n l. record {
        cols_are = v.cols_are;
        rows_are = v.rows_are;
        in_cols = l;
        in_rows = v.in_rows;
      } in
      let tab = fill_to-Near 8 ((k.col + 8) / 8 * 8) k (near k v) in
      Good-if (c == 27) _ _
        (
          record {
            cols_are = v.cols_are;
            rows_are = v.rows_are;
            in_cols = v.in_cols;
            in_rows = v.in_rows;
          },
          tt,
        )
        (Good-if (c == 10) _ _ (feed_line-Good k (near k v)) (
          Good-if (c == 13) _ _ (at 0 pc, tt)
            (Good-if (c == 8) _ _
              (Good-if (ltb 0 k.col) _ _ (at (k.col - 1) (let l = v.in_cols in omega arith), tt)
                (v, tt))
              (Good-if (c == 9) _ _ (wrap_line-Good _ _ tab.0 tab.1) (
                wrap_line-Good (record k { col = k.col + 1 }) (glyph c k.col k.row ∷ []) (near k v)
                  ((v.in_cols, v.in_rows), tt))))))

  console_csi-Good : (c : ℕ) (k : Console) → IsValid cols rows k → Good cols rows (console_csi c k)
  unfolding console_csi console_clear
  console_csi-Good c k v =
      let same : (p : ℕ) (h : Bool) (s : ConsoleState)
          → IsValid cols rows (record k { param = p; have_param = h; state = s }) =
        λ p h s. record {
          cols_are = v.cols_are;
          rows_are = v.rows_are;
          in_cols = v.in_cols;
          in_rows = v.in_rows;
        } in
      let home : IsValid cols rows (record k { col = 0; row = 0; state = normal }) = record {
        cols_are = v.cols_are;
        rows_are = v.rows_are;
        in_cols = pc;
        in_rows = pr;
      } in
      Good-if (leb 48 c && leb c 57) _ _ (same _ true _, tt)
        (Good-if (c == 74) _ _
          (Good-if (not k.have_param || (k.param == 2)) _ _ (home, tt) (same _ _ normal, tt))
          (Good-if (c == 72) _ _ (home, tt) (same _ _ normal, tt)))

  console_putchar-Good :
      (c : ℕ) (k : Console) → IsValid cols rows k → Good cols rows (console_putchar c k)
  unfolding console_putchar
  console_putchar-Good c k v = at k.state
    where
      same : (s : ConsoleState) → IsValid cols rows (record k { state = s })
      same s = record {
        cols_are = v.cols_are;
        rows_are = v.rows_are;
        in_cols = v.in_cols;
        in_rows = v.in_rows;
      }

      begun : IsValid cols rows (record k { state = csi; param = 0; have_param = false })
      begun = record {
        cols_are = v.cols_are;
        rows_are = v.rows_are;
        in_cols = v.in_cols;
        in_rows = v.in_rows;
      }

      at :
          (s : ConsoleState)
          → Good cols rows (elim s [
            | esc ↦
                if c == 91
                then (record k { state = csi; param = 0; have_param = false }, [])
                else (record k { state = normal }, [])
            | csi ↦ console_csi c k
            | normal ↦ console_normal c k
          ])
      at esc = Good-if (c == 91) _ _ (begun, tt) (same normal, tt)
      at csi = console_csi-Good c k v
      at normal = console_normal-Good c k v

  -- On a screen with room for a character and from a cursor on it, whatever bytes are written,
  -- the cursor stays inside the grid and every glyph is painted in a cell of the grid.
  pub console_write-Good :
      (cs : List ℕ) (k : Console) → IsValid cols rows k → Good cols rows (console_write cs k)
  unfolding console_write
  console_write-Good [] k v = (v, tt)
  console_write-Good (c ∷ cs) k v =
      let one = console_putchar-Good c k v in
      let rest = console_write-Good cs (console_putchar c k).0 one.0 in
      (
        rest.0,
        OnScreen-append cols rows (console_putchar c k).1
            (console_write cs (console_putchar c k).0).1 one.1 rest.1,
      )
