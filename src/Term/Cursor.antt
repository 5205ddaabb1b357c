-- ===== src/Term/Cursor.antt =====
-- The cursor of kernel/term.cpp stays in the grid, and plain text lands where the cursor is.
use hrafn_os.Term.{
  Term, TState, normal, esc, csi, clear, newline, tab_to, wrap, put_normal, put_csi, putchar,
  write_all, put,
}
use hrafn_os.Prelude.{
  ℕ, zero, suc, ◌+◌, ◌-◌, ◌*◌, ◌/◌, ◌≤◌, ◌<◌, ◌≡◌, refl, Bool, true, false, not, ◌&&◌, ◌||◌, inl,
  inr, List, [], ◌∷◌, arith, ltb, leb, ◌==◌, Bool-cases, if◌then◌else◌, get_or, length,
}

-- Every store of `term_putchar` is at the cursor, so this keeps it inside `g_grid`.
pub record IsValid (t : Term) : Type 0 where
  pub in_cols : t.col < 64
  pub in_rows : t.row < 20

newline-IsValid : (t : Term) → t.row < 20 → IsValid (newline t)
unfolding newline
newline-IsValid t l = record { in_cols = ground arith; in_rows = ground arith }

wrap-IsValid : (t : Term) → t.row < 20 → IsValid (wrap t)
unfolding wrap
wrap-IsValid t l = elim (Bool-cases (leb 64 t.col)) [
  | inl e ↦ rw e (newline-IsValid t l)
  | inr e ↦ rw e record { in_cols = ground arith; in_rows = l }
]

row-tab_to : (fuel n : ℕ) (t : Term) → (tab_to fuel n t).row ≡ t.row
unfolding tab_to
row-tab_to zero n t = refl
row-tab_to (suc fuel) n t = elim (Bool-cases (ltb t.col n && ltb t.col 64)) [
  | inl e ↦ rw e (row-tab_to fuel n _)
  | inr e ↦ rw e refl
]

IsValid-if : (b : Bool) (t u : Term) → IsValid t → IsValid u → IsValid (if b then t else u)
IsValid-if true t u vt vu = vt
IsValid-if false t u vt vu = vu

put_normal-IsValid : (c : ℕ) (t : Term) → IsValid t → IsValid (put_normal c t)
unfolding put_normal
put_normal-IsValid c t v =
    let same : IsValid t = v in
    let l = v.in_rows in
    IsValid-if (c == 27) _ _ record { in_cols = v.in_cols; in_rows = l }
      (IsValid-if (c == 10) _ _ (newline-IsValid t l) (
        IsValid-if (c == 13) _ _ record { in_cols = omega arith; in_rows = l }
          (IsValid-if (c == 8) _ _
            (IsValid-if (ltb 0 t.col) _ _
              record { in_cols = (let u = v.in_cols in omega arith); in_rows = l } v)
            (IsValid-if (c == 9) _ _ (wrap-IsValid _ (rw (row-tab_to 64 ((t.col + 8) / 8 * 8) t) l))
              (IsValid-if (ltb c 0x20 || ltb 0x7E c) _ _ v (wrap-IsValid _ l))))))

put_csi-IsValid : (c : ℕ) (t : Term) → IsValid t → IsValid (put_csi c t)
unfolding put_csi clear
put_csi-IsValid c t v =
    let keep : (s : TState) → IsValid (record t { state = s }) =
      λ s. record { in_cols = v.in_cols; in_rows = v.in_rows } in
    IsValid-if (leb 48 c && leb c 57) _ _ record { in_cols = v.in_cols; in_rows = v.in_rows }
      (IsValid-if (c == 74) _ _
        (elim (Bool-cases (not t.have_param || (t.param == 2))) [
          | inl e ↦ rw e record { in_cols = omega arith; in_rows = omega arith }
          | inr e ↦ rw e (keep normal)
        ])
        (IsValid-if (c == 72) _ _ record { in_cols = omega arith; in_rows = omega arith }
          (keep normal)))

putchar-IsValid : (c : ℕ) (t : Term) → IsValid t → IsValid (putchar c t)
unfolding putchar
putchar-IsValid c t v = at t.state
  where
    at :
        (s : TState)
        → IsValid (elim s [
          | esc ↦
              if c == 91
              then record t { state = csi; param = 0; have_param = false }
              else record t { state = normal }
          | csi ↦ put_csi c t
          | normal ↦ put_normal c t
        ])
    at esc =
        IsValid-if (c == 91) _ _ record { in_cols = v.in_cols; in_rows = v.in_rows }
          record { in_cols = v.in_cols; in_rows = v.in_rows }
    at csi = put_csi-IsValid c t v
    at normal = put_normal-IsValid c t v

-- From a cursor inside the grid of 64 columns and 20 rows, whatever bytes a program writes, the
-- cursor stays inside.
pub write_all-IsValid : (cs : List ℕ) (t : Term) → IsValid t → IsValid (write_all cs t)
unfolding write_all
write_all-IsValid [] t v = v
write_all-IsValid (c ∷ cs) t v = write_all-IsValid cs (putchar c t) (putchar-IsValid c t v)

abbrev pub Printable : ℕ → Type 0
Printable c = (32 ≤ c) × (c < 127)

abbrev pub AllPrintable : List ℕ → Type 0
AllPrintable cs = (i : ℕ) → i < length cs → Printable (get_or cs i 0)

-- the cursor's row from column `col` on shows `cs`, and the rest of the grid is as it was
abbrev pub Shown : List ℕ → Term → Term → Type 0
Shown cs t t' =
    (t'.col ≡ t.col + length cs)
    × (t'.row ≡ t.row)
    × (t'.state ≡ normal)
    × ((r c : ℕ)
        → t'.grid r c ≡ (
            if (r == t.row) && leb t.col c && ltb c (t.col + length cs)
            then get_or cs (c - t.col) 0
            else t.grid r c))

put-plain :
    (c : ℕ) (t : Term)
    → t.state ≡ normal
    → Printable c
    → t.col + 1 < 64
    → putchar c t ≡ record t { grid = put t.row t.col c t.grid; col = t.col + 1 }
unfolding putchar put_normal wrap
put-plain c t n (lo, hi) l = rw n (ground arith)

get_or-cons :
    (c : ℕ) (cs : List ℕ) (i : ℕ)
    → get_or (c ∷ cs) i 0 ≡ (if i == 0 then c else get_or cs (i - 1) 0)
get_or-cons c cs zero = refl
get_or-cons c cs (suc i) =
    let e : suc i - 1 ≡ i = omega arith in
    let ne : (suc i == 0) ≡ false = ground arith in rw (e, ne) refl

-- Outside an escape sequence, printable text that ends before the last column is shown from the
-- cursor on, on the cursor's row; the cursor moves behind it, and the rest of the grid is as it
-- was.
pub write_all-Shown :
    (cs : List ℕ) (t : Term)
    → t.state ≡ normal
    → AllPrintable cs
    → t.col + length cs < 64
    → Shown cs t (write_all cs t)
unfolding write_all
write_all-Shown [] t n _ l = (omega arith, refl, n, λ r c. ground arith)
write_all-Shown (x ∷ cs) t n ps l =
    let t1 = record t { grid = put t.row t.col x t.grid; col = t.col + 1 } in
    rw (put-plain x t n (ps 0 (omega arith)) (omega arith), write_all)
      (step (write_all-Shown cs t1 n (λ i h. ps (suc i) (omega arith)) (omega arith)))
  where
    step :
        Shown cs
          (record t { grid = put t.row t.col x t.grid; col = t.col + 1 })
          (write_all cs (record t { grid = put t.row t.col x t.grid; col = t.col + 1 }))
        → Shown
            (x ∷ cs)
            t
            (write_all cs (record t { grid = put t.row t.col x t.grid; col = t.col + 1 }))
    step (a, b, c, g) =
        (omega arith, b, c, λ r k. ground (arith, g r k, get_or-cons x cs (k - t.col)))
