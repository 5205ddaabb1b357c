-- ===== src/Gfx/Line.antt =====
-- `gfx_line` of kernel/gfx.cpp ends, at its second end point.
use hrafn_os.Prelude.Int.{ℤ, pos, pos_part, ◌+ℤ◌, ◌-ℤ◌, ◌*ℤ◌, ltb_ℤ, -ℤ_parts, IsInt, wrap}
use hrafn_os.Gfx.{Surface, putpixel, one_step, distance, equal_ℤ, line_from, line}
use hrafn_os.Prelude.{
  ℕ, zero, suc, ◌+◌, ◌*◌, ◌≤◌, ◌<◌, ◌≡◌, refl, Bool, true, false, ◌&&◌, ◌||◌, inl, inr, some, arith,
  ◌==◌, Bool-cases, if◌then◌else◌,
}
use hrafn_os.Gfx.Width.{
  wrap-advance, Small, wrap-twice, wrap-negated, wrap-across, wrap-along, next_Small, Small-start,
}
use hrafn_os.Gfx.Toward.{
  Near, distance-small, twice_parts, Toward-value, Toward-start, distance-nonneg, Balanced, Drawing,
  less, less-le, Toward-advance, balance_x, balance_y, fewer_left, equal_ℤ-eq, Balanced-start,
}

-- With all columns done there is no step across, with all rows done none along, and there is
-- some step until both are done.
module _ (dx dy sx sy err x0 y0 x1 y1 : ℤ) (a b : ℕ)
    (d : Drawing dx dy sx sy err x0 y0 x1 y1 a b) where
  abbrev go_x : Bool
  go_x = ltb_ℤ (pos 0 -ℤ dy) (pos 2 *ℤ err)

  abbrev go_y : Bool
  go_y = ltb_ℤ (pos 2 *ℤ err) dx

  no_column : a ≡ 0 → 1 ≤ b → go_x ≡ false
  unfolding Balanced
  no_column e l =
      let h = d.balanced in
      let w = d.wide in
      let v = d.high in
      let p : pos_part dx ≤ pos_part dx * b = grind arith in
      let q : pos_part dy * a ≡ 0 = rw e (omega arith) in
      let t = twice_parts err in let n = -ℤ_parts (pos 0) dy in ground arith

  no_row : b ≡ 0 → 1 ≤ a → go_y ≡ false
  unfolding Balanced
  no_row e l =
      let h = d.balanced in
      let w = d.wide in
      let v = d.high in
      let p : pos_part dy ≤ pos_part dy * a = grind arith in
      let q : pos_part dx * b ≡ 0 = rw e (omega arith) in let t = twice_parts err in ground arith

  some_step : 1 ≤ a + b → (go_x || go_y) ≡ true
  some_step l =
      let i = d.within_x in
      let j = d.within_y in
      let w = d.wide in
      let v = d.high in let t = twice_parts err in let n = -ℤ_parts (pos 0) dy in ground arith

  x_left : 1 ≤ a + b → go_x ≡ true → 1 ≤ a
  x_left l g = elim (Bool-cases (a == 0)) [
    | inl e ↦ let n = no_column (ground arith) (ground arith) in absurd (cc)
    | inr e ↦ ground arith
  ]

  y_left : 1 ≤ a + b → go_y ≡ true → 1 ≤ b
  y_left l g = elim (Bool-cases (b == 0)) [
    | inl e ↦ let n = no_row (ground arith) (ground arith) in absurd (cc)
    | inr e ↦ ground arith
  ]

  abbrev err1 : ℤ
  err1 = if go_x then err -ℤ dy else err

  next_Drawing :
      1 ≤ a + b
      → Drawing dx dy sx sy
          (if go_y then err1 +ℤ dx else err1)
          (if go_x then x0 +ℤ sx else x0)
          (if go_y then y0 +ℤ sy else y0)
          x1
          y1
          (less go_x a)
          (less go_y b)
  next_Drawing l = record {
    wide = d.wide;
    high = d.high;
    across = Toward-advance go_x x0 x1 sx a (x_left l) d.across;
    along = Toward-advance go_y y0 y1 sy b (y_left l) d.along;
    within_x = (let w = d.within_x in let k = less-le go_x a in omega arith);
    within_y = (let w = d.within_y in let k = less-le go_y b in omega arith);
    balanced =
        balance_y go_y dx dy err1 (less go_x a) b d.wide (y_left l)
          (balance_x go_x dx dy err a b d.high (x_left l) d.balanced);
  }

  fewer : 1 ≤ a + b → less go_x a + less go_y b < a + b
  fewer l =
      let x = x_left l in let y = y_left l in let h = some_step l in fewer_left go_x go_y a b x y h

-- The loop between points less than 2^29 apart computes as the integers do.
module _ (dx dy sx sy err x0 y0 x1 y1 : ℤ) (a b : ℕ) (d : Drawing dx dy sx sy err x0 y0 x1 y1 a b)
    (s : Small dx dy err) (more : 1 ≤ a + b) (ix : IsInt x0) (iy : IsInt y0) (jx : IsInt x1)
    (jy : IsInt y1) where
  abbrev gx : Bool
  gx = ltb_ℤ (pos 0 -ℤ dy) (pos 2 *ℤ err)

  abbrev gy : Bool
  gy = ltb_ℤ (pos 2 *ℤ err) dx

  x_advance :
      ((if gx then wrap (x0 +ℤ sx) else x0) ≡ (if gx then x0 +ℤ sx else x0))
      × IsInt (if gx then x0 +ℤ sx else x0)
  x_advance =
      wrap-advance gx x0 x1 sx a (x_left dx dy sx sy err x0 y0 x1 y1 a b d more) d.across ix jx

  y_advance :
      ((if gy then wrap (y0 +ℤ sy) else y0) ≡ (if gy then y0 +ℤ sy else y0))
      × IsInt (if gy then y0 +ℤ sy else y0)
  y_advance =
      wrap-advance gy y0 y1 sy b (y_left dx dy sx sy err x0 y0 x1 y1 a b d more) d.along iy jy

line_from-ends :
    (fuel : ℕ) (dx dy sx sy err x0 y0 x1 y1 : ℤ) (color : ℕ) (s : Surface) (a b : ℕ)
    → a + b < fuel
    → Drawing dx dy sx sy err x0 y0 x1 y1 a b
    → Small dx dy err
    → IsInt x0
    → IsInt y0
    → IsInt x1
    → IsInt y1
    → (u : Surface) × (line_from fuel dx dy sx sy err x0 y0 x1 y1 color s
        ≡ some (putpixel x1 y1 color u))
unfolding line_from
line_from-ends zero dx dy sx sy err x0 y0 x1 y1 color s a b l d m ix iy jx jy = absurd (omega arith)
line_from-ends (suc fuel) dx dy sx sy err x0 y0 x1 y1 color s a b l d m ix iy jx jy =
    let ex = Toward-value x0 x1 sx a d.across in
    let ey = Toward-value y0 y1 sy b d.along in
    elim (Bool-cases ((a == 0) && (b == 0))) [
      | inl e ↦
          let p : x0 ≡ x1 = equal_ℤ-eq x0 x1 (ground arith) in
          let q : y0 ≡ y1 = equal_ℤ-eq y0 y1 (ground arith) in
          let here : (equal_ℤ x0 x1 && equal_ℤ y0 y1) ≡ true = ground arith in
          (s, rw here (rw (p, q) refl))
      | inr e ↦
          let more : 1 ≤ a + b = ground arith in
          let away : (equal_ℤ x0 x1 && equal_ℤ y0 y1) ≡ false = ground arith in
          let n = next_Drawing dx dy sx sy err x0 y0 x1 y1 a b d more in
          let f = fewer dx dy sx sy err x0 y0 x1 y1 a b d more in
          let vx = x_advance dx dy sx sy err x0 y0 x1 y1 a b d m more ix iy jx jy in
          let vy = y_advance dx dy sx sy err x0 y0 x1 y1 a b d m more ix iy jx jy in
          let (u, r) =
            line_from-ends fuel dx dy sx sy _ _ _ x1 y1 color (putpixel x0 y0 color s) _ _
              (omega arith) n (next_Small dx dy err m) vx.1 vy.1 jx jy in
          (
            u,
            rw
                (
                  away,
                  wrap-twice dx dy err m,
                  wrap-negated dx dy err m,
                  wrap-across dx dy err m,
                  wrap-along dx dy err m,
                  vx.0,
                  vy.0,
                )
                r,
          )
    ]

-- `gfx_line` between two points whose coordinates are `int`s and less than 2^29 apart ends, with fuel
-- for more rounds than there are columns and rows between them, and the last pixel it puts is the
-- second end point.
pub line-ends :
    (fuel : ℕ) (x0 y0 x1 y1 : ℤ) (color : ℕ) (s : Surface)
    → IsInt x0
    → IsInt y0
    → IsInt x1
    → IsInt y1
    → Near x0 x1
    → Near y0 y1
    → pos_part (distance x0 x1) + pos_part (distance y0 y1) < fuel
    → (u : Surface) × (line fuel x0 y0 x1 y1 color s ≡ some (putpixel x1 y1 color u))
unfolding line
line-ends fuel x0 y0 x1 y1 color s ix iy jx jy near_x near_y l =
    let dx = distance x0 x1 in
    let dy = distance y0 y1 in
    let wide = distance-nonneg x0 x1 near_x in
    let high = distance-nonneg y0 y1 near_y in
    let m =
      Small-start dx dy wide high (distance-small x0 x1 near_x) (distance-small y0 y1 near_y) in
    let (u, r) =
      line_from-ends fuel dx dy (one_step x0 x1) (one_step y0 y1) (dx -ℤ dy) x0 y0 x1 y1 color s
        (pos_part dx) (pos_part dy) l
        (record {
          wide = wide;
          high = high;
          across = Toward-start x0 x1 near_x;
          along = Toward-start y0 y1 near_y;
          within_x = omega arith;
          within_y = omega arith;
          balanced = Balanced-start dx dy wide high;
        })
        m.1 ix iy jx jy in
    (u, rw m.0 r)
