-- ===== src/Gfx/Rect.antt =====
-- Filled rectangles in kernel/gfx.cpp: a pixel changes exactly when it lies in the surface and in the
-- rectangle.
use native.Mathlib.Nat.{mul-le-mul_right}
use hrafn_os.Prelude.Int.{ℤ, pos, negsuc, pos_part, ◌+ℤ◌, ltb_ℤ, IsInt, wrap-IsInt}
use hrafn_os.Gfx.{Surface, fill_row, fill_rows, fill_rect, at_most}
use hrafn_os.Prelude.{
  ℕ, zero, suc, ◌+◌, ◌-◌, ◌*◌, ◌≤◌, ◌<◌, ◌≡◌, ◌∙◌, Bool, false, not, ◌&&◌, ◌||◌, inl, inr, ◌⊎◌,
  arith, ltb, leb, ◌==◌, Bool-cases, if◌then◌else◌, ◌^◌,
}

fill_row-at :
    (n x row color : ℕ) (p : ℕ → ℕ) (a : ℕ)
    → fill_row n x row color p a ≡ (if leb (row + x) a && ltb a (row + x + n) then color else p a)
unfolding fill_row
fill_row-at zero x row color p a = ground arith
fill_row-at (suc n) x row color p a = fill_row-at n (x + 1) row color _ a ∙ ground arith

rows_apart : (y y' x pitch : ℕ) → y < y' → x < pitch → y * pitch + x < y' * pitch
rows_apart y y' x pitch lt l =
    let m : suc y * pitch ≤ y' * pitch = mul-le-mul_right pitch lt in
    let d : suc y * pitch ≡ y * pitch + pitch = grind arith in omega arith

-- A run of pixels of row `y` meets pixel `px` of row `py` in that row only.
row_hit :
    (y py x0 px w pitch : ℕ)
    → (w ≡ 0) ⊎ (x0 + w ≤ pitch)
    → px < pitch
    → (leb (y * pitch + x0) (py * pitch + px) && ltb (py * pitch + px) (y * pitch + x0 + w))
      ≡ ((y == py) && (leb x0 px && ltb px (x0 + w)))
row_hit y py x0 px w pitch room l = elim (Bool-cases (y == py)) [
  | inl e ↦ let q : y ≡ py = ground arith in rw q (ground arith)
  | inr e ↦ elim (Bool-cases (ltb y py)) [
    | inl t ↦ elim (Bool-cases (w == 0)) [
      | inl z ↦ ground arith
      | inr z ↦
          let a = rows_apart y py (x0 + w - 1) pitch (ground arith) (ground arith) in ground arith
    ]
    | inr t ↦ let a = rows_apart py y px pitch (ground arith) l in ground arith
  ]
]

fill_rows-at :
    (n y x0 w pitch color : ℕ) (p : ℕ → ℕ) (py px : ℕ)
    → (w ≡ 0) ⊎ (x0 + w ≤ pitch)
    → px < pitch
    → fill_rows n y x0 w pitch color p (py * pitch + px) ≡ (
        if (leb y py && ltb py (y + n)) && (leb x0 px && ltb px (x0 + w))
        then color
        else p (py * pitch + px))
unfolding fill_rows
fill_rows-at zero y x0 w pitch color p py px room l = ground arith
fill_rows-at (suc n) y x0 w pitch color p py px room l =
    fill_rows-at n (y + 1) x0 w pitch color _ py px room l
    ∙ ground (
      arith,
      fill_row-at w x0 (y * pitch) color p (py * pitch + px),
      row_hit y py x0 px w pitch room l,
    )

-- The pixels from `x` on, `w` of them.
unfoldable pub between : ℤ → ℤ → ℕ → Bool
between x w px = not (ltb_ℤ (pos px) x) && ltb_ℤ (pos px) (x +ℤ w)

-- The clipped span is the part of it on the surface.
clipped :
    (x w : ℤ) (size px : ℕ)
    → let a = pos_part x in
      let b = pos_part (at_most (x +ℤ w) (pos size)) in
      (leb a px && ltb px (a + (b - a))) ≡ (ltb px size && between x w px)
unfolding between ◌+ℤ◌
clipped (pos a) (pos b) size px = ground arith
clipped (pos a) (negsuc b) size px = ground arith
clipped (negsuc a) (pos b) size px = ground arith
clipped (negsuc a) (negsuc b) size px = ground arith

at_most-le : (a : ℤ) (size : ℕ) → pos_part (at_most a (pos size)) ≤ size
at_most-le (pos a) size = ground arith
at_most-le (negsuc a) size = ground arith

between-none : (x w : ℤ) (px : ℕ) → ltb_ℤ (pos 0) w ≡ false → between x w px ≡ false
unfolding between ◌+ℤ◌
between-none (pos a) (pos b) px e = ground arith
between-none (pos a) (negsuc b) px e = ground arith
between-none (negsuc a) (pos b) px e = ground arith
between-none (negsuc a) (negsuc b) px e = ground arith

clipped_room :
    (x w : ℤ) (size pitch : ℕ)
    → size ≤ pitch
    → let a = pos_part x in
      let b = pos_part (at_most (x +ℤ w) (pos size)) in (b - a ≡ 0) ⊎ (a + (b - a) ≤ pitch)
clipped_room x w size pitch l = omega (arith, at_most-le (x +ℤ w) size)

-- On a surface whose rows hold its width, the width and height below 2^31, `gfx_fill_rect` with any
-- corner and size whose sums are `int`s colors exactly the pixels that lie on the surface and in the
-- rectangle: column `px` of row `py` is one of the `w` columns from `x` and of the `h` rows from `y`.
-- All else in the buffer's rows stays.
pub fill_rect-pixels :
    (x y w h : ℤ) (color : ℕ) (s : Surface) (px py : ℕ)
    → IsInt (x +ℤ w)
    → IsInt (y +ℤ h)
    → s.width < 2 ^ 31
    → s.height < 2 ^ 31
    → s.width ≤ s.pitch
    → px < s.pitch
    → (fill_rect x y w h color s).pixels (py * s.pitch + px) ≡ (
        if (ltb px s.width && between x w px) && (ltb py s.height && between y h py)
        then color
        else s.pixels (py * s.pitch + px))
unfolding fill_rect
fill_rect-pixels x y w h color s px py sx sy fw fh room l =
    elim (Bool-cases (not (ltb_ℤ (pos 0) w) || not (ltb_ℤ (pos 0) h))) [
      | inl e ↦ elim (Bool-cases (ltb_ℤ (pos 0) w)) [
        | inl t ↦
            let n : ltb_ℤ (pos 0) h ≡ false = ground arith in
            rw (e, between-none y h py n) (ground arith)
        | inr t ↦ rw (e, between-none x w px t) (ground arith)
      ]
      | inr e ↦
          let x0 = pos_part x in
          let y0 = pos_part y in
          let x1 = pos_part (at_most (x +ℤ w) (pos s.width)) in
          let y1 = pos_part (at_most (y +ℤ h) (pos s.height)) in
          rw
            (
              e,
              wrap-IsInt (x +ℤ w) sx,
              wrap-IsInt (y +ℤ h) sy,
              wrap-IsInt (pos s.width) (fw, omega arith),
              wrap-IsInt (pos s.height) (fh, omega arith),
            )
            (fill_rows-at (y1 - y0) y0 x0 (x1 - x0) s.pitch color s.pixels py px
                (clipped_room x w s.width s.pitch room) l
              ∙ ground (arith, clipped x w s.width px, clipped y h s.height py))
    ]
