-- ===== src/Gfx/Width.antt =====
-- No `int` of `gfx_line` in kernel/gfx.cpp overflows between points that are less than 2^29 apart: the
-- error term stays between -2 dy and 2 dx.
use hrafn_os.Prelude.Int.{
  ℤ, pos, negsuc, pos_part, neg_part, ◌+ℤ◌, ◌-ℤ◌, ◌*ℤ◌, ltb_ℤ, IsInt, wrap, wrap-IsInt, +ℤ_parts,
  -ℤ_parts,
}
use hrafn_os.Gfx.Toward.{Toward, twice_parts}
use hrafn_os.Prelude.{
  ℕ, ◌+◌, ◌*◌, ◌≤◌, ◌<◌, ◌^◌, ◌≡◌, refl, Bool, true, false, inl, inr, arith, if◌then◌else◌,
}

pub IsInt-parts :
    (z : ℤ) (b c : ℕ)
    → pos_part z ≤ neg_part z + b
    → neg_part z ≤ pos_part z + c
    → b < 2 ^ 31
    → c ≤ 2 ^ 31
    → IsInt z
IsInt-parts (pos n) b c h k l m = (omega arith, omega arith)
IsInt-parts (negsuc n) b c h k l m = (omega arith, omega arith)

-- A step that does not pass the goal stays an `int`.
Toward-IsInt :
    (x goal step : ℤ) (a : ℕ)
    → Toward x goal step a
    → 1 ≤ a
    → IsInt x
    → IsInt goal
    → IsInt (x +ℤ step)
unfolding Toward
Toward-IsInt x goal step a (inl (q, e)) l i j = rw q (
    let p = +ℤ_parts x (pos 1) in
    IsInt-parts (x +ℤ pos 1) (pos_part goal) (neg_part x) (omega arith) (omega arith) (omega arith)
      (omega arith))
Toward-IsInt x goal step a (inr (q, e)) l i j = rw q (
    let p = +ℤ_parts x (negsuc 0) in
    IsInt-parts (x +ℤ negsuc 0) (pos_part x) (neg_part goal) (omega arith) (omega arith)
      (omega arith) (omega arith))

-- A coordinate after a round, computed in an `int`.
pub wrap-advance :
    (g : Bool) (x goal step : ℤ) (a : ℕ)
    → (g ≡ true → 1 ≤ a)
    → Toward x goal step a
    → IsInt x
    → IsInt goal
    → ((if g then wrap (x +ℤ step) else x) ≡ (if g then x +ℤ step else x))
      × IsInt (if g then x +ℤ step else x)
wrap-advance false x goal step a h t i j = (refl, i)
wrap-advance true x goal step a h t i j =
    let k = Toward-IsInt x goal step a t (h refl) i j in (wrap-IsInt (x +ℤ step) k, k)

-- The bounds of the error term.
pub record Small (dx dy err : ℤ) : Type 0 where
  pub wide : neg_part dx ≡ 0
  pub high : neg_part dy ≡ 0
  pub dx_small : pos_part dx < 2 ^ 29
  pub dy_small : pos_part dy < 2 ^ 29
  pub below : pos_part err ≤ neg_part err + 2 * pos_part dx
  pub above : neg_part err ≤ pos_part err + 2 * pos_part dy

module _ (dx dy err : ℤ) (s : Small dx dy err) where
  abbrev go_x : Bool
  go_x = ltb_ℤ (pos 0 -ℤ dy) (pos 2 *ℤ err)

  abbrev go_y : Bool
  go_y = ltb_ℤ (pos 2 *ℤ err) dx

  abbrev err1 : ℤ
  err1 = if go_x then err -ℤ dy else err

  pub wrap-twice : wrap (pos 2 *ℤ err) ≡ pos 2 *ℤ err
  wrap-twice =
      let t = twice_parts err in
      wrap-IsInt (pos 2 *ℤ err) (
        IsInt-parts (pos 2 *ℤ err) (4 * pos_part dx) (4 * pos_part dy)
          (let b = s.below in omega arith) (let c = s.above in omega arith)
          (let w = s.dx_small in omega arith) (let h = s.dy_small in omega arith))

  pub wrap-negated : wrap (pos 0 -ℤ dy) ≡ pos 0 -ℤ dy
  wrap-negated =
      let n = -ℤ_parts (pos 0) dy in
      let v = s.high in
      let h = s.dy_small in
      wrap-IsInt (pos 0 -ℤ dy) (
        IsInt-parts (pos 0 -ℤ dy) 0 (pos_part dy) (omega arith) (omega arith) (omega arith)
          (omega arith))

  pub wrap-across : wrap (err -ℤ dy) ≡ err -ℤ dy
  wrap-across =
      let n = -ℤ_parts err dy in
      let v = s.high in
      let h = s.dy_small in
      let w = s.dx_small in
      let b = s.below in
      let c = s.above in
      wrap-IsInt (err -ℤ dy) (
        IsInt-parts (err -ℤ dy) (2 * pos_part dx) (3 * pos_part dy) (omega arith) (omega arith)
          (omega arith) (omega arith))

  pub wrap-along : wrap (err1 +ℤ dx) ≡ err1 +ℤ dx
  wrap-along =
      let n = -ℤ_parts err dy in
      let m = +ℤ_parts err1 dx in
      let u = s.wide in
      let v = s.high in
      let h = s.dy_small in
      let w = s.dx_small in
      let b = s.below in
      let c = s.above in
      wrap-IsInt (err1 +ℤ dx) (
        IsInt-parts (err1 +ℤ dx) (3 * pos_part dx) (3 * pos_part dy) (ground arith) (ground arith)
          (omega arith) (omega arith))

  pub next_Small : Small dx dy (if go_y then err1 +ℤ dx else err1)
  next_Small =
      let n = -ℤ_parts err dy in
      let m = +ℤ_parts err1 dx in
      let o = -ℤ_parts (pos 0) dy in
      let t = twice_parts err in
      let u = s.wide in
      let v = s.high in
      let b = s.below in
      let c = s.above in
      record {
        wide = u;
        high = v;
        dx_small = s.dx_small;
        dy_small = s.dy_small;
        below = ground arith;
        above = ground arith;
      }

pub Small-start :
    (dx dy : ℤ)
    → neg_part dx ≡ 0
    → neg_part dy ≡ 0
    → pos_part dx < 2 ^ 29
    → pos_part dy < 2 ^ 29
    → (wrap (dx -ℤ dy) ≡ dx -ℤ dy) × Small dx dy (dx -ℤ dy)
Small-start dx dy u v w h =
    let n = -ℤ_parts dx dy in
    (
      wrap-IsInt (dx -ℤ dy) (
          IsInt-parts (dx -ℤ dy) (pos_part dx) (pos_part dy) (omega arith) (omega arith)
            (omega arith) (omega arith)),
      record {
        wide = u;
        high = v;
        dx_small = w;
        dy_small = h;
        below = omega arith;
        above = omega arith;
      },
    )
