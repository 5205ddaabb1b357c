-- ===== src/Gfx/Toward.antt =====
-- The counters of the loop of `gfx_line` in kernel/gfx.cpp: how far each coordinate is from its goal,
-- and the error term that keeps the two in step.
use hrafn_os.Prelude.Int.{
  ℤ, pos, negsuc, pos_part, neg_part, ◌+ℤ◌, ◌-ℤ◌, ◌*ℤ◌, ltb_ℤ, IsInt, wrap-IsInt, int_laws,
  eq_of_parts, +ℤ_parts, -ℤ_parts,
}
use hrafn_os.Gfx.{one_step, distance, equal_ℤ}
use hrafn_os.Prelude.{
  ℕ, zero, suc, ◌+◌, ◌*◌, ◌≤◌, ◌<◌, ◌≡◌, refl, Bool, true, false, ◌||◌, inl, inr, ◌⊎◌, arith, ◌==◌,
  Bool-cases, if◌then◌else◌, ◌^◌,
}

pub twice_parts :
    (a : ℤ) → pos_part (pos 2 *ℤ a) + 2 * neg_part a ≡ neg_part (pos 2 *ℤ a) + 2 * pos_part a
unfolding ◌*ℤ◌
twice_parts (pos a) = ground arith
twice_parts (negsuc a) = ground arith

-- `a` steps of `step` lead from `x` to `goal`.
unfoldable pub Toward : ℤ → ℤ → ℤ → ℕ → Type 0
Toward x goal step a =
    ((step ≡ pos 1) × (pos_part x + neg_part goal + a ≡ pos_part goal + neg_part x))
    ⊎ ((step ≡ negsuc 0) × (pos_part x + neg_part goal ≡ pos_part goal + neg_part x + a))

pub Toward-step :
    (x goal step : ℤ) (a : ℕ) → Toward x goal step (suc a) → Toward (x +ℤ step) goal step a
unfolding Toward
Toward-step x goal step a (inl (q, e)) = inl (q, rw q (omega (int_laws)))
Toward-step x goal step a (inr (q, e)) = inr (q, rw q (omega (int_laws)))

pub Toward-value : (x goal step : ℤ) (a : ℕ) → Toward x goal step a → equal_ℤ x goal ≡ (a == 0)
unfolding Toward
Toward-value x goal step a (inl (q, e)) = ground arith
Toward-value x goal step a (inr (q, e)) = ground arith

-- The two are less than 2^29 apart.
abbrev pub Near : ℤ → ℤ → Type 0
Near x goal =
    (pos_part x + neg_part goal < pos_part goal + neg_part x + 2 ^ 29)
    × (pos_part goal + neg_part x < pos_part x + neg_part goal + 2 ^ 29)

-- the distance without the bounds of an `int`
abbrev gap : ℤ → ℤ → ℤ
gap a b = let d = b -ℤ a in if ltb_ℤ d (pos 0) then pos 0 -ℤ d else d

difference-IsInt : (x goal : ℤ) → Near x goal → IsInt (goal -ℤ x) × IsInt (pos 0 -ℤ (goal -ℤ x))
unfolding ◌-ℤ◌
difference-IsInt x goal h = ground arith

distance-gap : (x goal : ℤ) → Near x goal → distance x goal ≡ gap x goal
distance-gap x goal h =
    let i = difference-IsInt x goal h in
    rw (wrap-IsInt (goal -ℤ x) i.0, wrap-IsInt (pos 0 -ℤ (goal -ℤ x)) i.1) refl

gap-start : (x goal : ℤ) → Toward x goal (one_step x goal) (pos_part (gap x goal))
unfolding Toward ◌-ℤ◌
gap-start x goal = elim (Bool-cases (ltb_ℤ x goal)) [
  | inl t ↦ inl (rw t refl, ground arith)
  | inr t ↦ inr (rw t refl, ground arith)
]

gap-nonneg : (x goal : ℤ) → neg_part (gap x goal) ≡ 0
unfolding ◌-ℤ◌
gap-nonneg x goal = ground arith

gap-small : (x goal : ℤ) → Near x goal → pos_part (gap x goal) < 2 ^ 29
unfolding ◌-ℤ◌
gap-small x goal h = ground arith

pub Toward-start :
    (x goal : ℤ) → Near x goal → Toward x goal (one_step x goal) (pos_part (distance x goal))
Toward-start x goal h = rw (distance-gap x goal h) (gap-start x goal)

pub distance-nonneg : (x goal : ℤ) → Near x goal → neg_part (distance x goal) ≡ 0
distance-nonneg x goal h = rw (distance-gap x goal h) (gap-nonneg x goal)

pub distance-small : (x goal : ℤ) → Near x goal → pos_part (distance x goal) < 2 ^ 29
distance-small x goal h = rw (distance-gap x goal h) (gap-small x goal h)

-- What the error term is when `a` and `b` steps are left.
unfoldable pub Balanced : ℤ → ℤ → ℤ → ℕ → ℕ → Type 0
Balanced dx dy err a b =
    pos_part err + pos_part dy + pos_part dx * b ≡ neg_part err + pos_part dx + pos_part dy * a

-- The conditions of the loop with `a` columns and `b` rows left to go.
pub record Drawing (dx dy sx sy err x0 y0 x1 y1 : ℤ) (a b : ℕ) : Type 0 where
  pub wide : neg_part dx ≡ 0
  pub high : neg_part dy ≡ 0
  pub across : Toward x0 x1 sx a
  pub along : Toward y0 y1 sy b
  pub within_x : a ≤ pos_part dx
  pub within_y : b ≤ pos_part dy
  pub balanced : Balanced dx dy err a b

-- One step of a counter.
abbrev pub less : Bool → ℕ → ℕ
less false a = a
less true zero = zero
less true (suc a) = a

pub less-le : (g : Bool) (a : ℕ) → less g a ≤ a
less-le false a = omega arith
less-le true zero = omega arith
less-le true (suc a) = omega arith

pub Toward-advance :
    (g : Bool) (x goal step : ℤ) (a : ℕ)
    → (g ≡ true → 1 ≤ a)
    → Toward x goal step a
    → Toward (if g then x +ℤ step else x) goal step (less g a)
Toward-advance false x goal step a h t = t
Toward-advance true x goal step zero h t = absurd (omega (arith, h refl))
Toward-advance true x goal step (suc a) h t = Toward-step x goal step a t

pub balance_x :
    (g : Bool) (dx dy err : ℤ) (a b : ℕ)
    → neg_part dy ≡ 0
    → (g ≡ true → 1 ≤ a)
    → Balanced dx dy err a b
    → Balanced dx dy (if g then err -ℤ dy else err) (less g a) b
unfolding Balanced
balance_x false dx dy err a b nn h e = e
balance_x true dx dy err zero b nn h e = absurd (omega (arith, h refl))
balance_x true dx dy err (suc a) b nn h e =
    let p : pos_part dy * suc a ≡ pos_part dy * a + pos_part dy = grind arith in
    let q = -ℤ_parts err dy in omega arith

pub balance_y :
    (g : Bool) (dx dy err : ℤ) (a b : ℕ)
    → neg_part dx ≡ 0
    → (g ≡ true → 1 ≤ b)
    → Balanced dx dy err a b
    → Balanced dx dy (if g then err +ℤ dx else err) a (less g b)
unfolding Balanced
balance_y false dx dy err a b nn h e = e
balance_y true dx dy err a zero nn h e = absurd (omega (arith, h refl))
balance_y true dx dy err a (suc b) nn h e =
    let p : pos_part dx * suc b ≡ pos_part dx * b + pos_part dx = grind arith in
    let q = +ℤ_parts err dx in omega arith

pub fewer_left :
    (gx gy : Bool) (a b : ℕ)
    → (gx ≡ true → 1 ≤ a)
    → (gy ≡ true → 1 ≤ b)
    → (gx || gy) ≡ true
    → less gx a + less gy b < a + b
fewer_left false gy a zero h k e = absurd (ground (arith, k))
fewer_left false true a (suc b) h k e = omega arith
fewer_left false false a (suc b) h k e = absurd (ground arith)
fewer_left true gy zero b h k e = absurd (omega (arith, h refl))
fewer_left true false (suc a) b h k e = omega arith
fewer_left true true (suc a) zero h k e = omega arith
fewer_left true true (suc a) (suc b) h k e = omega arith

pub equal_ℤ-eq : (x y : ℤ) → equal_ℤ x y ≡ true → x ≡ y
equal_ℤ-eq x y e = eq_of_parts x y (ground arith)

pub Balanced-start :
    (dx dy : ℤ)
    → neg_part dx ≡ 0
    → neg_part dy ≡ 0
    → Balanced dx dy (dx -ℤ dy) (pos_part dx) (pos_part dy)
unfolding Balanced
Balanced-start dx dy p q =
    let h = -ℤ_parts dx dy in
    let c : pos_part dx * pos_part dy ≡ pos_part dy * pos_part dx = grind arith in omega arith
