-- ===== src/Window/Stack.antt =====
-- Stacking in kernel/window.cpp: a press reaches the topmost window under the pointer, which comes to
-- the front over the others, in their order.
use mathlib.Core.Option.{some-injective}
use hrafn_os.Prelude.Int.{ℤ}
use hrafn_os.Window.{Window, hit, topmost_from, raised}
use hrafn_os.Prelude.{
  ℕ, zero, suc, ◌+◌, ◌-◌, ◌≤◌, ◌<◌, ◌≡◌, refl, ap, true, false, inl, inr, List, [], ◌∷◌, ◌++◌,
  Option, none, some, arith, Bool-cases, if◌then◌else◌, get_elem?, take, drop,
}

-- what `topmost_at` promises, on windows whose first has index `i`
abbrev pub Topmost : ℕ → ℤ → ℤ → List Window → Option ℕ → Type 0
Topmost i mx my ws none = (k : ℕ) (w : Window) → get_elem? ws k ≡ some w → hit mx my w ≡ false
Topmost i mx my ws (some j) =
    (i ≤ j)
    × ((w : Window) × (get_elem? ws (j - i) ≡ some w) × (hit mx my w ≡ true))
    × ((k : ℕ) (w : Window) → j - i < k → get_elem? ws k ≡ some w → hit mx my w ≡ false)

-- The scan finds the last window of the list that the point is in, so the topmost, and finds none exactly
-- when the point is in no window.
pub topmost_from-Topmost :
    (i : ℕ) (mx my : ℤ) (ws : List Window) → Topmost i mx my ws (topmost_from i mx my ws)
unfolding topmost_from
topmost_from-Topmost i mx my [] = λ k w e. absurd (ground arith)
topmost_from-Topmost i mx my (w ∷ ws) =
    on (topmost_from (i + 1) mx my ws) (topmost_from-Topmost (i + 1) mx my ws)
  where
    first : hit mx my w ≡ true → Topmost (i + 1) mx my ws none → Topmost i mx my (w ∷ ws) (some i)
    first h below = let e : i - i ≡ 0 = omega arith in (omega arith, rw e (w, refl, h), rw e up)
      where
        up : (k : ℕ) (v : Window) → 0 < k → get_elem? (w ∷ ws) k ≡ some v → hit mx my v ≡ false
        up zero v l q = absurd (omega arith)
        up (suc k) v l q = below k v q

    no_hit : hit mx my w ≡ false → Topmost (i + 1) mx my ws none → Topmost i mx my (w ∷ ws) none
    no_hit h below zero v q = rw (← some-injective w v q) h
    no_hit h below (suc k) v q = below k v q

    higher :
        {j : ℕ}
        → ((k : ℕ) (v : Window) → j < k → get_elem? ws k ≡ some v → hit mx my v ≡ false)
        → (k : ℕ) (v : Window) → suc j < k
        → get_elem? (w ∷ ws) k ≡ some v
        → hit mx my v ≡ false
    higher above zero v l q = absurd (omega arith)
    higher above (suc k) v l q = above k v (omega arith) q

    on :
        (o : Option ℕ)
        → Topmost (i + 1) mx my ws o
        → Topmost i mx my
            (w ∷ ws)
            (elim o [ none ↦ (if hit mx my w then some i else none) | some j ↦ some j ])
    on none below = elim (Bool-cases (hit mx my w)) [
      | inl h ↦ rw h (first h below)
      | inr h ↦ rw h (no_hit h below)
    ]
    on (some j) (le, (v, at, h), above) =
        let e : j - i ≡ suc (j - (i + 1)) = omega arith in
        (omega arith, rw e (v, at, h), rw e (higher above))

-- `raise` takes window `i` out and puts it at the end.
pub raised-take-drop :
    (i : ℕ) (ws : List Window) (w : Window)
    → get_elem? ws i ≡ some w
    → raised i ws ≡ take i ws ++ (drop (suc i) ws ++ (w ∷ []))
unfolding raised
raised-take-drop i [] w e = absurd (ground arith)
raised-take-drop zero (v ∷ ws) w e = ap (λ u. ws ++ (u ∷ [])) (some-injective v w e)
raised-take-drop (suc i) (v ∷ ws) w e = ap (λ us. v ∷ us) (raised-take-drop i ws w e)
