-- ===== src/Pmm/Count.antt =====
-- Counting the set bits of the frame bitmap, and the allocator's invariant.
use hrafn_os.Prelude.{
  ℕ, zero, suc, ◌+◌, ◌≤◌, ◌<◌, ◌≡◌, refl, Bool, true, false, ◌||◌, inl, inr, arith, ltb, ◌==◌,
  ltb→lt, Bool-cases, if◌then◌else◌,
}

-- how many `f < n` satisfy `p`
unfoldable pub count_below : (ℕ → Bool) → ℕ → ℕ
count_below p zero = 0
count_below p (suc n) = count_below p n + (if p n then 1 else 0)

pub count_below-le : (p : ℕ → Bool) (n : ℕ) → count_below p n ≤ n
unfolding count_below
count_below-le p zero = omega arith
count_below-le p (suc n) = ground (arith, count_below-le p n)

pub count_below-congr :
    (p q : ℕ → Bool) (n : ℕ) → ((f : ℕ) → f < n → p f ≡ q f) → count_below p n ≡ count_below q n
unfolding count_below
count_below-congr p q zero h = refl
count_below-congr p q (suc n) h =
    rw (count_below-congr p q n (λ f l. h f (omega arith)), h n (omega arith)) refl

-- One more element below `n`.
pub count_below-insert :
    (p q : ℕ → Bool) (f n : ℕ)
    → ((g : ℕ) → q g ≡ ((f == g) || p g))
    → p f ≡ false
    → f < n
    → count_below q n ≡ count_below p n + 1
unfolding count_below
count_below-insert p q f zero h e l = absurd (omega arith)
count_below-insert p q f (suc n) h e l = elim (Bool-cases (ltb f n)) [
  | inl t ↦ ground (arith, h n, count_below-insert p q f n h e (ltb→lt f n t))
  | inr t ↦
      let fn : f ≡ n = ground arith in
      let below : count_below p n ≡ count_below q n =
        count_below-congr p q n (λ g lg. ground (arith, h g)) in
      let pn : p n ≡ false = rw (← fn) e in ground (arith, h n, below, pn)
]

pub count_below-all : (p : ℕ → Bool) (n : ℕ) → ((f : ℕ) → f < n → p f ≡ true) → count_below p n ≡ n
unfolding count_below
count_below-all p zero h = refl
count_below-all p (suc n) h =
    ground (arith, h n (omega arith), count_below-all p n (λ f l. h f (omega arith)))
