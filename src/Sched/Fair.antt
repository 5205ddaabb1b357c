-- ===== src/Sched/Fair.antt =====
-- Round robin in kernel/sched.cpp: a runnable task gets the CPU after at most as many calls of
-- `schedule` as there are other tasks.
use mathlib.Core.Path.{subst}
use mathlib.Core.List.{append_assoc, head-eq_of_cons-eq, tail-eq_of_cons-eq}
use hrafn_os.Sched.Types.{Task, Sched, Effect, is_runnable, is_dead}
use hrafn_os.Sched.{set_rsp, schedule}
use hrafn_os.Sched.Ring.{IsRing, Apart, IsRing-set_rsp, Apart-append, Apart-split}
use hrafn_os.Sched.Survivors.{survivors, Apart-survivors}
use hrafn_os.Sched.Wake.{has, NoneRunnable, Picked}
use hrafn_os.Sched.Turn.{
  Scheduled, Runs, turned_ring, schedule-Scheduled, stays_runnable, length-survivors-le, not_dead,
}
use hrafn_os.Prelude.{
  ℕ, zero, suc, ◌+◌, ◌≤◌, ◌<◌, ◌≡◌, refl, sym, ap, ◌∙◌, true, false, inl, inr, ◌⊎◌, List, [], ◌∷◌,
  ◌++◌, Option, none, some, arith, Bool-cases, length, length-append,
}

-- `n` calls of `schedule`, one after the other; call number `i` saves the stack pointer `rsps i`.
pub schedule_times : ℕ → (ℕ → ℕ) → ℕ → ℕ → Sched → Option Sched
schedule_times fuel rsps i zero s = some s
schedule_times fuel rsps i (suc n) s = elim (schedule fuel (rsps i) s) [
  | none ↦ none
  | some (_, t, _) ↦ schedule_times fuel rsps (i + 1) n t
]

survivors-split :
    (m : ℕ → Task) (pre : List ℕ) (x : ℕ) (post : List ℕ)
    → is_dead (m x).state ≡ false
    → survivors m (pre ++ x ∷ post) ≡ survivors m pre ++ x ∷ survivors m post
unfolding survivors
survivors-split m [] x post d = rw d refl
survivors-split m (y ∷ ys) x post d = elim (Bool-cases (is_dead (m y).state)) [
  | inl e ↦ rw e (survivors-split m ys x post d)
  | inr e ↦ rw e (ap (λ l. y ∷ l) (survivors-split m ys x post d))
]

-- Where a runnable task of the list stands when the first runnable one is taken: it is the one, or it
-- stands behind it, with fewer tasks between than stood before it.
Nearer : ℕ → ℕ → ℕ → List ℕ → List ℕ → Type 0
Nearer x c n after post = (c ≡ x) ⊎ ((mid : List ℕ) × (after ≡ mid ++ x ∷ post) × (length mid < n))

first-Nearer :
    (m : ℕ → Task) (x c : ℕ) (pre post before after : List ℕ)
    → is_runnable (m x).state ≡ true
    → NoneRunnable m before
    → pre ++ x ∷ post ≡ before ++ c ∷ after
    → Nearer x c (length pre) after post
unfolding Nearer NoneRunnable
first-Nearer m x c [] post [] after r n e = inl (sym (head-eq_of_cons-eq e))
first-Nearer m x c (y ∷ ys) post [] after r n e = inr (ys, sym (tail-eq_of_cons-eq e), omega arith)
first-Nearer m x c [] post (b ∷ bs) after r n e =
    let q : x ≡ b = head-eq_of_cons-eq e in
    let k : is_runnable (m x).state ≡ false = rw q n.0 in absurd (cc)
first-Nearer m x c (y ∷ ys) post (b ∷ bs) after r n e =
    step (first-Nearer m x c ys post bs after r n.1 (tail-eq_of_cons-eq e))
  where
    step : Nearer x c (length ys) after post → Nearer x c (suc (length ys)) after post
    step (inl q) = inl q
    step (inr (mid, q, l)) = inr (mid, q, omega arith)

-- A runnable task `x` waits in the ring behind the tasks `pre`.
record Waits (s : Sched) (others pre : List ℕ) (x : ℕ) (post : List ℕ) : Type 0 where
  ring : IsRing s others
  real : Apart 0 (s.current ∷ others)
  place : others ≡ pre ++ x ∷ post
  ready : is_runnable (s.tasks x).state ≡ true

-- It runs, or it waits behind fewer tasks than before.
Closer : Sched → ℕ → ℕ → ℕ → Type 0
Closer t x n size =
    (t.current ≡ x)
    ⊎ ((others : List ℕ) × (pre : List ℕ) × (post : List ℕ) × (length pre < n)
        × (length others ≤ size)
        × Waits t others pre x post)

has-middle : (x : ℕ) (pre post : List ℕ) → has x (pre ++ x ∷ post) ≡ true
unfolding has
has-middle x [] post = ground arith
has-middle x (y ∷ ys) post = ground (arith, has-middle x ys post)

none_has :
    (m : ℕ → Task) (pre : List ℕ) (x : ℕ) (post : List ℕ)
    → NoneRunnable m (pre ++ x ∷ post)
    → is_runnable (m x).state ≡ false
unfolding NoneRunnable
none_has m [] x post n = n.0
none_has m (y ∷ ys) x post n = none_has m ys x post n.1

has-behind : (c x : ℕ) (xs : List ℕ) → has x xs ≡ true → has x (c ∷ xs) ≡ true
unfolding has
has-behind c x xs h = ground (arith, h)

set_rsp-state :
    (s : Sched) (rsp x : ℕ) → ((set_rsp s.current rsp s).tasks x).state ≡ (s.tasks x).state
set_rsp-state s rsp x = ground (arith, λ (q : x ≡ s.current). ap (λ z. (s.tasks z).state) q)

module _ (s : Sched) (others pre : List ℕ) (x : ℕ) (post : List ℕ) (ret : ℕ) (t : Sched)
    (es : List Effect) (w : Waits s others pre x post) (d : Scheduled s others ret t es) where
  x_ready : is_runnable (t.tasks x).state ≡ true
  x_ready = rw (d.states x) (stays_runnable s d.reaped s.current others _ x d.reaping w.ready)

  live_place : survivors s.tasks others ≡ survivors s.tasks pre ++ x ∷ survivors s.tasks post
  live_place =
      ap (survivors s.tasks) w.place ∙ survivors-split s.tasks pre x post (not_dead _ w.ready)

  live_real : Apart 0 (survivors s.tasks others)
  live_real = Apart-survivors s.tasks 0 others w.real.1

  moved :
      (p : Picked t.tasks (survivors s.tasks others) s.current t.current)
      → IsRing t (turned_ring s.current p)
      → Closer t x (length pre) (length others)
  unfolding Closer Nearer
  moved (inl f) r = at (
      first-Nearer t.tasks x t.current (survivors s.tasks pre) (survivors s.tasks post) f.before
        f.after x_ready f.skipped (sym live_place ∙ f.parts))
    where
      parts_real : Apart 0 (f.before ++ t.current ∷ f.after)
      parts_real = subst (λ l. Apart 0 l) f.parts live_real

      real : Apart 0 (t.current ∷ (f.after ++ s.current ∷ f.before))
      real =
          let q = Apart-split 0 f.before (t.current ∷ f.after) parts_real in
          (q.1.0, Apart-append 0 f.after (s.current ∷ f.before) q.1.1 (w.real.0, q.0))

      size : length (f.after ++ s.current ∷ f.before) ≤ length others
      size =
          let a = length-survivors-le s.tasks others in
          let b = ap length f.parts in
          omega (
            arith,
            length-append {0} f.before (t.current ∷ f.after),
            length-append {0} f.after (s.current ∷ f.before),
          )

      at :
          Nearer x t.current (length (survivors s.tasks pre)) f.after (survivors s.tasks post)
          → (t.current ≡ x)
            ⊎ ((os : List ℕ) × (pre' : List ℕ) × (post' : List ℕ) × (length pre' < length pre)
                × (length os ≤ length others)
                × Waits t os pre' x post')
      at (inl q) = inl q
      at (inr (mid, q, l)) = inr (
        f.after ++ s.current ∷ f.before,
        mid,
        survivors s.tasks post ++ s.current ∷ f.before,
        (let a = length-survivors-le s.tasks pre in omega arith),
        size,
        record {
          ring = r;
          real = real;
          place = ap (λ l. l ++ s.current ∷ f.before) q ∙ append_assoc mid _ _;
          ready = x_ready;
        },
      )
  moved (inr (q, none_runs, _)) r =
      let n =
        none_has t.tasks (survivors s.tasks pre) x (survivors s.tasks post)
          (subst (λ l. NoneRunnable t.tasks l) live_place none_runs) in
      let y = x_ready in absurd (cc)

  turn : Closer t x (length pre) (length others)
  turn = moved d.picked d.ring

one_turn :
    (fuel rsp : ℕ) (s : Sched) (others pre : List ℕ) (x : ℕ) (post : List ℕ)
    → length others < fuel
    → Waits s others pre x post
    → (ret : ℕ) × (t : Sched) × (es : List Effect) × (schedule fuel rsp s ≡ some (ret, t, es))
      × Closer t x (length pre) (length others)
one_turn fuel rsp s others pre x post f w =
    let h : has x others ≡ true = rw w.place (has-middle x pre post) in
    let r : Runs s others x = (has-behind s.current x others h, w.ready) in
    let w' : Waits (set_rsp s.current rsp s) others pre x post = record {
      ring = IsRing-set_rsp s rsp others w.ring;
      real = w.real;
      place = w.place;
      ready = rw (set_rsp-state s rsp x) w.ready;
    } in
    let (ret, t, es, e, d) =
      schedule-Scheduled fuel rsp s others x (λ q. w.real.0 (sym q)) w.ring f r in
    (ret, t, es, e, turn (set_rsp s.current rsp s) others pre x post ret t es w' d)

reaches :
    (m fuel : ℕ) (rsps : ℕ → ℕ) (i : ℕ) (s : Sched) (others pre : List ℕ) (x : ℕ) (post : List ℕ)
    → length pre < m
    → length others < fuel
    → Waits s others pre x post
    → (k : ℕ) × (k ≤ length pre)
      × (t : Sched) × (schedule_times fuel rsps i (suc k) s ≡ some t)
      × (t.current ≡ x)
unfolding Closer schedule_times
reaches zero fuel rsps i s others pre x post l f w = absurd (omega arith)
reaches (suc m) fuel rsps i s others pre x post l f w =
    let (ret, t, es, e, c) = one_turn fuel (rsps i) s others pre x post f w in
    elim c [
      | inl q ↦ (0, omega arith, t, rw (schedule_times, e) refl, q)
      | inr (os, pre', post', l', f', w') ↦
          let (k, b, u, ru, q) =
            reaches m fuel rsps (i + 1) t os pre' x post' (omega arith) (omega arith) w' in
          (suc k, omega arith, u, rw (schedule_times, e) ru, q)
    ]

-- On a ring of tasks of which none is the null pointer, a runnable task `x` behind `length pre` other
-- tasks gets the CPU: with fuel for one round more than there are tasks in each call, some number
-- k + 1 of calls of `schedule` in a row, at most `length pre + 1`, all end, and after them `x` is the
-- current task; whichever stack pointers the interrupted tasks leave.
pub schedule_times-reaches :
    (fuel : ℕ) (rsps : ℕ → ℕ) (i : ℕ) (s : Sched) (pre : List ℕ) (x : ℕ) (post : List ℕ)
    → IsRing s (pre ++ x ∷ post)
    → Apart 0 (s.current ∷ (pre ++ x ∷ post))
    → is_runnable (s.tasks x).state ≡ true
    → length (pre ++ x ∷ post) < fuel
    → (k : ℕ) × (k ≤ length pre)
      × (t : Sched) × (schedule_times fuel rsps i (suc k) s ≡ some t)
      × (t.current ≡ x)
schedule_times-reaches fuel rsps i s pre x post g z r f =
    reaches (suc (length pre)) fuel rsps i s (pre ++ x ∷ post) pre x post (omega arith) f
      (record { ring = g; real = z; place = refl; ready = r })
