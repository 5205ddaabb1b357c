-- ===== src/Sched/Wake.antt =====
-- The second and third loop of `schedule` in kernel/sched.cpp: waking the sleepers whose time has
-- come, and finding the next runnable task round the ring.
use hrafn_os.Sched.Types.{TaskState, runnable, Task, Sched, is_sleeping, is_runnable}
use hrafn_os.Sched.{wake_due, wake_from, pick_from}
use hrafn_os.Sched.Ring.{Links, Links-same, Apart}
use hrafn_os.Prelude.{
  ℕ, zero, suc, ◌<◌, ◌≡◌, refl, ap, ◌∙◌, Bool, true, false, ◌&&◌, ◌||◌, inl, inr, ◌⊎◌, List, [],
  ◌∷◌, ◌++◌, some, arith, leb, ◌==◌, Bool-cases, if◌then◌else◌, length,
}

unfoldable pub has : ℕ → List ℕ → Bool
has x [] = false
has x (y ∷ ys) = x == y || has x ys

-- the state of task `x` after the tasks of the list had their chance to wake
unfoldable pub after_waking : Sched → List ℕ → ℕ → TaskState
after_waking s xs x =
    if has x xs && (is_sleeping (s.tasks x).state && leb (s.tasks x).wake_tick s.g_ticks)
    then runnable
    else (s.tasks x).state

-- Only states have changed, by `after_waking`.
pub record Woken (s s' : Sched) (xs : List ℕ) : Type 0 where
  pub states : (x : ℕ) → (s'.tasks x).state ≡ after_waking s xs x
  pub next : (x : ℕ) → (s'.tasks x).next ≡ (s.tasks x).next
  pub rsp : (x : ℕ) → (s'.tasks x).rsp ≡ (s.tasks x).rsp
  pub kstack_top : (x : ℕ) → (s'.tasks x).kstack_top ≡ (s.tasks x).kstack_top
  pub pml4 : (x : ℕ) → (s'.tasks x).pml4 ≡ (s.tasks x).pml4
  pub wake_tick : (x : ℕ) → (s'.tasks x).wake_tick ≡ (s.tasks x).wake_tick
  pub current : s'.current ≡ s.current
  pub g_ticks : s'.g_ticks ≡ s.g_ticks
  pub next_pid : s'.next_pid ≡ s.next_pid
  pub frames : s'.frames ≡ s.frames

wake_due-Woken : (p : ℕ) (s : Sched) → Woken s (wake_due p s) (p ∷ [])
unfolding wake_due after_waking has
wake_due-Woken p s = record {
  states = λ x. ground arith;
  next = λ x. ground arith;
  rsp = λ x. ground arith;
  kstack_top = λ x. ground arith;
  pml4 = λ x. ground arith;
  wake_tick = λ x. ground arith;
  current = ground arith;
  g_ticks = ground arith;
  next_pid = ground arith;
  frames = ground arith;
}

-- The tests of two steps of waking are those of one step over both lists.
woken_twice :
    (p q due : Bool) (st : TaskState)
    → (if q
          && (is_sleeping (if (p || false) && (is_sleeping st && due) then runnable else st) && due)
        then runnable
        else (if (p || false) && (is_sleeping st && due) then runnable else st))
      ≡ (if (p || q) && (is_sleeping st && due) then runnable else st)
woken_twice p q due st = ground arith

Woken-cons :
    (s t u : Sched) (p : ℕ) (xs : List ℕ) → Woken s t (p ∷ []) → Woken t u xs → Woken s u (p ∷ xs)
unfolding after_waking has
Woken-cons s t u p xs a b = record {
  states = λ x.
      b.states x
      ∙ rw (a.states x, a.wake_tick x, a.g_ticks)
          (woken_twice (x == p) (has x xs) (leb (s.tasks x).wake_tick s.g_ticks) (s.tasks x).state);
  next = λ x. b.next x ∙ a.next x;
  rsp = λ x. b.rsp x ∙ a.rsp x;
  kstack_top = λ x. b.kstack_top x ∙ a.kstack_top x;
  pml4 = λ x. b.pml4 x ∙ a.pml4 x;
  wake_tick = λ x. b.wake_tick x ∙ a.wake_tick x;
  current = b.current ∙ a.current;
  g_ticks = b.g_ticks ∙ a.g_ticks;
  next_pid = b.next_pid ∙ a.next_pid;
  frames = b.frames ∙ a.frames;
}

-- Walking on from `p` through `rest` back to the current task, the loop ends and each of these tasks
-- had its chance to wake.
pub wake_from-Woken :
    (fuel p : ℕ) (s : Sched) (rest : List ℕ)
    → length rest < fuel
    → Links s.tasks (s.tasks p).next rest s.current
    → Apart s.current rest
    → (s' : Sched) × (wake_from fuel p s ≡ some s') × Woken s s' (p ∷ rest)
unfolding wake_from
wake_from-Woken zero p s rest f l c = absurd (omega arith)
wake_from-Woken (suc fuel) p s [] f l c =
    let w = wake_due-Woken p s in
    let back : (((wake_due p s).tasks p).next == (wake_due p s).current) ≡ true =
      ground (arith, w.next p, w.current) in
    (wake_due p s, rw back refl, w)
wake_from-Woken (suc fuel) p s (x ∷ xs) f l c =
    let t = wake_due p s in
    let w = wake_due-Woken p s in
    let n : (t.tasks p).next ≡ x = w.next p ∙ l.0 in
    let on : ((t.tasks p).next == t.current) ≡ false = ground (arith, w.next p, w.current) in
    go t w n on (
      wake_from-Woken fuel x t xs (omega arith)
        (rw (w.next x, w.current)
          (Links-same s.tasks t.tasks (s.tasks x).next xs s.current w.next l.1))
        (rw w.current c.1))
  where
    go :
        (t : Sched)
        → Woken s t (p ∷ [])
        → (t.tasks p).next ≡ x
        → ((t.tasks p).next == t.current) ≡ false
        → (u : Sched) × (wake_from fuel x t ≡ some u) × Woken t u (x ∷ xs)
        → (u : Sched) × ((if (t.tasks p).next == t.current
              then some t
              else wake_from fuel (t.tasks p).next t)
            ≡ some u)
          × Woken s u (p ∷ x ∷ xs)
    go t w n on (u, e, v) = (u, rw (on, n) e, Woken-cons s t u p (x ∷ xs) w v)

-- None of the tasks is runnable.
unfoldable pub NoneRunnable : (ℕ → Task) → List ℕ → Type 0
NoneRunnable m [] = Unit
NoneRunnable m (x ∷ xs) = (is_runnable (m x).state ≡ false) × NoneRunnable m xs

-- `c` is the first runnable task of the list.
pub record First (m : ℕ → Task) (xs : List ℕ) (c : ℕ) : Type 0 where
  pub before : List ℕ
  pub after : List ℕ
  pub parts : xs ≡ before ++ c ∷ after
  pub skipped : NoneRunnable m before
  pub runs : is_runnable (m c).state ≡ true

-- The task that the search picks: the first runnable one of the list, or else `stop`.
abbrev pub Picked : (ℕ → Task) → List ℕ → ℕ → ℕ → Type 0
Picked m xs stop c =
    First m xs c ⊎ ((c ≡ stop) × NoneRunnable m xs × (is_runnable (m stop).state ≡ true))

Picked-cons :
    (m : ℕ → Task) (x : ℕ) (xs : List ℕ) (stop c : ℕ)
    → is_runnable (m x).state ≡ false
    → Picked m xs stop c
    → Picked m (x ∷ xs) stop c
unfolding NoneRunnable
Picked-cons m x xs stop c e (inl f) = inl (record {
  before = x ∷ f.before;
  after = f.after;
  parts = ap (λ t. x ∷ t) f.parts;
  skipped = (e, f.skipped);
  runs = f.runs;
})
Picked-cons m x xs stop c e (inr (p, q, r)) = inr (p, (e, q), r)

-- Some task of the list is runnable.
pub any_runnable : (ℕ → Task) → List ℕ → Bool
any_runnable m [] = false
any_runnable m (x ∷ xs) = is_runnable (m x).state || any_runnable m xs

pub any_runnable_of :
    (m : ℕ → Task) (x : ℕ) (xs : List ℕ)
    → has x xs ≡ true
    → is_runnable (m x).state ≡ true
    → any_runnable m xs ≡ true
unfolding any_runnable has
any_runnable_of m x [] h r = cc
any_runnable_of m x (y ∷ ys) h r = elim (Bool-cases (x == y)) [
  | inl e ↦ let xy : x ≡ y = ground arith in ground (arith, ap (λ z. (m z).state) xy)
  | inr e ↦ ground (arith, any_runnable_of m x ys (ground arith) r)
]

-- The search from `n` through `rest` to `stop` finds the first runnable task of these, if one is.
pub pick_from-Picked :
    (fuel n : ℕ) (s : Sched) (rest : List ℕ) (stop : ℕ)
    → length rest < fuel
    → Links s.tasks n rest stop
    → any_runnable s.tasks (rest ++ stop ∷ []) ≡ true
    → (c : ℕ) × (pick_from fuel n s ≡ some c) × Picked s.tasks rest stop c
unfolding pick_from any_runnable NoneRunnable
pick_from-Picked zero n s rest stop f l h = absurd (omega arith)
pick_from-Picked (suc fuel) n s [] stop f l h =
    let r : is_runnable (s.tasks stop).state ≡ true = ground arith in
    (stop, rw (l, r) refl, inr (refl, tt, r))
pick_from-Picked (suc fuel) n s (y ∷ ys) stop f l h =
    elim (Bool-cases (is_runnable (s.tasks y).state)) [
      | inl r ↦ (
        y,
        rw (l.0, r) refl,
        inl (record { before = []; after = ys; parts = refl; skipped = tt; runs = r }),
      )
      | inr r ↦
          go r (pick_from-Picked fuel (s.tasks y).next s ys stop (omega arith) l.1 (ground arith))
    ]
  where
    go :
        is_runnable (s.tasks y).state ≡ false
        → (c : ℕ) × (pick_from fuel (s.tasks y).next s ≡ some c) × Picked s.tasks ys stop c
        → (c : ℕ) × (pick_from (suc fuel) n s ≡ some c) × Picked s.tasks (y ∷ ys) stop c
    go r (c, e, q) = (c, rw (l.0, r) e, Picked-cons s.tasks y ys stop c r q)
