-- ===== src/Sched/Create.antt =====
-- Creating tasks in kernel/sched.cpp: `fork_current` and `task_create_user` link a runnable task in
-- behind the current one; and what `wait_current` and `sched_kill_current` do.
use hrafn_os.Sched.Types.{runnable, waiting, Task, Sched, write, is_dead, frame_bytes, Sched}
use hrafn_os.Sched.{
  set_state, set_rsp, schedule, link_task, fork_current, wait_current, live_child_from,
  stack_top_of, init,
}
use hrafn_os.Sched.Ring.{Links, Apart, IsRing, IsRing-insert, IsRing-set_rsp}
use hrafn_os.Prelude.Int.{pos, wrap, wrap-IsInt}
use hrafn_os.Prelude.{
  ℕ, zero, suc, ◌+◌, ◌-◌, ◌%◌, ◌^◌, ◌<◌, ◌≡◌, ◌≢◌, refl, Bool, true, false, not, ◌&&◌, ◌||◌, inl,
  inr, ◌⊎◌, List, [], ◌∷◌, some, arith, ◌==◌, Bool-cases, length, ◌≤◌, ltb,
}

-- The boot task is a ring of its own.
pub init-IsRing : (boot space : ℕ) (s : Sched) → IsRing (init boot space s) []
unfolding init
init-IsRing boot space s = record { links = ground arith; apart = tt; distinct = tt }

link_task-IsRing :
    (t : ℕ) (v : Task) (s : Sched) (others : List ℕ)
    → IsRing s others
    → Apart t (s.current ∷ others)
    → IsRing (link_task t v s) (t ∷ others)
unfolding link_task
link_task-IsRing t v s others r o =
    let ne = o.0 in
    IsRing-insert s _ t others r o (ground arith) (ground arith) (λ x a b. ground arith)

IsRing-other :
    (s s' : Sched) (xs : List ℕ)
    → s'.current ≡ s.current
    → s'.tasks ≡ s.tasks
    → IsRing s xs
    → IsRing s' xs
IsRing-other s s' xs c t r = record {
  links = rw (c, t) r.links;
  apart = rw c r.apart;
  distinct = r.distinct;
}

write_self {ℓ} : {A : Type ℓ} (m : ℕ → A) (a : ℕ) (v : A) → write m a v a ≡ v
write_self m a v = ground arith

-- What a successful fork gives the child at `t`, from the parent's state `s`.
pub record Forked (s s' : Sched) (child_space t stack regs : ℕ) : Type 0 where
  pub runs : (s'.tasks t).state ≡ runnable
  pub space : (s'.tasks t).pml4 ≡ child_space
  pub parent : (s'.tasks t).parent ≡ s.current
  pub files : (s'.tasks t).fds ≡ (s.tasks s.current).fds
  pub frame : s'.frames (s'.tasks t).rsp ≡ record (s.frames regs) { rax = 0 }
  pub others_same : (x : ℕ) → t ≢ x → s.current ≢ x → s'.tasks x ≡ s.tasks x
  pub parent_runs : (s'.tasks s.current).state ≡ (s.tasks s.current).state
  pub pid : s'.next_pid ≡ (s.next_pid + 1) % 2 ^ 64

-- `fork_current`, given a cloned space and fresh memory at `t`: it returns the next process id to the
-- parent, cut to an `int` and so unchanged while it is below 2^31, and counts it; the child is runnable, resumes from a copy of the parent's frame with `rax` 0,
-- has the parent's open files and the cloned space, and stands behind its parent in the ring; every
-- other task is as it was.
pub fork_current-Forked :
    (child_space t stack regs : ℕ) (s : Sched) (others : List ℕ)
    → IsRing s others
    → Apart t (s.current ∷ others)
    → child_space ≢ 0
    → let (ret, s') = fork_current child_space t stack regs s in
      (ret ≡ wrap (pos s.next_pid))
      × ((2 ^ 31 ≤ s.next_pid) ⊎ (ret ≡ pos s.next_pid))
      × IsRing s' (t ∷ others)
      × Forked s s' child_space t stack regs
unfolding fork_current link_task
fork_current-Forked child_space t stack regs s others r o nz =
    let z : (child_space == 0) ≡ false = ground arith in
    let ne = o.0 in
    let s' = (fork_current child_space t stack regs s).1 in
    let at : (s'.tasks t).rsp ≡ stack_top_of stack - frame_bytes = ground arith in
    (
      rw z refl,
      elim (Bool-cases (ltb s.next_pid (2 ^ 31))) [
        | inl t ↦ inr (rw (z, wrap-IsInt (pos s.next_pid) (ground arith, omega arith)) refl)
        | inr t ↦ inl (ground arith)
      ],
      IsRing-other (record s { tasks = s'.tasks }) s' (t ∷ others) (ground arith) refl
          (IsRing-insert s s'.tasks t others r o (ground arith) (ground arith)
            (λ x a b. ground arith)),
      record {
        runs = ground arith;
        space = ground arith;
        parent = ground arith;
        files = ground arith;
        frame = rw at (rw z (write_self s.frames (stack_top_of stack - frame_bytes) _));
        others_same = λ x a b. ground arith;
        parent_runs = ground arith;
        pid = rw z refl;
      },
    )

-- a child of the current task that is not dead is among the tasks
pub has_live_child : Sched → List ℕ → Bool
has_live_child s [] = false
has_live_child s (x ∷ xs) =
    (s.tasks x).parent == s.current && not (is_dead (s.tasks x).state) || has_live_child s xs

pub live_child_from-total :
    (fuel t : ℕ) (s : Sched) (rest : List ℕ)
    → length rest < fuel
    → Links s.tasks t rest s.current
    → Apart s.current rest
    → live_child_from fuel t s ≡ some (has_live_child s rest)
unfolding live_child_from has_live_child
live_child_from-total zero t s rest f l c = absurd (omega arith)
live_child_from-total (suc fuel) t s [] f l c =
    let e : (t == s.current) ≡ true = ground arith in rw e refl
live_child_from-total (suc fuel) t s (x ∷ xs) f l c =
    let e : (x == s.current) ≡ false = let n = c.0 in ground arith in
    rw (l.0, e)
      (ground (arith, live_child_from-total fuel (s.tasks x).next s xs (omega arith) l.1 c.1))

-- `wait_current` on a ring, with a round of fuel for each task and one more: `wait` returns 0 in the
-- saved frame; with no live child it returns at once, on the same stack pointer and with the states as
-- they are; otherwise it is the call of `schedule` with the current task waiting.
pub wait_current-cases :
    (fuel rsp : ℕ) (s : Sched) (others : List ℕ)
    → IsRing s others
    → length others < fuel
    → let s0 = set_rsp s.current rsp s in
      let s1 = record s0 { frames = write s0.frames rsp (record (s0.frames rsp) { rax = 0 }) } in
      ((has_live_child s0 others ≡ false) × (wait_current fuel rsp s ≡ some (rsp, s1, [])))
      ⊎ ((has_live_child s0 others ≡ true)
          × (wait_current fuel rsp s ≡ schedule fuel rsp (set_state s.current waiting s1)))
unfolding wait_current
wait_current-cases fuel rsp s others r f =
    let s0 = set_rsp s.current rsp s in
    let l = (IsRing-set_rsp s rsp others r).links in
    let e = live_child_from-total fuel (s0.tasks s.current).next s0 others f l r.apart in
    elim (Bool-cases (has_live_child s0 others)) [
      | inl b ↦ inr (b, rw (e, b, wait_current) refl)
      | inr b ↦ inl (b, rw (e, b, wait_current) refl)
    ]
