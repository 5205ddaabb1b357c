-- ===== src/Tests/Tasks.antt =====
-- kernel/sched.cpp at concrete inputs.
use hrafn_os.Sched.{fork_current, set_rsp, schedule, reap_dead, set_state, wait_current}
use hrafn_os.Sched.Types.{Sched, Task, TaskState, runnable, waiting, dead, Registers, Effect, write}
use hrafn_os.Sched.Ring.{IsRing}
use hrafn_os.Sched.Survivors.{survivors, reclaims}
use hrafn_os.Sched.Reap.{Reaped, reap_dead-Reaped}
use hrafn_os.Sched.Wake.{has}
use hrafn_os.Sched.Turn.{Scheduled, Runs, schedule-Scheduled}
use hrafn_os.Sched.Fair.{schedule_times, schedule_times-reaches}
use hrafn_os.Sched.Create.{Forked, fork_current-Forked, has_live_child, wait_current-cases}
use hrafn_os.Prelude.Int.{pos, wrap}
use hrafn_os.Prelude.{
  suc, ◌+◌, ◌≤◌, ℕ, ◌≡◌, refl, true, false, ◌⊎◌, List, [], ◌∷◌, some, arith, ◌==◌, if◌then◌else◌,
  ◌^◌,
}

abbrev no_regs : Registers
no_regs = record {
  r15 = 0;
  r14 = 0;
  r13 = 0;
  r12 = 0;
  r11 = 0;
  r10 = 0;
  r9 = 0;
  r8 = 0;
  rbp = 0;
  rdi = 0;
  rsi = 0;
  rdx = 0;
  rcx = 0;
  rbx = 0;
  rax = 5;
  int_no = 128;
  err_code = 0;
  rip = 4096;
  cs = 27;
  rflags = 0x202;
  rsp = 8192;
  ss = 35;
}

abbrev a_task : ℕ → ℕ → ℕ → TaskState → Task
a_task rsp next parent st = record {
  rsp = rsp;
  next = next;
  parent = parent;
  fds = [];
  state = st;
  wake_tick = 0;
  kstack_top = 900;
  kstack_base = 800;
  pml4 = 7;
}

-- The shell at 16 waits, its child at 32 is dead, and the idle task at 48 runs.
abbrev three_tasks : Sched
three_tasks = record {
  current = 48;
  tasks = λ x.
      if x == 16
      then a_task 700 32 48 waiting
      else if x == 32
      then a_task 600 48 16 dead
      else a_task 500 16 0 runnable;
  g_ticks = 3;
  next_pid = 4;
  frames = λ _. no_regs;
}

three_tasks-IsRing : IsRing three_tasks (16 ∷ 32 ∷ [])
three_tasks-IsRing = record {
  links = (refl, (refl, refl));
  apart = (λ e. omega arith, (λ e. omega arith, tt));
  distinct = ((λ e. omega arith, tt), (tt, tt));
}

idle-Runs : Runs three_tasks (16 ∷ 32 ∷ []) 48
unfolding has
idle-Runs = (refl, refl)

schedule-Scheduled_example :
    (ret : ℕ) × (t : Sched) × (es : List Effect) × (schedule 3 444 three_tasks ≡ some (ret, t, es))
    × Scheduled (set_rsp 48 444 three_tasks) (16 ∷ 32 ∷ []) ret t es
schedule-Scheduled_example =
    schedule-Scheduled 3 444 three_tasks (16 ∷ 32 ∷ []) 48 (λ e. omega arith) three_tasks-IsRing
      (omega arith) idle-Runs

reap_dead-Reaped_example :
    (t : Sched) × (reap_dead 3 three_tasks ≡ some (t, reclaims three_tasks.tasks (16 ∷ 32 ∷ [])))
    × Reaped three_tasks t 48 (16 ∷ 32 ∷ [])
    × IsRing t (survivors three_tasks.tasks (16 ∷ 32 ∷ []))
reap_dead-Reaped_example =
    reap_dead-Reaped 3 three_tasks (16 ∷ 32 ∷ []) three_tasks-IsRing (omega arith)

fork_current-Forked_example :
    let (ret, t) = fork_current 11 64 20000 4096 three_tasks in
    (ret ≡ wrap (pos 4))
    × ((2 ^ 31 ≤ 4) ⊎ (ret ≡ pos 4))
    × IsRing t (64 ∷ 16 ∷ 32 ∷ [])
    × Forked three_tasks t 11 64 20000 4096
fork_current-Forked_example =
    fork_current-Forked 11 64 20000 4096 three_tasks (16 ∷ 32 ∷ []) three_tasks-IsRing
      (λ e. omega arith, (λ e. omega arith, (λ e. omega arith, tt))) (λ e. omega arith)

wait_current-cases_example :
    let s0 = set_rsp 48 444 three_tasks in
    let s1 = record s0 { frames = write s0.frames 444 (record (s0.frames 444) { rax = 0 }) } in
    ((has_live_child s0 (16 ∷ 32 ∷ []) ≡ false)
      × (wait_current 3 444 three_tasks ≡ some (444, s1, [])))
    ⊎ ((has_live_child s0 (16 ∷ 32 ∷ []) ≡ true)
        × (wait_current 3 444 three_tasks ≡ schedule 3 444 (set_state 48 waiting s1)))
wait_current-cases_example =
    wait_current-cases 3 444 three_tasks (16 ∷ 32 ∷ []) three_tasks-IsRing (omega arith)

-- The child at 32 is runnable, and stands behind the shell.
abbrev ready_child : Sched
ready_child = record three_tasks { tasks = write three_tasks.tasks 32 (a_task 600 48 16 runnable) }

ready_child-IsRing : IsRing ready_child (16 ∷ 32 ∷ [])
ready_child-IsRing = record {
  links = (refl, (refl, refl));
  apart = (λ e. omega arith, (λ e. omega arith, tt));
  distinct = ((λ e. omega arith, tt), (tt, tt));
}

schedule_times-reaches_example :
    (k : ℕ) × (k ≤ 1)
    × (t : Sched) × (schedule_times 3 (λ i. 400 + i) 0 (suc k) ready_child ≡ some t)
    × (t.current ≡ 32)
schedule_times-reaches_example =
    schedule_times-reaches 3 (λ i. 400 + i) 0 ready_child (16 ∷ []) 32 [] ready_child-IsRing
      (λ e. omega arith, (λ e. omega arith, (λ e. omega arith, tt))) refl (omega arith)
