-- ===== src/Sched.antt =====
-- kernel/sched.cpp: the round-robin scheduler over the ring of tasks. A function of the source takes
-- the state and returns the new one beside its result and the calls it makes of the memory manager
-- and the CPU, in order. Addresses that `kmalloc` and `vmm_clone_address_space` return are arguments.
-- The loops round the ring take fuel; Sched/Reap, Sched/Wake and Sched/Turn prove how much is enough.
pub mod Types
pub mod Ring
pub mod Survivors
pub mod Reap
pub mod Wake
pub mod Turn
pub mod Fair
pub mod Create
use mathlib.Core.Option
use hrafn_os.Words.{u64, align_down}
use Types.{
  TaskState, runnable, sleeping, waiting, dead, FileDesc, max_fds, Task, Registers, frame_bytes,
  Sched, Effect, destroy_space, release, set_rsp0, switch_space, write, is_dead, is_runnable,
  is_waiting, is_sleeping,
}
use hrafn_os.Prelude.Int.{ℤ, pos, negsuc, wrap}
use hrafn_os.Prelude.{
  ℕ, zero, suc, ◌+◌, ◌-◌, ◌*◌, ◌/◌, ◌%◌, ◌^◌, ◌≤◌, ◌<◌, min, max, ◌≡◌, ◌≢◌, refl, sym, ap, ◌∙◌, ◌↔◌,
  Bool, true, false, not, ◌&&◌, ◌||◌, inl, inr, ◌⊎◌, List, [], ◌∷◌, ◌++◌, map, Option, none, some,
  bit_and, bit_or, bit_xor, arith, ltb, leb, ◌==◌, ==_iff, ltb→lt, lt→ltb, leb→le, tests,
  Bool-cases, Option-cases, if◌then◌else◌, get_or, get_elem?, set, take, drop, replicate, length,
  length-set, length-append, length-map, length-take, length-drop, length-replicate,
  take-append-drop, get_elem?-set_self, get_elem?-set_ne, get_or-set_self, get_or-set_ne,
  get_or-beyond, set-beyond, get_or-replicate,
}

-- One assignment to a field of the task at `p`.
abbrev pub set_next : ℕ → ℕ → Sched → Sched
set_next p n s = record s { tasks = write s.tasks p (record (s.tasks p) { next = n }) }

abbrev pub set_state : ℕ → TaskState → Sched → Sched
set_state p st s = record s { tasks = write s.tasks p (record (s.tasks p) { state = st }) }

abbrev pub set_rsp : ℕ → ℕ → Sched → Sched
set_rsp p v s = record s { tasks = write s.tasks p (record (s.tasks p) { rsp = v }) }

-- `if (dead->parent && dead->parent->state == WAITING) dead->parent->state = RUNNABLE`
pub wake_parent : ℕ → Sched → Sched
wake_parent parent s =
    if not (parent == 0) && is_waiting (s.tasks parent).state
    then set_state parent runnable s
    else s

-- the calls that give back a dead task's memory
pub reclaim : Task → ℕ → List Effect
reclaim d t = destroy_space d.pml4 ∷ release d.kstack_base ∷ release t ∷ []

pub reap_from : ℕ → ℕ → ℕ → Sched → Option (Sched × List Effect)
reap_from zero prev t s = none
reap_from (suc fuel) prev t s =
    let nxt = (s.tasks t).next in
    let after =
      Option.map (λ (s', es). (s', reclaim (s.tasks t) t ++ es))
        (reap_from fuel prev nxt (wake_parent (s.tasks t).parent (set_next prev nxt s))) in
    let onward = reap_from fuel t nxt s in
    if t == s.current then some (s, []) else if is_dead (s.tasks t).state then after else onward

pub reap_dead : ℕ → Sched → Option (Sched × List Effect)
reap_dead fuel s = reap_from fuel s.current (s.tasks s.current).next s

-- `if (p->state == SLEEPING && p->wake_tick <= g_ticks) p->state = RUNNABLE`
pub wake_due : ℕ → Sched → Sched
wake_due p s =
    if is_sleeping (s.tasks p).state && leb (s.tasks p).wake_tick s.g_ticks
    then set_state p runnable s
    else s

-- `do { … p = p->next; } while (p != current)`
pub wake_from : ℕ → ℕ → Sched → Option Sched
wake_from zero p s = none
wake_from (suc fuel) p s =
    let s' = wake_due p s in
    let onward = wake_from fuel (s'.tasks p).next s' in
    if (s'.tasks p).next == s'.current then some s' else onward

-- `while (n->state != RUNNABLE) n = n->next`
pub pick_from : ℕ → ℕ → Sched → Option ℕ
pick_from zero n s = none
pick_from (suc fuel) n s =
    let onward = pick_from fuel (s.tasks n).next s in
    if is_runnable (s.tasks n).state then some n else onward

-- the stack pointer to resume on
pub schedule : ℕ → ℕ → Sched → Option (ℕ × Sched × List Effect)
schedule fuel rsp s =
    if s.current == 0 then some (rsp, s, []) else elim (reap_dead fuel (set_rsp s.current rsp s)) [
      | none ↦ none
      | some (s1, es) ↦ elim (wake_from fuel s1.current s1) [
        | none ↦ none
        | some s2 ↦ elim (pick_from fuel (s2.tasks s2.current).next s2) [
          | none ↦ none
          | some n ↦ some (
            (s2.tasks n).rsp,
            record s2 { current = n },
            es ++ (set_rsp0 (s2.tasks n).kstack_top ∷ switch_space (s2.tasks n).pml4 ∷ []),
          )
        ]
      ]
    ]

-- Task creation

abbrev pub stack_size : ℕ
stack_size = 16384

-- `(stack + STACK_SIZE) & ~15ULL`
abbrev pub stack_top_of : ℕ → ℕ
stack_top_of stack = align_down (u64 (stack + stack_size)) 4

-- the frame that starts a task: every word is 0 but those that `iretq` pops
pub entry_frame : ℕ → ℕ → ℕ → ℕ → Registers
entry_frame rip cs rsp ss = record {
  r15 = 0;
  r14 = 0;
  r13 = 0;
  r12 = 0;
  r11 = 0;
  r10 = 0;
  r9 = 0;
  r8 = 0;
  rbp = 0;
  rdi = 0;
  rsi = 0;
  rdx = 0;
  rcx = 0;
  rbx = 0;
  rax = 0;
  int_no = 0;
  err_code = 0;
  rip = rip;
  cs = cs;
  rflags = 0x202;
  rsp = rsp;
  ss = ss;
}

abbrev pub close : FileDesc → FileDesc
close d = record d { used = false }

-- A new task goes into the ring behind the current one.
pub link_task : ℕ → Task → Sched → Sched
link_task t v s =
    let s1 = record s { tasks = write s.tasks t (record v { next = (s.tasks s.current).next }) } in
    set_next s1.current t s1

-- `t` and `stack` are what `kmalloc` returned. `t->fds` is not assigned: it keeps the memory's bytes.
pub task_create : ℕ → ℕ → ℕ → ℕ → Sched → Sched
task_create t stack entry kernel_space s =
    let top = stack_top_of stack in
    link_task t
      (record (s.tasks t) {
        rsp = top - frame_bytes;
        state = runnable;
        wake_tick = 0;
        kstack_top = top;
        kstack_base = stack;
        pml4 = kernel_space;
        parent = 0;
      })
      (record s {
        frames = write s.frames (top - frame_bytes) (entry_frame entry 0x08 (top - 8) 0x10);
      })

pub task_create_user : ℕ → ℕ → ℕ → ℕ → ℕ → Sched → Sched
task_create_user t stack pml4 entry user_stack_top s =
    let top = stack_top_of stack in
    link_task t
      (record (s.tasks t) {
        rsp = top - frame_bytes;
        state = runnable;
        wake_tick = 0;
        kstack_top = top;
        kstack_base = stack;
        pml4 = pml4;
        parent = 0;
        fds = map close (s.tasks t).fds;
      })
      (record s {
        frames = write s.frames (top - frame_bytes) (entry_frame entry 0x1B user_stack_top 0x23);
      })

-- `sched_init`: the boot task alone in the ring
pub init : ℕ → ℕ → Sched → Sched
init boot kernel_space s = record s {
  current = boot;
  tasks = write s.tasks boot (record (s.tasks boot) {
    next = boot;
    state = runnable;
    wake_tick = 0;
    kstack_top = 0;
    kstack_base = 0;
    pml4 = kernel_space;
    parent = 0;
    fds = map close (s.tasks boot).fds;
  });
}

-- The id that it returns is cut to an `int`; -1 says that the clone failed. `child_space` is what
-- `vmm_clone_address_space` returned, and `regs` the address of the parent's frame.
pub fork_current : ℕ → ℕ → ℕ → ℕ → Sched → ℤ × Sched
fork_current child_space t stack regs s =
    let top = stack_top_of stack in
    if child_space == 0 then (negsuc 0, s) else (
      wrap (pos s.next_pid),
      (let s' =
            link_task t
              (record (s.tasks t) {
                rsp = top - frame_bytes;
                state = runnable;
                wake_tick = 0;
                kstack_top = top;
                kstack_base = stack;
                pml4 = child_space;
                parent = s.current;
                fds = (s.tasks s.current).fds;
              })
              (record s {
                frames = write s.frames (top - frame_bytes) (record (s.frames regs) { rax = 0 });
              }) in
          record s' { next_pid = u64 (s.next_pid + 1) }),
    )

-- `while (t != current)`: is there a child of the current task that is not dead?
pub live_child_from : ℕ → ℕ → Sched → Option Bool
live_child_from zero t s = none
live_child_from (suc fuel) t s =
    let onward = live_child_from fuel (s.tasks t).next s in
    if t == s.current
    then some false
    else if (s.tasks t).parent == s.current && not (is_dead (s.tasks t).state)
    then some true
    else onward

pub wait_current : ℕ → ℕ → Sched → Option (ℕ × Sched × List Effect)
wait_current fuel rsp s =
    let s0 = set_rsp s.current rsp s in
    elim (live_child_from fuel (s0.tasks s0.current).next s0) [
      | none ↦ none
      | some live ↦
          let s1 = record s0 {
            frames = write s0.frames rsp (record (s0.frames rsp) { rax = 0 });
          } in
          if not live
          then some (rsp, s1, [])
          else schedule fuel rsp (set_state s1.current waiting s1)
    ]

pub tick : Sched → Sched
tick s = record s { g_ticks = u64 (s.g_ticks + 1) }

-- `task_sleep`, up to its `task_yield`
pub sleep_current : ℕ → Sched → Sched
sleep_current ticks s = record s {
  tasks =
      write s.tasks s.current
        (record (s.tasks s.current) { wake_tick = u64 (s.g_ticks + ticks); state = sleeping });
}

pub kill_current : Sched → Sched
kill_current s = if s.current == 0 then s else set_state s.current dead s
