-- ===== src/Sched/Types.antt =====
-- kernel/sched.hpp and the register frame of kernel/idt.hpp: tasks, their open-file tables and the
-- scheduler's state. Tasks live at addresses, as in the source, where `kmalloc` puts them.
use hrafn_os.Prelude.{ℕ, Bool, true, false, List, ◌==◌, if◌then◌else◌}

pub data TaskState : Type 0 where
  runnable sleeping waiting dead : TaskState

pub record FileDesc : Type 0 where
  pub used : Bool
  pub inode : ℕ
  pub offset : ℕ
  pub kind : ℕ  -- the source's `type`

abbrev pub max_fds : ℕ
max_fds = 16

pub record Task : Type 0 where
  pub rsp : ℕ
  pub next : ℕ
  pub parent : ℕ
  pub fds : List FileDesc
  pub state : TaskState
  pub wake_tick : ℕ
  pub kstack_top : ℕ
  pub kstack_base : ℕ
  pub pml4 : ℕ

-- the frame that `isr_common` pushes and pops
pub record Registers : Type 0 where
  pub r15 : ℕ
  pub r14 : ℕ
  pub r13 : ℕ
  pub r12 : ℕ
  pub r11 : ℕ
  pub r10 : ℕ
  pub r9 : ℕ
  pub r8 : ℕ
  pub rbp : ℕ
  pub rdi : ℕ
  pub rsi : ℕ
  pub rdx : ℕ
  pub rcx : ℕ
  pub rbx : ℕ
  pub rax : ℕ
  pub int_no : ℕ
  pub err_code : ℕ
  pub rip : ℕ
  pub cs : ℕ
  pub rflags : ℕ
  pub rsp : ℕ
  pub ss : ℕ

-- `sizeof(registers)`: 22 words
abbrev pub frame_bytes : ℕ
frame_bytes = 176

-- `frames p` is the register frame stored at address `p`.
pub record Sched : Type 0 where
  pub current : ℕ
  pub tasks : ℕ → Task
  pub g_ticks : ℕ
  pub next_pid : ℕ
  pub frames : ℕ → Registers

-- What the scheduler asks of the rest of the kernel.
pub data Effect : Type 0 where
  destroy_space : ℕ → Effect
  release : ℕ → Effect
  set_rsp0 : ℕ → Effect
  switch_space : ℕ → Effect

abbrev pub write {ℓ} : {A : Type ℓ} → (ℕ → A) → ℕ → A → ℕ → A
write m a v x = if a == x then v else m x

abbrev pub is_dead : TaskState → Bool
is_dead dead = true
is_dead _ = false

abbrev pub is_runnable : TaskState → Bool
is_runnable runnable = true
is_runnable _ = false

abbrev pub is_waiting : TaskState → Bool
is_waiting waiting = true
is_waiting _ = false

abbrev pub is_sleeping : TaskState → Bool
is_sleeping sleeping = true
is_sleeping _ = false
