-- ===== src/Sched/Survivors.antt =====
-- What reaping the dead tasks of a ring in kernel/sched.cpp comes to: who stays, what is given back
-- and who is woken, for a store of tasks and a list of them.
use hrafn_os.Sched.Types.{TaskState, runnable, Task, Effect, is_dead, is_waiting}
use hrafn_os.Sched.{reclaim}
use hrafn_os.Sched.Ring.{Apart, Distinct}
use hrafn_os.Prelude.{
  ℕ, ◌≡◌, refl, ◌∙◌, Bool, false, not, ◌&&◌, ◌||◌, inl, inr, List, [], ◌∷◌, ◌++◌, ◌==◌, Bool-cases,
  if◌then◌else◌,
}

-- the tasks of the list that are not dead
unfoldable pub survivors : (ℕ → Task) → List ℕ → List ℕ
survivors m [] = []
survivors m (x ∷ xs) = let rest = survivors m xs in if is_dead (m x).state then rest else x ∷ rest

-- the calls that give back the memory of the dead tasks of the list, in order
unfoldable pub reclaims : (ℕ → Task) → List ℕ → List Effect
reclaims m [] = []
reclaims m (x ∷ xs) =
    let rest = reclaims m xs in if is_dead (m x).state then reclaim (m x) x ++ rest else rest

-- Some dead task of the list has the parent `x`.
unfoldable pub lost_child : (ℕ → Task) → List ℕ → ℕ → Bool
lost_child m [] x = false
lost_child m (d ∷ ds) x = is_dead (m d).state && (m d).parent == x || lost_child m ds x

-- the state of task `x` once the dead of the list are reaped
unfoldable pub after_reaping : (ℕ → Task) → List ℕ → ℕ → TaskState
after_reaping m ds x =
    if not (x == 0) && (lost_child m ds x && is_waiting (m x).state) then runnable else (m x).state

-- Two stores that differ only in `next` and in waiting tasks made runnable.
pub record Agree (m m' : ℕ → Task) : Type 0 where
  pub dead : (x : ℕ) → is_dead (m' x).state ≡ is_dead (m x).state
  pub parent : (x : ℕ) → (m' x).parent ≡ (m x).parent
  pub pml4 : (x : ℕ) → (m' x).pml4 ≡ (m x).pml4
  pub kstack_base : (x : ℕ) → (m' x).kstack_base ≡ (m x).kstack_base
  pub kstack_top : (x : ℕ) → (m' x).kstack_top ≡ (m x).kstack_top
  pub rsp : (x : ℕ) → (m' x).rsp ≡ (m x).rsp
  pub wake_tick : (x : ℕ) → (m' x).wake_tick ≡ (m x).wake_tick

pub Agree-trans : {m m' m'' : ℕ → Task} → Agree m m' → Agree m' m'' → Agree m m''
Agree-trans p q = record {
  dead = λ x. q.dead x ∙ p.dead x;
  parent = λ x. q.parent x ∙ p.parent x;
  pml4 = λ x. q.pml4 x ∙ p.pml4 x;
  kstack_base = λ x. q.kstack_base x ∙ p.kstack_base x;
  kstack_top = λ x. q.kstack_top x ∙ p.kstack_top x;
  rsp = λ x. q.rsp x ∙ p.rsp x;
  wake_tick = λ x. q.wake_tick x ∙ p.wake_tick x;
}

module _ {m m' : ℕ → Task} (a : Agree m m') where
  pub survivors-Agree : (xs : List ℕ) → survivors m' xs ≡ survivors m xs
  unfolding survivors
  survivors-Agree [] = refl
  survivors-Agree (x ∷ xs) = rw (a.dead x, survivors-Agree xs)

  pub reclaims-Agree : (xs : List ℕ) → reclaims m' xs ≡ reclaims m xs
  unfolding reclaims reclaim
  reclaims-Agree [] = refl
  reclaims-Agree (x ∷ xs) = rw (a.dead x, a.pml4 x, a.kstack_base x, reclaims-Agree xs)

  pub lost_child-Agree : (xs : List ℕ) (p : ℕ) → lost_child m' xs p ≡ lost_child m xs p
  unfolding lost_child
  lost_child-Agree [] p = refl
  lost_child-Agree (x ∷ xs) p = rw (a.dead x, a.parent x, lost_child-Agree xs p)

pub Apart-survivors : (m : ℕ → Task) (x : ℕ) (xs : List ℕ) → Apart x xs → Apart x (survivors m xs)
unfolding survivors
Apart-survivors m x [] h = tt
Apart-survivors m x (y ∷ ys) h = elim (Bool-cases (is_dead (m y).state)) [
  | inl e ↦ rw e (Apart-survivors m x ys h.1)
  | inr e ↦ rw e (h.0, Apart-survivors m x ys h.1)
]

pub Distinct-survivors : (m : ℕ → Task) (xs : List ℕ) → Distinct xs → Distinct (survivors m xs)
unfolding survivors
Distinct-survivors m [] h = tt
Distinct-survivors m (y ∷ ys) h = elim (Bool-cases (is_dead (m y).state)) [
  | inl e ↦ rw e (Distinct-survivors m ys h.1)
  | inr e ↦ rw e (Apart-survivors m y ys h.0, Distinct-survivors m ys h.1)
]
