-- ===== src/Sched/Turn.antt =====
-- `schedule` of kernel/sched.cpp as a whole: it ends, and hands the CPU to the next runnable task.
use mathlib.Core.Path.{subst}
use hrafn_os.Sched.Types.{
  TaskState, Task, Sched, Effect, set_rsp0, switch_space, is_dead, is_runnable,
}
use hrafn_os.Sched.{set_rsp, wake_from, pick_from, reap_dead, schedule}
use hrafn_os.Sched.Ring.{Links-same, IsRing, IsRing-turn, IsRing-set_rsp}
use hrafn_os.Sched.Survivors.{survivors, reclaims, after_reaping}
use hrafn_os.Sched.Reap.{Reaped, reap_dead-Reaped}
use hrafn_os.Sched.Wake.{
  has, after_waking, Woken, wake_from-Woken, Picked, any_runnable_of, pick_from-Picked,
}
use hrafn_os.Prelude.{
  ℕ, ◌≤◌, ◌<◌, ◌≡◌, ◌≢◌, refl, sym, ap, ◌∙◌, true, false, inl, inr, List, [], ◌∷◌, ◌++◌, some,
  arith, ◌==◌, Bool-cases, length,
}

-- The other tasks in ring order, seen from the picked task.
abbrev pub turned_ring :
    {m : ℕ → Task} {xs : List ℕ} (stop : ℕ) {c : ℕ} → Picked m xs stop c → List ℕ
turned_ring stop (inl f) = f.after ++ stop ∷ f.before
turned_ring {xs} stop (inr p) = xs

-- What a call of `schedule` has done, from the state `s` in which the stack pointer was saved, on a
-- ring with these `others`.
pub record Scheduled (s : Sched) (others : List ℕ) (ret : ℕ) (t : Sched) (es : List Effect)
    : Type 0 where
  -- the tasks in between, as `reap_dead` left them
  pub reaped : Sched
  pub reaping : Reaped s reaped s.current others
  pub picked : Picked t.tasks (survivors s.tasks others) s.current t.current
  pub states :
      (x : ℕ) → (t.tasks x).state ≡ after_waking reaped (s.current ∷ survivors s.tasks others) x
  pub resumes : ret ≡ (s.tasks t.current).rsp
  pub effects :
      es
      ≡ reclaims s.tasks others
        ++ (set_rsp0 (s.tasks t.current).kstack_top ∷ switch_space (s.tasks t.current).pml4 ∷ [])
  pub ring : IsRing t (turned_ring s.current picked)

-- Some task of the ring is runnable before the call: the idle task always is.
abbrev pub Runs : Sched → List ℕ → ℕ → Type 0
Runs s others x = (has x (s.current ∷ others) ≡ true) × (is_runnable (s.tasks x).state ≡ true)

has-survivors :
    (m : ℕ → Task) (x : ℕ) (xs : List ℕ) (c : ℕ)
    → is_dead (m x).state ≡ false
    → has x (c ∷ xs) ≡ true
    → has x (survivors m xs ++ c ∷ []) ≡ true
unfolding has survivors
has-survivors m x [] c d h = h
has-survivors m x (y ∷ ys) c d h = elim (Bool-cases (is_dead (m y).state)) [
  | inl e ↦
      let ne : (x == y) ≡ false = elim (Bool-cases (x == y)) [
        | inl xy ↦ let q : x ≡ y = ground arith in ground (arith, ap (λ z. is_dead (m z).state) q)
        | inr xy ↦ xy
      ] in
      rw e (has-survivors m x ys c d (ground arith))
  | inr e ↦ elim (Bool-cases (x == y)) [
    | inl xy ↦ rw (e, xy) refl
    | inr xy ↦ rw (e, xy) (has-survivors m x ys c d (ground arith))
  ]
]

pub not_dead : (st : TaskState) → is_runnable st ≡ true → is_dead st ≡ false
not_dead st h = ground arith

pub stays_runnable :
    (s r : Sched) (prev : ℕ) (others xs : List ℕ) (x : ℕ)
    → Reaped s r prev others
    → is_runnable (s.tasks x).state ≡ true
    → is_runnable (after_waking r xs x) ≡ true
unfolding after_waking after_reaping
stays_runnable s r prev others xs x q h = ground (arith, q.states x)

pub length-survivors-le : (m : ℕ → Task) (xs : List ℕ) → length (survivors m xs) ≤ length xs
unfolding survivors
length-survivors-le m [] = omega arith
length-survivors-le m (x ∷ xs) = ground (arith, length-survivors-le m xs)

-- The ring after the CPU went to the picked task.
turned :
    (u : Sched) (live : List ℕ) (cur c : ℕ)
    → IsRing u live
    → u.current ≡ cur
    → (p : Picked u.tasks live cur c) → IsRing (record u { current = c }) (turned_ring cur p)
turned u live cur c r e (inl f) =
    rw (← e) (IsRing-turn u f.before c f.after (subst (λ l. IsRing u l) f.parts r))
turned u live cur c r e (inr (q, _, _)) =
    subst (λ z. IsRing (record u { current = z }) live) (e ∙ sym q) r

IsRing-kept : (r u : Sched) (live ids : List ℕ) → IsRing r live → Woken r u ids → IsRing u live
IsRing-kept r u live ids g w = record {
  links =
      rw (w.current, w.next r.current) (Links-same r.tasks u.tasks _ live r.current w.next g.links);
  apart = rw w.current g.apart;
  distinct = g.distinct;
}

module _ (fuel rsp : ℕ) (s0 : Sched) (others : List ℕ) (f : length others < fuel)
    (nz : s0.current ≢ 0) where
  -- the state with the interrupted task's stack pointer saved
  abbrev s : Sched
  s = set_rsp s0.current rsp s0

  finish :
      (r u : Sched) (c : ℕ)
      → reap_dead fuel s ≡ some (r, reclaims s.tasks others)
      → Reaped s r s.current others
      → IsRing r (survivors s.tasks others)
      → wake_from fuel r.current r ≡ some u
      → Woken r u (r.current ∷ survivors s.tasks others)
      → pick_from fuel (u.tasks u.current).next u ≡ some c
      → Picked u.tasks (survivors s.tasks others) s.current c
      → (ret : ℕ) × (t : Sched) × (es : List Effect) × (schedule fuel rsp s0 ≡ some (ret, t, es))
        × Scheduled s others ret t es
  unfolding schedule
  finish r u c e1 q1 g e2 w e3 p =
      let nz' : (s0.current == 0) ≡ false = ground arith in
      let live = survivors s.tasks others in
      (
        (u.tasks c).rsp,
        record u { current = c },
        reclaims s.tasks others
            ++ (set_rsp0 (u.tasks c).kstack_top ∷ switch_space (u.tasks c).pml4 ∷ []),
        rw (nz', e1, e2, e3) refl,
        record {
          reaped = r;
          reaping = q1;
          picked = p;
          states = λ x. w.states x ∙ ap (λ z. after_waking r (z ∷ live) x) q1.current;
          resumes = w.rsp c ∙ q1.agree.rsp c;
          effects = rw (w.kstack_top c, q1.agree.kstack_top c, w.pml4 c, q1.agree.pml4 c) refl;
          ring = turned u live s.current c (IsRing-kept r u live _ g w) (w.current ∙ q1.current) p;
        },
      )

-- On a ring of tasks of which one is runnable, `schedule` ends within one round of fuel more than
-- there are tasks.  It reaps the dead among the other tasks and wakes the sleepers whose time has
-- come; the new current task is the next runnable one behind the old current task, which itself comes
-- last; it resumes on that task's saved stack pointer, with that task's kernel stack and address space
-- selected after the dead were given back; and the tasks form a ring again.
pub schedule-Scheduled :
    (fuel rsp : ℕ) (s0 : Sched) (others : List ℕ) (idle : ℕ)
    → s0.current ≢ 0
    → IsRing s0 others
    → length others < fuel
    → Runs s0 others idle
    → (ret : ℕ) × (t : Sched) × (es : List Effect) × (schedule fuel rsp s0 ≡ some (ret, t, es))
      × Scheduled (set_rsp s0.current rsp s0) others ret t es
schedule-Scheduled fuel rsp s0 others idle nz g f runs =
    let s = set_rsp s0.current rsp s0 in
    let g' = IsRing-set_rsp s0 rsp others g in
    let run' : is_runnable (s.tasks idle).state ≡ true = let r = runs.1 in ground arith in
    reaped g' run' (reap_dead-Reaped fuel s others g' f)
  where
    s : Sched
    s = set_rsp s0.current rsp s0

    Goal : Type 0
    Goal =
        (ret : ℕ) × (t : Sched) × (es : List Effect) × (schedule fuel rsp s0 ≡ some (ret, t, es))
        × Scheduled s others ret t es

    picked :
        (r u : Sched)
        → reap_dead fuel s ≡ some (r, reclaims s.tasks others)
        → Reaped s r s.current others
        → IsRing r (survivors s.tasks others)
        → wake_from fuel r.current r ≡ some u
        → Woken r u (r.current ∷ survivors s.tasks others)
        → (c : ℕ) × (pick_from fuel (u.tasks u.current).next u ≡ some c)
          × Picked u.tasks (survivors s.tasks others) u.current c
        → Goal
    picked r u e1 q1 g1 e2 w (c, e3, p) =
        finish fuel rsp s0 others f nz r u c e1 q1 g1 e2 w e3
          (subst (λ z. Picked u.tasks (survivors s.tasks others) z c) (w.current ∙ q1.current) p)

    woken :
        (r : Sched)
        → is_runnable (s.tasks idle).state ≡ true
        → reap_dead fuel s ≡ some (r, reclaims s.tasks others)
        → Reaped s r s.current others
        → IsRing r (survivors s.tasks others)
        → (u : Sched) × (wake_from fuel r.current r ≡ some u)
          × Woken r u (r.current ∷ survivors s.tasks others)
        → Goal
    woken r run' e1 q1 g1 (u, e2, w) =
        let live = survivors s.tasks others in
        let alive = not_dead _ run' in
        let at : has idle (live ++ u.current ∷ []) ≡ true =
          rw (w.current, q1.current) (has-survivors s.tasks idle others s.current alive runs.0) in
        let st : is_runnable (u.tasks idle).state ≡ true =
          rw (w.states idle) (stays_runnable s r s.current others _ idle q1 run') in
        let gu = IsRing-kept r u live _ g1 w in
        picked r u e1 q1 g1 e2 w (
          pick_from-Picked fuel (u.tasks u.current).next u live u.current
            (omega (arith, length-survivors-le s.tasks others)) gu.links
            (any_runnable_of u.tasks idle (live ++ u.current ∷ []) at st))

    reaped :
        IsRing s others
        → is_runnable (s.tasks idle).state ≡ true
        → (r : Sched) × (reap_dead fuel s ≡ some (r, reclaims s.tasks others))
          × Reaped s r s.current others
          × IsRing r (survivors s.tasks others)
        → Goal
    reaped g' run' (r, e1, q1, g1) = woken r run' e1 q1 g1 (
        wake_from-Woken fuel r.current r (survivors s.tasks others)
          (omega (arith, length-survivors-le s.tasks others)) g1.links g1.apart)
