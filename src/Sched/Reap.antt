-- ===== src/Sched/Reap.antt =====
-- `reap_dead` of kernel/sched.cpp: exactly the dead tasks other than the current one leave the ring,
-- their memory is given back, and a parent that waits for one of them becomes runnable.
use mathlib.Core.Path.{subst}
use hrafn_os.Sched.Types.{TaskState, runnable, Task, Sched, is_dead, is_waiting}
use hrafn_os.Sched.{set_next, wake_parent, reap_from, reap_dead}
use hrafn_os.Sched.Ring.{Links, Links-frame, Apart, Distinct, IsRing}
use hrafn_os.Prelude.{
  ℕ, zero, suc, ◌<◌, ◌≡◌, ◌≢◌, refl, sym, ◌∙◌, Bool, true, false, not, ◌&&◌, ◌||◌, inl, inr, List,
  [], ◌∷◌, some, arith, ◌==◌, Bool-cases, if◌then◌else◌, length,
}
use hrafn_os.Sched.Survivors.{
  survivors, reclaims, lost_child, after_reaping, Agree, Agree-trans, survivors-Agree,
  reclaims-Agree, lost_child-Agree, Apart-survivors, Distinct-survivors,
}

-- One dead task is taken out: its predecessor is linked past it and its parent woken.
module _ (s : Sched) (prev nxt parent : ℕ) where
  unlinked : Sched
  unlinked = wake_parent parent (set_next prev nxt s)

  unlinked-Agree : Agree s.tasks unlinked.tasks
  unfolding unlinked wake_parent
  unlinked-Agree = record {
    dead = λ x. ground arith;
    parent = λ x. ground arith;
    pml4 = λ x. ground arith;
    kstack_base = λ x. ground arith;
    kstack_top = λ x. ground arith;
    rsp = λ x. ground arith;
    wake_tick = λ x. ground arith;
  }

  next-unlinked : (x : ℕ) → prev ≢ x → (unlinked.tasks x).next ≡ (s.tasks x).next
  unfolding unlinked wake_parent
  next-unlinked x ne = ground arith

  next-unlinked_self : (unlinked.tasks prev).next ≡ nxt
  unfolding unlinked wake_parent
  next-unlinked_self = ground arith

  state-unlinked :
      (x : ℕ)
      → (unlinked.tasks x).state ≡ (
          if not (x == 0) && (parent == x && is_waiting (s.tasks x).state)
          then runnable
          else (s.tasks x).state)
  unfolding unlinked wake_parent
  state-unlinked x = ground arith

  unlinked-rest :
      (unlinked.current ≡ s.current)
      × (unlinked.g_ticks ≡ s.g_ticks)
      × (unlinked.next_pid ≡ s.next_pid)
      × (unlinked.frames ≡ s.frames)
  unfolding unlinked wake_parent
  unlinked-rest = ground arith

reaping-cons_live :
    (m : ℕ → Task) (x : ℕ) (xs : List ℕ) (y : ℕ)
    → is_dead (m x).state ≡ false
    → after_reaping m xs y ≡ after_reaping m (x ∷ xs) y
unfolding after_reaping lost_child
reaping-cons_live m x xs y d = rw d refl

-- the two steps of waking in terms of the tests that they make
woken_twice :
    (z p q : Bool) (st : TaskState)
    → (if not z && (q && is_waiting (if not z && (p && is_waiting st) then runnable else st))
        then runnable
        else (if not z && (p && is_waiting st) then runnable else st))
      ≡ (if not z && ((p || q) && is_waiting st) then runnable else st)
woken_twice z p q st = ground arith

reaping-cons_dead :
    (s : Sched) (prev x : ℕ) (xs : List ℕ) (y : ℕ)
    → is_dead (s.tasks x).state ≡ true
    → after_reaping (unlinked s prev (s.tasks x).next (s.tasks x).parent).tasks xs y
      ≡ after_reaping s.tasks (x ∷ xs) y
unfolding after_reaping lost_child
reaping-cons_dead s prev x xs y d =
    rw
      (
        lost_child-Agree (unlinked-Agree s prev (s.tasks x).next (s.tasks x).parent) xs y,
        state-unlinked s prev (s.tasks x).next (s.tasks x).parent y,
        d,
      )
      (woken_twice (y == 0) ((s.tasks x).parent == y) (lost_child s.tasks xs y) (s.tasks y).state)

-- What the loop leaves when it has walked `rest` behind the task `prev`.
pub record Reaped (s s' : Sched) (prev : ℕ) (rest : List ℕ) : Type 0 where
  pub links : Links s'.tasks (s'.tasks prev).next (survivors s.tasks rest) s.current
  pub agree : Agree s.tasks s'.tasks
  pub next : (x : ℕ) → Apart x rest → prev ≢ x → (s'.tasks x).next ≡ (s.tasks x).next
  pub states : (x : ℕ) → (s'.tasks x).state ≡ after_reaping s.tasks rest x
  pub current : s'.current ≡ s.current
  pub g_ticks : s'.g_ticks ≡ s.g_ticks
  pub next_pid : s'.next_pid ≡ s.next_pid
  pub frames : s'.frames ≡ s.frames

abbrev Outcome : ℕ → ℕ → ℕ → Sched → List ℕ → Type 0
Outcome fuel prev t s rest =
    (s' : Sched) × (reap_from fuel prev t s ≡ some (s', reclaims s.tasks rest))
    × Reaped s s' prev rest

module _ (fuel prev x : ℕ) (s : Sched) (xs : List ℕ) (o : Apart prev (x ∷ xs)) (nc : s.current ≢ x)
    (pn : (s.tasks prev).next ≡ x) where
  dead_Reaped :
      is_dead (s.tasks x).state ≡ true
      → (s' : Sched) → Reaped (unlinked s prev (s.tasks x).next (s.tasks x).parent) s' prev xs
      → Reaped s s' prev (x ∷ xs)
  unfolding survivors
  dead_Reaped d s' r =
      let nxt = (s.tasks x).next in
      let par = (s.tasks x).parent in
      let a = unlinked-Agree s prev nxt par in
      let k = unlinked-rest s prev nxt par in
      record {
        links = rw (d, ← k.0, ← survivors-Agree a xs) r.links;
        agree = Agree-trans a r.agree;
        next = λ y h ne. r.next y h.1 ne ∙ next-unlinked s prev nxt par y ne;
        states = λ y. r.states y ∙ reaping-cons_dead s prev x xs y d;
        current = r.current ∙ k.0;
        g_ticks = r.g_ticks ∙ k.1;
        next_pid = r.next_pid ∙ k.2;
        frames = r.frames ∙ k.3;
      }

  reap_dead_task :
      is_dead (s.tasks x).state ≡ true
      → Outcome fuel prev (s.tasks x).next (unlinked s prev (s.tasks x).next (s.tasks x).parent) xs
      → Outcome (suc fuel) prev x s (x ∷ xs)
  unfolding reap_from unlinked survivors reclaims
  reap_dead_task d (s', e, r) =
      let a = unlinked-Agree s prev (s.tasks x).next (s.tasks x).parent in
      let nc' : (x == s.current) ≡ false = ground arith in
      (s', rw (nc', d, e, reclaims-Agree a xs) refl, dead_Reaped d s' r)

  reap_live_task :
      is_dead (s.tasks x).state ≡ false
      → Outcome fuel x (s.tasks x).next s xs
      → Outcome (suc fuel) prev x s (x ∷ xs)
  unfolding reap_from survivors reclaims
  reap_live_task d (s', e, r) =
      let nc' : (x == s.current) ≡ false = ground arith in
      (
        s',
        rw (nc', d, e) refl,
        record {
          links = rw d (r.next prev o.1 (λ e'. o.0 (sym e')) ∙ pn, r.links);
          agree = r.agree;
          next = λ y h ne. r.next y h.1 (λ e'. h.0 (sym e'));
          states = λ y. r.states y ∙ reaping-cons_live s.tasks x xs y d;
          current = r.current;
          g_ticks = r.g_ticks;
          next_pid = r.next_pid;
          frames = r.frames;
        },
      )

reap_none :
    (fuel prev : ℕ) (s : Sched)
    → (s.tasks prev).next ≡ s.current
    → Outcome (suc fuel) prev s.current s []
unfolding reap_from survivors reclaims
reap_none fuel prev s pn =
    let same : (s.current == s.current) ≡ true = ground arith in
    (
      s,
      rw same refl,
      record {
        links = pn;
        agree = record {
          dead = λ x. refl;
          parent = λ x. refl;
          pml4 = λ x. refl;
          kstack_base = λ x. refl;
          kstack_top = λ x. refl;
          rsp = λ x. refl;
          wake_tick = λ x. refl;
        };
        next = λ x h ne. refl;
        states = λ x. sym (nothing_lost x);
        current = refl;
        g_ticks = refl;
        next_pid = refl;
        frames = refl;
      },
    )
  where
    nothing_lost : (x : ℕ) → after_reaping s.tasks [] x ≡ (s.tasks x).state
    nothing_lost x = unfold after_reaping lost_child in ground arith

reap_from-Reaped :
    (fuel prev t : ℕ) (s : Sched) (rest : List ℕ)
    → length rest < fuel
    → Links s.tasks t rest s.current
    → Apart s.current rest
    → Distinct rest
    → Apart prev rest
    → (s.tasks prev).next ≡ t
    → Outcome fuel prev t s rest
reap_from-Reaped zero prev t s rest f l c d o pn = absurd (omega arith)
reap_from-Reaped (suc fuel) prev t s [] f l c d o pn =
    subst (λ z. Outcome (suc fuel) prev z s []) (sym l) (reap_none fuel prev s (pn ∙ l))
reap_from-Reaped (suc fuel) prev t s (x ∷ xs) f l c d o pn =
    let nxt = (s.tasks x).next in
    let par = (s.tasks x).parent in
    let u = unlinked s prev nxt par in
    let k : u.current ≡ s.current = (unlinked-rest s prev nxt par).0 in
    subst (λ z. Outcome (suc fuel) prev z s (x ∷ xs)) (sym l.0)
      (elim (Bool-cases (is_dead (s.tasks x).state)) [
        | inl e ↦ reap_dead_task fuel prev x s xs o c.0 (pn ∙ l.0) e (
            reap_from-Reaped fuel prev nxt u xs (omega arith)
              (rw k (
                Links-frame s.tasks u.tasks prev nxt xs s.current o.1 (next-unlinked s prev nxt par)
                  l.1))
              (rw k c.1) d.1 o.1 (next-unlinked_self s prev nxt par))
        | inr e ↦
            reap_live_task fuel prev x s xs o c.0 (pn ∙ l.0) e
              (reap_from-Reaped fuel x nxt s xs (omega arith) l.1 c.1 d.1 d.0 refl)
      ])

-- On a ring of `length others + 1` tasks `reap_dead` ends within that many rounds. The ring that it
-- leaves is the current task and the others that were not dead, in order; the memory of each of the
-- dead is given back, in order; a task that was waiting for one of them is runnable, and all other
-- states, saved stack pointers, stacks and address spaces are as before.
pub reap_dead-Reaped :
    (fuel : ℕ) (s : Sched) (others : List ℕ)
    → IsRing s others
    → length others < fuel
    → (s' : Sched) × (reap_dead fuel s ≡ some (s', reclaims s.tasks others))
      × Reaped s s' s.current others
      × IsRing s' (survivors s.tasks others)
unfolding reap_dead
reap_dead-Reaped fuel s others r f = ringed (
    reap_from-Reaped fuel s.current (s.tasks s.current).next s others f r.links r.apart r.distinct
      r.apart refl)
  where
    ringed :
        Outcome fuel s.current (s.tasks s.current).next s others
        → (s' : Sched) × (reap_from fuel s.current (s.tasks s.current).next s
            ≡ some (s', reclaims s.tasks others))
          × Reaped s s' s.current others
          × IsRing s' (survivors s.tasks others)
    ringed (s', e, q) = (
      s',
      e,
      q,
      record {
        links = rw q.current q.links;
        apart = rw q.current (Apart-survivors s.tasks s.current others r.apart);
        distinct = Distinct-survivors s.tasks others r.distinct;
      },
    )
