-- ===== src/Sched/Ring.antt =====
-- The ring of tasks that kernel/sched.cpp walks: from a task the `next` pointers lead through the
-- listed tasks and back. Here are the ring's shape, and turning it to start at another task.
use hrafn_os.Sched.{set_rsp}
use hrafn_os.Sched.Types.{Task, Sched}
use hrafn_os.Prelude.{ℕ, ◌≡◌, ◌≢◌, sym, List, [], ◌∷◌, ◌++◌, arith}

-- From pointer `p` the `next` pointers lead through `xs` to `stop`.
abbrev pub Links : (ℕ → Task) → ℕ → List ℕ → ℕ → Type 0
Links m p [] stop = p ≡ stop
Links m p (x ∷ xs) stop = (p ≡ x) × Links m (m x).next xs stop

-- `x` is none of `xs`.
abbrev pub Apart : ℕ → List ℕ → Type 0
Apart x [] = Unit
Apart x (y ∷ ys) = (x ≢ y) × Apart x ys

abbrev pub Distinct : List ℕ → Type 0
Distinct [] = Unit
Distinct (x ∷ xs) = Apart x xs × Distinct xs

-- The ring is the current task and the `others`, in order.
pub record IsRing (s : Sched) (others : List ℕ) : Type 0 where
  pub links : Links s.tasks (s.tasks s.current).next others s.current
  pub apart : Apart s.current others
  pub distinct : Distinct others

-- A change that leaves `next` alone except at `a` leaves a walk alone that does not meet `a`.
pub Links-frame :
    (m m' : ℕ → Task) (a p : ℕ) (xs : List ℕ) (stop : ℕ)
    → Apart a xs
    → ((x : ℕ) → a ≢ x → (m' x).next ≡ (m x).next)
    → Links m p xs stop
    → Links m' p xs stop
Links-frame m m' a p [] stop o same l = l
Links-frame m m' a p (x ∷ xs) stop o same l =
    (l.0, rw (same x o.0) (Links-frame m m' a (m x).next xs stop o.1 same l.1))

pub Links-same :
    (m m' : ℕ → Task) (p : ℕ) (xs : List ℕ) (stop : ℕ)
    → ((x : ℕ) → (m' x).next ≡ (m x).next)
    → Links m p xs stop
    → Links m' p xs stop
Links-same m m' p [] stop same l = l
Links-same m m' p (x ∷ xs) stop same l =
    (l.0, rw (same x) (Links-same m m' (m x).next xs stop same l.1))

pub Links-append :
    (m : ℕ → Task) (p : ℕ) (xs : List ℕ) (c : ℕ) (ys : List ℕ) (stop : ℕ)
    → Links m p xs c
    → Links m (m c).next ys stop
    → Links m p (xs ++ c ∷ ys) stop
Links-append m p [] c ys stop l k = (l, k)
Links-append m p (x ∷ xs) c ys stop l k = (l.0, Links-append m (m x).next xs c ys stop l.1 k)

-- A walk through `c` splits there.
pub Links-split :
    (m : ℕ → Task) (p : ℕ) (xs : List ℕ) (c : ℕ) (ys : List ℕ) (stop : ℕ)
    → Links m p (xs ++ c ∷ ys) stop
    → Links m p xs c × Links m (m c).next ys stop
Links-split m p [] c ys stop l = (l.0, l.1)
Links-split m p (x ∷ xs) c ys stop l =
    let r = Links-split m (m x).next xs c ys stop l.1 in ((l.0, r.0), r.1)

-- Distinctness under concatenation

abbrev Across : List ℕ → List ℕ → Type 0
Across [] ys = Unit
Across (x ∷ xs) ys = Apart x ys × Across xs ys

pub Apart-append : (x : ℕ) (xs ys : List ℕ) → Apart x xs → Apart x ys → Apart x (xs ++ ys)
Apart-append x [] ys h k = k
Apart-append x (y ∷ xs) ys h k = (h.0, Apart-append x xs ys h.1 k)

pub Apart-split : (x : ℕ) (xs ys : List ℕ) → Apart x (xs ++ ys) → Apart x xs × Apart x ys
Apart-split x [] ys h = (tt, h)
Apart-split x (y ∷ xs) ys h = let r = Apart-split x xs ys h.1 in ((h.0, r.0), r.1)

Distinct-split : (xs ys : List ℕ) → Distinct (xs ++ ys) → Distinct xs × Distinct ys × Across xs ys
Distinct-split [] ys h = (tt, h, tt)
Distinct-split (x ∷ xs) ys h =
    let r = Distinct-split xs ys h.1 in
    let q = Apart-split x xs ys h.0 in ((q.0, r.0), r.1, (q.1, r.2))

Distinct-append : (xs ys : List ℕ) → Distinct xs → Distinct ys → Across xs ys → Distinct (xs ++ ys)
Distinct-append [] ys h k a = k
Distinct-append (x ∷ xs) ys h k a = (Apart-append x xs ys h.0 a.0, Distinct-append xs ys h.1 k a.1)

Across-nil : (ys : List ℕ) → Across ys []
Across-nil [] = tt
Across-nil (y ∷ ys) = (tt, Across-nil ys)

Across-cons : (ys : List ℕ) (x : ℕ) (xs : List ℕ) → Apart x ys → Across ys xs → Across ys (x ∷ xs)
Across-cons [] x xs h a = tt
Across-cons (y ∷ ys) x xs h a = ((λ e. h.0 (sym e), a.0), Across-cons ys x xs h.1 a.1)

Across-sym : (xs ys : List ℕ) → Across xs ys → Across ys xs
Across-sym [] ys a = Across-nil ys
Across-sym (x ∷ xs) ys a = Across-cons ys x xs a.0 (Across-sym xs ys a.1)

Distinct-swap : (xs ys : List ℕ) → Distinct (xs ++ ys) → Distinct (ys ++ xs)
Distinct-swap xs ys h =
    let r = Distinct-split xs ys h in Distinct-append ys xs r.1 r.0 (Across-sym xs ys r.2)

-- The ring seen from another of its tasks.
pub IsRing-turn :
    (s : Sched) (before : List ℕ) (c : ℕ) (after : List ℕ)
    → IsRing s (before ++ c ∷ after)
    → IsRing (record s { current = c }) (after ++ s.current ∷ before)
IsRing-turn s before c after r =
    let l = Links-split s.tasks (s.tasks s.current).next before c after s.current r.links in
    let d : Distinct (c ∷ (after ++ s.current ∷ before)) =
      Distinct-swap (s.current ∷ before) (c ∷ after) (r.apart, r.distinct) in
    record {
      links = Links-append s.tasks (s.tasks c).next after s.current before c l.1 l.0;
      apart = d.0;
      distinct = d.1;
    }

-- A task linked in behind the current one.
pub IsRing-insert :
    (s : Sched) (m' : ℕ → Task) (t : ℕ) (others : List ℕ)
    → IsRing s others
    → Apart t (s.current ∷ others)
    → (m' s.current).next ≡ t
    → (m' t).next ≡ (s.tasks s.current).next
    → ((x : ℕ) → t ≢ x → s.current ≢ x → (m' x).next ≡ (s.tasks x).next)
    → IsRing (record s { tasks = m' }) (t ∷ others)
IsRing-insert s m' t others r o e1 e2 same = record {
  links = (e1, rw e2 (walk others (s.tasks s.current).next o.1 r.apart r.links));
  apart = (λ e. o.0 (sym e), r.apart);
  distinct = (o.1, r.distinct);
}
  where
    walk :
        (xs : List ℕ) (p : ℕ)
        → Apart t xs
        → Apart s.current xs
        → Links s.tasks p xs s.current
        → Links m' p xs s.current
    walk [] p h k l = l
    walk (x ∷ xs) p h k l = (l.0, rw (same x h.0 k.0) (walk xs (s.tasks x).next h.1 k.1 l.1))

-- Saving the current task's stack pointer does not touch the ring.
pub IsRing-set_rsp :
    (s : Sched) (rsp : ℕ) (others : List ℕ)
    → IsRing s others
    → IsRing (set_rsp s.current rsp s) others
IsRing-set_rsp s rsp others r =
    let e : ((set_rsp s.current rsp s).tasks s.current).next ≡ (s.tasks s.current).next =
      ground arith in
    record {
      links = rw e (
          Links-same s.tasks (set_rsp s.current rsp s).tasks _ others s.current (λ x. ground arith)
            r.links);
      apart = r.apart;
      distinct = r.distinct;
    }
