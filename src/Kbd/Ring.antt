-- ===== src/Kbd/Ring.antt =====
-- The input ring of kernel/kbd.cpp behaves as a FIFO queue of at most 127 characters.
use hrafn_os.Kbd.{Keyboard, buffer_push, getchar, power_on}
use hrafn_os.Prelude.{
  ℕ, zero, suc, ◌+◌, ◌-◌, ◌%◌, ◌<◌, ◌≡◌, ◌≢◌, refl, ap, ◌∙◌, true, false, inl, inr, List, [], ◌∷◌,
  ◌++◌, Option, none, some, arith, ◌==◌, Bool-cases, if◌then◌else◌, get_or, set, length, length-set,
  get_or-set_self, get_or-set_ne,
}

pub record IsValid (k : Keyboard) : Type 0 where
  pub storage : length k.buf ≡ 128
  pub head_in : k.head < 128
  pub tail_in : k.tail < 128

-- The `n` characters from slot `i` on, round the end of the storage.
abbrev pub slots : List ℕ → ℕ → ℕ → List ℕ
slots buf i zero = []
slots buf i (suc n) = get_or buf i 0 ∷ slots buf ((i + 1) % 128) n

abbrev pub pending : Keyboard → ℕ
pending k = (k.head + 128 - k.tail) % 128

-- The characters pushed and not yet read, oldest first.
abbrev pub contents : Keyboard → List ℕ
contents k = slots k.buf k.tail (pending k)

length-slots : (buf : List ℕ) (i n : ℕ) → length (slots buf i n) ≡ n
length-slots buf i zero = refl
length-slots buf i (suc n) = ap suc (length-slots buf ((i + 1) % 128) n)

-- A write to the slot behind the window is not seen through it, and the window then grows by it.
slots-set :
    (buf : List ℕ) (i n w c : ℕ)
    → length buf ≡ 128
    → i < 128
    → n < 128
    → w ≡ (i + n) % 128
    → slots (set buf w c) i (suc n) ≡ slots buf i n ++ (c ∷ [])
slots-set buf i zero w c len hi hn e =
    let e' : w ≡ i = omega arith in rw (e', get_or-set_self buf i c 0 (omega arith))
slots-set buf i (suc n) w c len hi hn e =
    let ne : w ≢ i = omega arith in
    rw (get_or-set_ne buf w i c 0 ne) (
      ap (λ l. get_or buf i 0 ∷ l)
        (slots-set buf ((i + 1) % 128) n w c len (omega arith) (omega arith) (omega arith)))

slots_of_pos :
    (buf : List ℕ) (i n : ℕ)
    → n ≢ 0
    → slots buf i n ≡ get_or buf i 0 ∷ slots buf ((i + 1) % 128) (n - 1)
slots_of_pos buf i zero ne = absurd (ne refl)
slots_of_pos buf i (suc n) ne = ap (λ k. slots buf i (suc k)) (omega arith)

-- A queue that drops what comes when it holds 127 characters.
abbrev pub enqueue : List ℕ → ℕ → List ℕ
enqueue q c = if length q == 127 then q else q ++ (c ∷ [])

abbrev pub dequeue : List ℕ → Option ℕ × List ℕ
dequeue [] = (none, [])
dequeue (c ∷ q) = (some c, q)

module _ (k : Keyboard) (v : IsValid k) where
  next_pending :
      ((k.head + 1) % 128 == k.tail) ≡ false
      → ((k.head + 1) % 128 + 128 - k.tail) % 128 ≡ suc (pending k)
  next_pending e =
      let h = v.head_in in
      let t = v.tail_in in let ne : (k.head + 1) % 128 ≢ k.tail = ground arith in omega arith

  emptied : (k.tail == k.head) ≡ true → pending k ≡ 0
  emptied e = let h = v.head_in in let eq : k.tail ≡ k.head = ground arith in omega arith

  rest_pending :
      (k.tail == k.head) ≡ false → pending k ≡ suc ((k.head + 128 - (k.tail + 1) % 128) % 128)
  rest_pending e =
      let h = v.head_in in
      let t = v.tail_in in let ne : k.tail ≢ k.head = ground arith in omega arith

pub power_on-IsValid : IsValid power_on × (contents power_on ≡ [])
power_on-IsValid = (record { storage = refl; head_in = omega arith; tail_in = omega arith }, refl)

-- `kbd_buffer_push` keeps a valid ring valid and appends the character to what is pending, or drops
-- it when 127 characters are pending.
pub buffer_push-enqueue :
    (k : Keyboard) (c : ℕ)
    → IsValid k
    → IsValid (buffer_push k c) × (contents (buffer_push k c) ≡ enqueue (contents k) c)
unfolding buffer_push
buffer_push-enqueue k c v =
    let s = v.storage in
    let h = v.head_in in
    let t = v.tail_in in
    elim (Bool-cases ((k.head + 1) % 128 == k.tail)) [
      | inl e ↦ rw e (v, ground (arith, length-slots k.buf k.tail (pending k)))
      | inr e ↦ rw e (
        record { storage = length-set k.buf k.head c ∙ s; head_in = omega arith; tail_in = t },
        ap (slots (set k.buf k.head c) k.tail) (next_pending k v e)
            ∙ slots-set k.buf k.tail (pending k) k.head c s t (omega arith) (omega arith)
            ∙ ground (arith, length-slots k.buf k.tail (pending k), next_pending k v e),
      )
    ]

-- `kbd_getchar` keeps a valid ring valid, returns the oldest pending character and removes it, and
-- returns -1 and removes nothing when none is pending.
pub getchar-dequeue :
    (k : Keyboard)
    → IsValid k
    → let (r, k') = getchar k in IsValid k' × ((r, contents k') ≡ dequeue (contents k))
unfolding getchar
getchar-dequeue k v =
    let s = v.storage in
    let h = v.head_in in
    let t = v.tail_in in
    elim (Bool-cases (k.tail == k.head)) [
      | inl e ↦ rw e (v, ground (arith, emptied k v e))
      | inr e ↦ rw e (
        record { storage = s; head_in = h; tail_in = omega arith },
        ground (
          arith,
          slots_of_pos k.buf k.tail (pending k) (omega (arith, rest_pending k v e)),
          rest_pending k v e,
        ),
      )
    ]
