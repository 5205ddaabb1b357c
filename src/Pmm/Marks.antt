-- ===== src/Pmm/Marks.antt =====
-- The frame allocator's invariant, and what taking and dropping frames one by one and in ranges
-- (`mark_used`, `mark_free` of kernel/pmm.cpp) does to the bitmap.
use hrafn_os.Words.{u64, sub64}
use hrafn_os.Bitmap.{bitmap_test, bitmap_set, bitmap_clear}
use hrafn_os.Bitmap.Laws.{
  IsBytes, bitmap_test-set, bitmap_test-clear, bitmap_set-IsBytes, bitmap_clear-IsBytes,
  length-bitmap_set, length-bitmap_clear,
}
use hrafn_os.Pmm.{Pmm, take_frame, drop_frame, for_frames, frame_size, mark_used, mark_free}
use hrafn_os.Pmm.Count.{count_below, count_below-insert, count_below-le}
use hrafn_os.Prelude.{
  ℕ, zero, suc, ◌+◌, ◌*◌, ◌/◌, ◌^◌, ◌≤◌, ◌<◌, max, ◌≡◌, refl, ◌∙◌, Bool, true, false, not, ◌&&◌,
  ◌||◌, inl, inr, arith, ltb, leb, ◌==◌, Bool-cases, length, min, ap, ◌-◌,
}

-- `used_frames` is the number of set bits below `total_frames`, and the bitmap covers them all.
pub record IsValid (s : Pmm) : Type 0 where
  pub bytes : IsBytes s.bitmap
  pub room : s.total_frames ≤ 8 * length s.bitmap
  pub small : s.total_frames ≤ 2 ^ 52
  pub counted : s.used_frames ≡ count_below (bitmap_test s.bitmap) s.total_frames

-- `f` reads as used
abbrev pub used : Pmm → ℕ → Bool
used s f = bitmap_test s.bitmap f

module _ (s : Pmm) (f : ℕ) (v : IsValid s) (l : f < s.total_frames) where
  room_at : f / 8 < length s.bitmap
  room_at = let r = v.room in omega arith

  pub set_bit-IsValid :
      used s f ≡ false
      → IsValid (record s { bitmap = bitmap_set s.bitmap f; used_frames = u64 (s.used_frames + 1) })
  set_bit-IsValid e = record {
    bytes = bitmap_set-IsBytes s.bitmap f v.bytes;
    room = let r = v.room in rw length-bitmap_set r;
    small = v.small;
    counted =
        let c = v.counted in
        let m = v.small in
        let more =
          count_below-insert (used s) (bitmap_test (bitmap_set s.bitmap f)) f s.total_frames
            (λ g. bitmap_test-set s.bitmap f g v.bytes room_at) e l in
        omega (arith, more, count_below-le (bitmap_test (bitmap_set s.bitmap f)) s.total_frames);
  }

  cleared_back :
      used s f ≡ true → (g : ℕ) → used s g ≡ ((f == g) || bitmap_test (bitmap_clear s.bitmap f) g)
  cleared_back e g = ground (arith, bitmap_test-clear s.bitmap f g v.bytes room_at)

  cleared_self : bitmap_test (bitmap_clear s.bitmap f) f ≡ false
  cleared_self = ground (arith, bitmap_test-clear s.bitmap f f v.bytes room_at)

  pub clear_bit-IsValid :
      used s f ≡ true
      → IsValid (record s { bitmap = bitmap_clear s.bitmap f; used_frames = sub64 s.used_frames 1 })
  clear_bit-IsValid e = record {
    bytes = bitmap_clear-IsBytes s.bitmap f v.bytes;
    room = let r = v.room in rw length-bitmap_clear r;
    small = v.small;
    counted =
        let c = v.counted in
        let m = v.small in
        let more =
          count_below-insert (bitmap_test (bitmap_clear s.bitmap f)) (used s) f s.total_frames
            (cleared_back e) cleared_self l in
        omega (arith, more, count_below-le (used s) s.total_frames);
  }

  pub used-set : (g : ℕ) → bitmap_test (bitmap_set s.bitmap f) g ≡ ((f == g) || used s g)
  used-set g = bitmap_test-set s.bitmap f g v.bytes room_at

  pub used-clear : (g : ℕ) → bitmap_test (bitmap_clear s.bitmap f) g ≡ (not (f == g) && used s g)
  used-clear g = bitmap_test-clear s.bitmap f g v.bytes room_at

  pub take_frame-IsValid : IsValid (take_frame s f)
  unfolding take_frame
  take_frame-IsValid = elim (Bool-cases (used s f)) [
    | inl e ↦ rw e v
    | inr e ↦ rw e (set_bit-IsValid e)
  ]

  pub used-take_frame : (g : ℕ) → used (take_frame s f) g ≡ ((f == g) || used s g)
  unfolding take_frame
  used-take_frame g = ground (arith, used-set g)

  pub drop_frame-IsValid : IsValid (drop_frame s f)
  unfolding drop_frame
  drop_frame-IsValid = elim (Bool-cases (used s f)) [
    | inl e ↦ rw e (clear_bit-IsValid e)
    | inr e ↦ rw e v
  ]

  pub used-drop_frame : (g : ℕ) → used (drop_frame s f) g ≡ (not (f == g) && used s g)
  unfolding drop_frame
  used-drop_frame g = ground (arith, used-clear g)

pub total-take_frame : (s : Pmm) (f : ℕ) → (take_frame s f).total_frames ≡ s.total_frames
unfolding take_frame
total-take_frame s f = ground arith

pub total-drop_frame : (s : Pmm) (f : ℕ) → (drop_frame s f).total_frames ≡ s.total_frames
unfolding drop_frame
total-drop_frame s f = ground arith

-- `first ≤ g < first + n`
abbrev pub inside : ℕ → ℕ → ℕ → Bool
inside first n g = leb first g && ltb g (first + n)

-- What the loop over `n` frames from `f` leaves behind.
record Taken (s t : Pmm) (f n : ℕ) : Type 0 where
  valid : IsValid t
  total : t.total_frames ≡ s.total_frames
  bits : (g : ℕ) → used t g ≡ (inside f n g || used s g)

record Dropped (s t : Pmm) (f n : ℕ) : Type 0 where
  valid : IsValid t
  total : t.total_frames ≡ s.total_frames
  bits : (g : ℕ) → used t g ≡ (not (inside f n g) && used s g)

for_frames-Taken :
    (n f : ℕ) (s : Pmm)
    → IsValid s
    → f + n ≤ max f s.total_frames
    → Taken s (for_frames take_frame n f s) f n
unfolding for_frames
for_frames-Taken zero f s v l = record { valid = v; total = refl; bits = λ g. ground arith }
for_frames-Taken (suc n) f s v l =
    let lf : f < s.total_frames = omega arith in
    let t = take_frame s f in
    let tt' = total-take_frame s f in
    let ih = for_frames-Taken n (f + 1) t (take_frame-IsValid s f v lf) (omega arith) in
    record {
      valid = ih.valid;
      total = ih.total ∙ tt';
      bits = λ g. ground (arith, ih.bits g, used-take_frame s f v lf g);
    }

for_frames-Dropped :
    (n f : ℕ) (s : Pmm)
    → IsValid s
    → f + n ≤ max f s.total_frames
    → Dropped s (for_frames drop_frame n f s) f n
unfolding for_frames
for_frames-Dropped zero f s v l = record { valid = v; total = refl; bits = λ g. ground arith }
for_frames-Dropped (suc n) f s v l =
    let lf : f < s.total_frames = omega arith in
    let t = drop_frame s f in
    let tt' = total-drop_frame s f in
    let ih = for_frames-Dropped n (f + 1) t (drop_frame-IsValid s f v lf) (omega arith) in
    record {
      valid = ih.valid;
      total = ih.total ∙ tt';
      bits = λ g. ground (arith, ih.bits g, used-drop_frame s f v lf g);
    }

-- Frame `g` and the bytes `addr … addr + len - 1` meet, with a frame that holds `addr` counted
-- also for `len` 0 where `addr` is inside it.
abbrev pub overlaps : ℕ → ℕ → ℕ → Bool
overlaps addr len g = ltb (g * 4096) (addr + len) && ltb addr (g * 4096 + 4096)

-- Frame `g` lies wholly in those bytes.
abbrev pub contains : ℕ → ℕ → ℕ → Bool
contains addr len g = leb addr (g * 4096) && leb (g * 4096 + 4096) (addr + len)

abbrev last_used : ℕ → ℕ → ℕ
last_used addr len = u64 (addr + len + frame_size - 1) / frame_size

abbrev first_free : ℕ → ℕ
first_free addr = u64 (addr + frame_size - 1) / frame_size

abbrev last_free : ℕ → ℕ → ℕ
last_free addr len = u64 (addr + len) / frame_size

inside-overlaps :
    (addr len total g : ℕ)
    → addr + len + 4095 < 2 ^ 64
    → inside (addr / 4096) (min (last_used addr len) total - addr / 4096) g
      ≡ (overlaps addr len g && ltb g total)
inside-overlaps addr len total g h = ground arith

inside-contains :
    (addr len total g : ℕ)
    → addr + len + 4095 < 2 ^ 64
    → inside (first_free addr) (min (last_free addr len) total - first_free addr) g
      ≡ (contains addr len g && ltb g total)
inside-contains addr len total g h = ground arith

module _ (s : Pmm) (addr len : ℕ) (v : IsValid s) (h : addr + len + 4095 < 2 ^ 64) where
  loop_used :
      Taken s
        (mark_used s addr len)
        (addr / 4096)
        (min (last_used addr len) s.total_frames - addr / 4096)
  unfolding mark_used
  loop_used = for_frames-Taken _ _ s v (omega arith)

  loop_free :
      Dropped s
        (mark_free s addr len)
        (first_free addr)
        (min (last_free addr len) s.total_frames - first_free addr)
  unfolding mark_free
  loop_free = for_frames-Dropped _ _ s v (omega arith)

  pub mark_used-IsValid : IsValid (mark_used s addr len)
  mark_used-IsValid = loop_used.valid

  pub total-mark_used : (mark_used s addr len).total_frames ≡ s.total_frames
  total-mark_used = loop_used.total

  pub mark_free-IsValid : IsValid (mark_free s addr len)
  mark_free-IsValid = loop_free.valid

  pub total-mark_free : (mark_free s addr len).total_frames ≡ s.total_frames
  total-mark_free = loop_free.total

  -- On a valid allocator and for a range whose end does not wrap, `mark_used` keeps the allocator
  -- valid and marks exactly the managed frames that the range meets; every other frame reads as
  -- before.
  pub used-mark_used :
      IsValid (mark_used s addr len)
      × ((g : ℕ)
          → used (mark_used s addr len) g
            ≡ (overlaps addr len g && ltb g s.total_frames || used s g))
  used-mark_used = (
    loop_used.valid,
    λ g. loop_used.bits g ∙ ap (λ b. b || used s g) (inside-overlaps addr len _ g h),
  )

  -- On a valid allocator and for a range whose end does not wrap, `mark_free` keeps the allocator
  -- valid and frees exactly the managed frames that lie wholly in the range; every other frame
  -- reads as before.
  pub used-mark_free :
      IsValid (mark_free s addr len)
      × ((g : ℕ)
          → used (mark_free s addr len) g
            ≡ (not (contains addr len g && ltb g s.total_frames) && used s g))
  used-mark_free = (
    loop_free.valid,
    λ g. loop_free.bits g ∙ ap (λ b. not b && used s g) (inside-contains addr len _ g h),
  )
