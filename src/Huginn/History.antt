-- ===== src/Huginn/History.antt =====
-- The command history of huginn.cpp fits its array of 16 lines of 64 bytes.
use hrafn_os.Huginn.{hist_n, streq, hist_push}
use hrafn_os.Prelude.{
  get_or-append_left, get_or-append_self, get_or-drop_one, take-beyond, get_or-beyond, length-take,
  length-append, length-drop, drop, take, ltb→lt, ℕ, suc, ◌-◌, ◌≤◌, ◌<◌, ◌≡◌, refl, sym, ap, ◌↔◌,
  true, ◌&&◌, inl, inr, List, [], ◌∷◌, ◌++◌, arith, ltb, ◌==◌, ltb→lt, Bool-cases, if◌then◌else◌,
  get_or, take, drop, length, length-append, length-take, length-drop, get_or-beyond,
}

pub streq_iff : (a b : List ℕ) → (streq a b ≡ true) ↔ (a ≡ b)
unfolding streq
streq_iff [] [] = (λ _. refl, λ _. refl)
streq_iff [] (c ∷ cs) = ((λ e. ground arith), (λ e. ground arith))
streq_iff (c ∷ cs) [] = ((λ e. ground arith), (λ e. ground arith))
streq_iff (c ∷ cs) (d ∷ ds) = elim (Bool-cases (c == d)) [
  | inl e ↦ rw e (
    (λ q. let t = (streq_iff cs ds).0 q in let cd : c ≡ d = ground arith in rw (cd, t) refl),
    (λ q. (streq_iff cs ds).1 (ap (λ xs. drop 1 xs) q)),
  )
  | inr e ↦ rw e ((λ q. ground arith), (λ q. let cd = ap (λ xs. get_or xs 0 0) q in ground arith))
]

abbrev pub Fits : List ℕ → Type 0
Fits s = length s < 64

-- at most 16 lines, each with room for its NUL
pub record IsValid (hist : List (List ℕ)) : Type 0 where
  pub count : length hist ≤ 16
  pub lines : (i : ℕ) → Fits (get_or hist i [])

Shortened : List (List ℕ) → Type 0
Shortened hist = (length hist ≤ 15) × ((i : ℕ) → Fits (get_or hist i []))

-- The history with the oldest line dropped when it was full has room for one more.
room-Shortened :
    (hist : List (List ℕ))
    → IsValid hist
    → Shortened (if length hist == hist_n then drop 1 hist else hist)
unfolding Shortened
room-Shortened hist v = elim (Bool-cases (length hist == 16)) [
  | inl e ↦ rw e (
    let n = length-drop 1 hist in ground arith,
    λ i. rw (get_or-drop_one hist i []) (v.lines (suc i)),
  )
  | inr e ↦ rw e (let n = v.count in ground arith, v.lines)
]

append-IsValid :
    (s : List ℕ) (room : List (List ℕ)) → Shortened room → IsValid (room ++ (take 63 s ∷ []))
unfolding Shortened
append-IsValid s room (n, l) = record {
  count = let e = length-append room (take 63 s ∷ []) in omega arith;
  lines = λ i. elim (Bool-cases (ltb i (length room))) [
    | inl h ↦ rw (get_or-append_left room (take 63 s ∷ []) i [] (ltb→lt _ _ h)) (l i)
    | inr h ↦ elim (Bool-cases (i == length room)) [
      | inl e ↦
          let q : i ≡ length room = ground arith in
          rw (q, get_or-append_self room (take 63 s) []) (let t = length-take 63 s in omega arith)
      | inr e ↦
          rw
            (get_or-beyond (room ++ (take 63 s ∷ [])) i []
              (let t = length-append room (take 63 s ∷ []) in ground arith))
            (omega arith)
    ]
  ];
}

newest :
    (s : List ℕ) (room : List (List ℕ))
    → Fits s
    → get_or (room ++ (take 63 s ∷ [])) (length (room ++ (take 63 s ∷ [])) - 1) [] ≡ s
newest s room f =
    let e : length (room ++ (take 63 s ∷ [])) - 1 ≡ length room =
      let t = length-append room (take 63 s ∷ []) in omega arith in
    rw (e, get_or-append_self room (take 63 s) []) (take-beyond 63 s (omega arith))

-- A push keeps a history of at most 16 lines of at most 63 bytes within these bounds.
pub hist_push-IsValid :
    (s : List ℕ) (hist : List (List ℕ)) → IsValid hist → IsValid (hist_push s hist)
unfolding hist_push
hist_push-IsValid s hist v = elim (Bool-cases (length s == 0)) [
  | inl e ↦ rw e v
  | inr e ↦
      rw e (elim (Bool-cases (ltb 0 (length hist) && streq s (get_or hist (length hist - 1) []))) [
        | inl d ↦ rw d v
        | inr d ↦ rw d (append-IsValid s _ (room-Shortened hist v))
      ])
]

-- After a push of a line of 1 to 63 bytes, the newest line of the history is that line.
pub hist_push-newest :
    (s : List ℕ) (hist : List (List ℕ))
    → 0 < length s
    → Fits s
    → get_or (hist_push s hist) (length (hist_push s hist) - 1) [] ≡ s
unfolding hist_push
hist_push-newest s hist l f = elim (Bool-cases (length s == 0)) [
  | inl e ↦ absurd (ground arith)
  | inr e ↦
      rw e (elim (Bool-cases (ltb 0 (length hist) && streq s (get_or hist (length hist - 1) []))) [
        | inl d ↦ rw d (sym ((streq_iff _ _).0 (ground arith)))
        | inr d ↦ rw d (newest s (if length hist == hist_n then drop 1 hist else hist) f)
      ])
]
