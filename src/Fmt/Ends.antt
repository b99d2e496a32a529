-- ===== src/Fmt/Ends.antt =====
-- Where kernel/kprintf.cpp's `vformat` comes to an end.
use cofeuos.Base.{
  ℕ, zero, suc, ◌+◌, ◌-◌, ◌*◌, ◌<◌, ◌≤◌, ◌≡◌, ◌≢◌, refl, Bool, true, false, ◌&&◌, ◌||◌, List, [],
  ◌∷◌, ◌++◌, leb, ◌==◌, if◌then◌else◌, arith, Bool-cases, inl, inr, length,
}
use cofeuos.Fmt.{
  Args, Run, Spec, End, spent, over_end, overrun, ended, overruns, vformat, convert, emit_text,
  read_spec, skip_dashes, zero_fill, read_width, skip_sizes,
}

length-skip_dashes : (b : Bool) (f : List ℕ) → length (skip_dashes b f).1 ≤ length f
unfolding skip_dashes
length-skip_dashes b [] = omega arith
length-skip_dashes b (c ∷ f) = elim (Bool-cases (c == 45)) [
  | inl h ↦ rw h (omega (arith, length-skip_dashes true f))
  | inr h ↦ rw h (omega arith)
]

length-zero_fill : (f : List ℕ) → length (zero_fill f).1 ≤ length f
length-zero_fill [] = omega arith
length-zero_fill (c ∷ f) = elim (Bool-cases (c == 48)) [
  | inl h ↦ rw h (omega arith)
  | inr h ↦ rw h (omega arith)
]

length-read_width : (n : ℕ) (f : List ℕ) → length (read_width n f).1 ≤ length f
unfolding read_width
length-read_width n [] = omega arith
length-read_width n (c ∷ f) = elim (Bool-cases (leb 48 c && leb c 57)) [
  | inl h ↦ rw h (omega (arith, length-read_width (n * 10 + (c - 48)) f))
  | inr h ↦ rw h (omega arith)
]

length-skip_sizes : (f : List ℕ) → length (skip_sizes f) ≤ length f
unfolding skip_sizes
length-skip_sizes [] = omega arith
length-skip_sizes (c ∷ f) = elim (Bool-cases (c == 108 || c == 122 || c == 104)) [
  | inl h ↦ rw h (omega (arith, length-skip_sizes f))
  | inr h ↦ rw h (omega arith)
]

length-read_spec : (f : List ℕ) → length (read_spec f).rest ≤ length f
unfolding read_spec
length-read_spec f =
    let f1 = (skip_dashes false f).1 in
    let f2 = (zero_fill f1).1 in
    let f3 = (read_width 0 f2).1 in
    omega (
      arith,
      length-skip_dashes false f,
      length-zero_fill f1,
      length-read_width 0 f2,
      length-skip_sizes f3,
    )

-- The end is one of the code's.
abbrev pub is_through : {A : Type 0} → End A → Bool
is_through spent = false
is_through (overrun a) = true
is_through (over_end a) = true
is_through (ended a) = true

module _ {S : Type 0} (emit : S → ℕ → S) (put_count : S → ℕ → S) (a : Args) where
  -- The loop is through after `k` rounds, and a larger bound on the rounds changes nothing.
  abbrev EndsIn : ℕ → List ℕ → Run S → Type 0
  EndsIn k f r =
      (e : End (Run S)) × (is_through e ≡ true)
      × ((m : ℕ) → k ≤ m → vformat emit put_count m a f r ≡ e)

  -- What `vformat` does from a letter on.
  abbrev from_letter : ℕ → Spec → List ℕ → Run S → End (Run S)
  from_letter m p f r = elim f [
    | [] ↦ over_end (convert emit put_count a p 0 r)
    | d ∷ g ↦
        let rest = vformat emit put_count m a g (convert emit put_count a p d r) in
        if overruns d (a.word r.used) then overrun r else rest
  ]

  from_letter_ends :
      (k : ℕ) (p : Spec) (f : List ℕ) (r : Run S)
      → ((g : List ℕ) (r' : Run S) → suc (length g) ≤ length f → EndsIn k g r')
      → (e : End (Run S)) × (is_through e ≡ true) × ((m : ℕ) → k ≤ m → from_letter m p f r ≡ e)
  from_letter_ends k p [] r h = (over_end _, refl, λ m le. refl)
  from_letter_ends k p (d ∷ g) r h = elim (Bool-cases (overruns d (a.word r.used))) [
    | inl wide ↦ (overrun r, refl, λ m le. rw wide refl)
    | inr fits ↦
        let (e, t, all) = h g (convert emit put_count a p d r) (omega arith) in
        (e, t, λ m le. rw fits (all m le))
  ]

  vformat-EndsIn : (k : ℕ) (f : List ℕ) (r : Run S) → length f < k → EndsIn k f r
  unfolding vformat
  vformat-EndsIn zero f r lt = absurd (omega arith)
  vformat-EndsIn (suc k) [] r lt = (ended r, refl, all)
    where
      all : (m : ℕ) → suc k ≤ m → vformat emit put_count m a [] r ≡ ended r
      all zero le = absurd (omega arith)
      all (suc m) le = refl
  vformat-EndsIn (suc k) (c ∷ f) r lt = elim (Bool-cases (c == 37)) [
    | inl sign ↦
        let shorter : length (read_spec f).rest ≤ length f = length-read_spec f in
        let (e, t, all) =
          from_letter_ends k (read_spec f) (read_spec f).rest r
            (λ g r' le. vformat-EndsIn k g r' (omega arith)) in
        (e, t, shift e (λ m le. rw sign (all m le)))
    | inr plain ↦
        let (e, t, all) = vformat-EndsIn k f (record r { state = emit r.state c }) (omega arith) in
        (e, t, shift e (λ m le. rw plain (all m le)))
  ]
    where
      shift :
          (e : End (Run S))
          → ((m : ℕ) → k ≤ m → vformat emit put_count (suc m) a (c ∷ f) r ≡ e)
          → (m : ℕ) → suc k ≤ m
          → vformat emit put_count m a (c ∷ f) r ≡ e
      shift e h zero le = absurd (omega arith)
      shift e h (suc m) le = h m (omega arith)

  pub vformat_ends :
      (f : List ℕ) (r : Run S)
      → (e : End (Run S)) × (is_through e ≡ true)
        × ((j : ℕ) → vformat emit put_count (length f + 1 + j) a f r ≡ e)
  vformat_ends f r =
      let (e, t, all) = vformat-EndsIn (length f + 1) f r (omega arith) in
      (e, t, λ j. all (length f + 1 + j) (omega arith))

  -- No '%' is in the format.
  abbrev pub IsPlain : List ℕ → Type 0
  IsPlain [] = Unit {0}
  IsPlain (c ∷ f) = (c ≢ 37) × IsPlain f

  -- A sign at the end of a format and its 0 are emitted, and the format is read on behind it.
  percent_ends :
      (k : ℕ) (f : List ℕ) (r : Run S)
      → IsPlain f
      → length f < k
      → vformat emit put_count k a (f ++ (37 ∷ [])) r
        ≡ over_end (record r { state = emit (emit (emit_text emit put_count r.state f) 37) 0 })
  unfolding vformat read_spec skip_dashes read_width skip_sizes convert emit_text
  percent_ends zero f r plain lt = absurd (omega arith)
  percent_ends (suc k) [] r plain lt = refl
  percent_ends (suc k) (c ∷ f) r (ne, plain) lt =
      let no : (c == 37) ≡ false = ground arith in
      rw no (percent_ends k f (record r { state = emit r.state c }) plain (omega arith))
