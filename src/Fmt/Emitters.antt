-- ===== src/Fmt/Emitters.antt =====
-- The output of kernel/kprintf.cpp through two emitters that keep a relation between their states.
use cofeuos.Base.{
  ℕ, zero, suc, ◌+◌, ◌-◌, ◌%◌, ◌^◌, ◌≡◌, refl, sym, subst, ap, ◌∙◌, inl, inr, Bool, ◌&&◌, List, [],
  ◌∷◌, Option, none, some, leb, ◌==◌, if◌then◌else◌, Bool-cases, length,
}
use cofeuos.Fmt.{
  Args, Spec, Run, End, spent, overrun, over_end, ended, overruns, pad, emit_text, emit_back,
  print_u64, print_text, print_number, print_or, convert, vformat, digits_of, read_spec, is_signed,
  base_of, null_text, pad_left, pad_right,
}

-- Two emitters that keep a relation between their states, also in what they do for "%n".
module _ {S T : Type 0} (e n : S → ℕ → S) (e' n' : T → ℕ → T) (R : S → T → Type 0)
    (step : (s : S) (t : T) (c : ℕ) → R s t → R (e s c) (e' t c))
    (counts : (s : S) (t : T) (w : ℕ) → R s t → R (n s w) (n' t w)) where
  pad_both : (k fill : ℕ) (s : S) (t : T) → R s t → R (pad e n k fill s) (pad e' n' k fill t)
  unfolding pad
  pad_both zero fill s t r = r
  pad_both (suc k) fill s t r = pad_both k fill (e s fill) (e' t fill) (step s t fill r)

  text_both : (cs : List ℕ) (s : S) (t : T) → R s t → R (emit_text e n s cs) (emit_text e' n' t cs)
  unfolding emit_text
  text_both [] s t r = r
  text_both (c ∷ cs) s t r = text_both cs (e s c) (e' t c) (step s t c r)

  back_both : (ds : List ℕ) (s : S) (t : T) → R s t → R (emit_back e n s ds) (emit_back e' n' t ds)
  unfolding emit_back
  back_both [] s t r = r
  back_both (d ∷ ds) s t r = step _ _ d (back_both ds s t r)

  left_both :
      (p : Spec) (fill k : ℕ) (s : S) (t : T)
      → R s t
      → R (pad_left e n p fill k s) (pad_left e' n' p fill k t)
  left_both p fill k s t r = elim (Bool-cases p.left) [
    | inl h ↦ rw h r
    | inr h ↦ rw h (pad_both (p.width - k) fill s t r)
  ]

  right_both :
      (p : Spec) (k : ℕ) (s : S) (t : T) → R s t → R (pad_right e n p k s) (pad_right e' n' p k t)
  right_both p k s t r = elim (Bool-cases p.left) [
    | inl h ↦ rw h (pad_both (p.width - k) 32 s t r)
    | inr h ↦ rw h r
  ]

  u64_both :
      (p : Spec) (base : ℕ) (upper : Bool) (fill v : ℕ) (s : S) (t : T)
      → R s t
      → R (print_u64 e n p base upper fill v s) (print_u64 e' n' p base upper fill v t)
  unfolding print_u64
  u64_both p base upper fill v s t r =
      let ds = digits_of 64 base upper v in
      right_both p (length ds) _ _ (back_both ds _ _ (left_both p fill (length ds) s t r))

  print_text_both :
      (p : Spec) (x : List ℕ) (s : S) (t : T)
      → R s t
      → R (print_text e n p x s) (print_text e' n' p x t)
  unfolding print_text
  print_text_both p x s t r =
      right_both p (length x) _ _ (text_both x _ _ (left_both p 32 (length x) s t r))

  number_both :
      (p : Spec) (c : ℕ) (b : ℕ × Bool) (w : ℕ) (s : S) (t : T)
      → R s t
      → R (print_number e n p c b w s) (print_number e' n' p c b w t)
  unfolding print_number
  number_both p c (base, upper) w s t r =
      let s1 = if c == 112 then e (e s 48) 120 else s in
      let t1 = if c == 112 then e' (e' t 48) 120 else t in
      let r1 : R s1 t1 = elim (Bool-cases (c == 112)) [
        | inl h ↦ rw h (step _ _ 120 (step s t 48 r))
        | inr h ↦ rw h r
      ] in
      elim (Bool-cases (is_signed c && leb (2 ^ 63) w)) [
        | inl h ↦ rw h (u64_both p base upper 32 (2 ^ 64 - 1 - w + 1) _ _ (step s1 t1 45 r1))
        | inr h ↦ rw h (u64_both p base upper p.fill w s1 t1 r1)
      ]

  -- The two runs have related states, and the same arguments.
  abbrev pub RunBoth : Run S → Run T → Type 0
  RunBoth r q = R r.state q.state × (r.used ≡ q.used)

  -- The two runs end alike.
  abbrev pub Both : End (Run S) → End (Run T) → Type 0
  Both spent spent = Unit {0}
  Both (overrun r) (overrun q) = RunBoth r q
  Both (over_end r) (over_end q) = RunBoth r q
  Both (ended r) (ended q) = RunBoth r q
  Both _ _ = ⊥

  or_both :
      (p : Spec) (c w : ℕ) (r : Run S) (q : Run T) (o : Option (ℕ × Bool))
      → RunBoth r q
      → RunBoth (print_or e n p c w r o) (print_or e' n' p c w q o)
  or_both p c w r q none (h, u) = (step _ _ c (step _ _ 37 h), u)
  or_both p c w r q (some b) (h, u) = (number_both p c b w _ _ h, ap (λ x. x + 1) u)

  abbrev run_of : {V : Type 0} → V → ℕ → Run V
  run_of v k = record { state = v; used = k }

  stores :
      (w : ℕ) (s : S) (t : T)
      → R s t
      → R (if w == 0 then s else n s w) (if w == 0 then t else n' t w)
  stores w s t r = elim (Bool-cases (w == 0)) [ inl h ↦ rw h r | inr h ↦ rw h (counts s t w r) ]

  convert_same :
      (a : Args) (p : Spec) (c : ℕ) (s : S) (t : T) (k : ℕ)
      → R s t
      → RunBoth (convert e n a p c (run_of s k)) (convert e' n' a p c (run_of t k))
  unfolding convert
  convert_same a p c s t k r =
      let w = a.word k in
      elim (Bool-cases (c == 99)) [
        | inl h ↦ rw h (step s t (w % 256) r, refl)
        | inr h1 ↦ elim (Bool-cases (c == 115)) [
          | inl h ↦
              rw (h1, h) (print_text_both p (if w == 0 then null_text else a.text w) s t r, refl)
          | inr h2 ↦ elim (Bool-cases (c == 110)) [
            | inl h ↦ rw (h1, h2, h) (stores w s t r, refl)
            | inr h3 ↦ elim (Bool-cases (c == 37)) [
              | inl h ↦ rw (h1, h2, h3, h) (step s t 37 r, refl)
              | inr h4 ↦
                  rw (h1, h2, h3, h4)
                    (or_both p c w (run_of s k) (run_of t k) (base_of c) (r, refl))
            ]
          ]
        ]
      ]

  convert_both :
      (a : Args) (p : Spec) (c : ℕ) (r : Run S) (q : Run T)
      → RunBoth r q
      → RunBoth (convert e n a p c r) (convert e' n' a p c q)
  convert_both a p c r q (h, u) =
      subst (λ k. RunBoth (convert e n a p c r) (convert e' n' a p c (run_of q.state k))) u
        (convert_same a p c r.state q.state r.used h)

  special-Both :
      (k : ℕ) (a : Args) (p : Spec) (f : List ℕ) (r : Run S) (q : Run T)
      → RunBoth r q
      → ((g : List ℕ) (r' : Run S) (q' : Run T)
          → RunBoth r' q'
          → Both (vformat e n k a g r') (vformat e' n' k a g q'))
      → Both
          (elim f [
            | [] ↦ over_end (convert e n a p 0 r)
            | d ∷ g ↦
                let rest = vformat e n k a g (convert e n a p d r) in
                if overruns d (a.word r.used) then overrun r else rest
          ])
          (elim f [
            | [] ↦ over_end (convert e' n' a p 0 q)
            | d ∷ g ↦
                let rest = vformat e' n' k a g (convert e' n' a p d q) in
                if overruns d (a.word q.used) then overrun q else rest
          ])
  special-Both k a p [] r q h rest = convert_both a p 0 r q h
  special-Both k a p (d ∷ g) r q (h, u) rest =
      let same : overruns d (a.word q.used) ≡ overruns d (a.word r.used) =
        ap (λ k. overruns d (a.word k)) (sym u) in
      elim (Bool-cases (overruns d (a.word r.used))) [
        | inl wide ↦ rw (wide, same ∙ wide) (h, u)
        | inr fits ↦ rw (fits, same ∙ fits) (rest g _ _ (convert_both a p d r q (h, u)))
      ]

  -- Related states stay related through a format.
  pub vformat-Both :
      (k : ℕ) (a : Args) (f : List ℕ) (r : Run S) (q : Run T)
      → RunBoth r q
      → Both (vformat e n k a f r) (vformat e' n' k a f q)
  unfolding vformat
  vformat-Both zero a f r q h = tt
  vformat-Both (suc k) a [] r q h = h
  vformat-Both (suc k) a (c ∷ f) r q (h, u) = elim (Bool-cases (c == 37)) [
    | inl special ↦
        rw special (special-Both k a (read_spec f) (read_spec f).rest r q (h, u) (vformat-Both k a))
    | inr plain ↦ rw plain (vformat-Both k a f _ _ (step _ _ c h, u))
  ]
