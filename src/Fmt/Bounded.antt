-- ===== src/Fmt/Bounded.antt =====
-- `ksnprintf` of kernel/kprintf.cpp: the same output as without a bound, cut to the buffer.
use cofeuos.Base.{
  ℕ, zero, suc, ◌+◌, ◌-◌, ◌<◌, ◌≤◌, ◌≡◌, refl, subst, ap, ◌∙◌, true, false, ◌||◌, ◌&&◌, List, [],
  ◌∷◌, ◌++◌, ltb, leb, ◌==◌, if◌then◌else◌, arith, Bool-cases, inl, inr, length, get_or,
  length-append, min,
}
use cofeuos.Fmt.{
  Args, Run, End, spent, overrun, over_end, ended, map_end, BufCtx, vformat, emit_buf,
  put_buf_count, store_int, begin, close_buf, ksnprintf,
}
use cofeuos.Fmt.Ends.{is_through, vformat_ends}
use cofeuos.Fmt.Emitters.{Both, vformat-Both}

abbrev pub append : List ℕ → ℕ → List ℕ
append cs c = cs ++ (c ∷ [])

-- The output as a list without a bound, and the numbers that "%n" stores with their addresses, the
-- last first.
pub record Text : Type 0 where
  pub chars : List ℕ
  pub stores : List (ℕ × ℕ)

abbrev pub emit_char : Text → ℕ → Text
emit_char t c = record t { chars = append t.chars c }

abbrev pub put_length : Text → ℕ → Text
put_length t w = record t { stores = (w, length t.chars) ∷ t.stores }

abbrev pub no_text : Text
no_text = record { chars = []; stores = [] }

unfoldable pub output : Args → List ℕ → End (Run Text)
output a f = vformat emit_char put_length (length f + 1) a f (begin no_text)

-- The memory after these stores.
abbrev pub after_stores : (ℕ → ℕ) → List (ℕ × ℕ) → ℕ → ℕ
after_stores mem [] = mem
after_stores mem ((w, k) ∷ ss) = store_int (after_stores mem ss) w k

-- None of the stores touches the `n` bytes from `buf` on.
abbrev pub AllOutside : ℕ → ℕ → List (ℕ × ℕ) → Type 0
AllOutside buf n [] = Unit {0}
AllOutside buf n ((w, k) ∷ ss) = ((leb (w + 4) buf || leb (buf + n) w) ≡ true) × AllOutside buf n ss

get_or-append :
    (cs : List ℕ) (c i : ℕ)
    → get_or (append cs c) i 0
      ≡ (if ltb i (length cs) then get_or cs i 0 else if i == length cs then c else 0)
get_or-append [] c zero = ground arith
get_or-append [] c (suc i) = ground arith
get_or-append (x ∷ cs) c zero = ground arith
get_or-append (x ∷ cs) c (suc i) = ground (arith, get_or-append cs c i)

-- The characters that fit are in the buffer, and the rest of the memory is as the stores leave it.
record Filled (mem : ℕ → ℕ) (buf n : ℕ) (t : Text) (b : BufCtx) : Type 0 where
  count : b.count ≡ length t.chars
  end : b.end ≡ buf + n - 1
  p : b.p ≡ buf + min (length t.chars) (n - 1)
  mem_at :
      AllOutside buf n t.stores
      → (x : ℕ)
      → b.mem x ≡ (
          if leb buf x && ltb x b.p
          then get_or t.chars (x - buf) 0
          else after_stores mem t.stores x)

Filled-step :
    (mem : ℕ → ℕ) (buf n : ℕ) (t : Text) (b : BufCtx) (c : ℕ)
    → 0 < n
    → Filled mem buf n t b
    → Filled mem buf n (emit_char t c) (emit_buf b c)
Filled-step mem buf n t b c pos f =
    let cs = t.chars in
    let longer : length (append cs c) ≡ length cs + 1 = length-append cs (c ∷ []) in
    elim (Bool-cases (ltb b.p b.end)) [
      | inl fits ↦
          let here : b.p ≡ buf + length cs = ground (arith, f.p, f.end) in
          let more : length cs < n - 1 = ground (arith, f.p, f.end) in
          rw fits record {
            count = omega (arith, f.count);
            end = f.end;
            p = omega arith;
            mem_at = λ o x. elim (Bool-cases (x == b.p)) [
              | inl e ↦
                  let at : x - buf ≡ length cs = ground arith in
                  ground (arith, get_or-append cs c (x - buf))
              | inr ne ↦ ground (arith, get_or-append cs c (x - buf), f.mem_at o x)
            ];
          }
      | inr full ↦
          let over : n - 1 ≤ length cs = ground (arith, f.p, f.end) in
          rw full record {
            count = omega (arith, f.count);
            end = f.end;
            p = omega (arith, f.p);
            mem_at = λ o x. ground (arith, get_or-append cs c (x - buf), f.mem_at o x, f.p);
          }
    ]

store_int_elsewhere :
    (mem : ℕ → ℕ) (w v x : ℕ) → (ltb x w || leb (w + 4) x) ≡ true → store_int mem w v x ≡ mem x
store_int_elsewhere mem w v x h = ground arith

store_int_same : (m m' : ℕ → ℕ) (w v x : ℕ) → m x ≡ m' x → store_int m w v x ≡ store_int m' w v x
store_int_same m m' w v x h = ground arith

Filled-store :
    (mem : ℕ → ℕ) (buf n : ℕ) (t : Text) (b : BufCtx) (w : ℕ)
    → 0 < n
    → Filled mem buf n t b
    → Filled mem buf n (put_length t w) (put_buf_count b w)
Filled-store mem buf n t b w pos f = record {
  count = f.count;
  end = f.end;
  p = f.p;
  mem_at = λ (out, outs) x. elim (Bool-cases (leb buf x && ltb x b.p)) [
    | inl inside ↦
        let far : (ltb x w || leb (w + 4) x) ≡ true = ground (arith, f.p) in
        rw inside (store_int_elsewhere b.mem w b.count x far ∙ f.mem_at outs x ∙ rw inside refl)
    | inr outside ↦
        let same : b.mem x ≡ after_stores mem t.stores x = f.mem_at outs x ∙ rw outside refl in
        rw outside (
          store_int_same b.mem (after_stores mem t.stores) w b.count x same
          ∙ ap (λ k. store_int (after_stores mem t.stores) w k x) f.count)
  ];
}

-- What `ksnprintf` leaves: as many characters as there are, but for the last place of the
-- buffer, then a 0; the rest of the memory as the stores leave it; and the number of all characters.
abbrev pub Cut : (ℕ → ℕ) → ℕ → ℕ → Text → (ℕ → ℕ) × ℕ → Type 0
Cut mem buf n t (m, k) =
    (k ≡ length t.chars)
    × ((x : ℕ)
        → m x ≡ (
            if x == buf + min (length t.chars) (n - 1)
            then 0
            else if leb buf x && ltb x (buf + min (length t.chars) (n - 1))
            then get_or t.chars (x - buf) 0
            else after_stores mem t.stores x))

-- The stores of an output that ends at the format's 0.
abbrev pub stores_of : End (Run Text) → List (ℕ × ℕ)
stores_of (ended r) = r.state.stores
stores_of _ = []

-- The call ends where the output without a bound does; at the format's 0 the result is the output
-- cut to the buffer.
abbrev pub EndsAs : (ℕ → ℕ) → ℕ → ℕ → End (Run Text) → End ((ℕ → ℕ) × ℕ) → Type 0
EndsAs mem buf n (overrun r) (overrun q) = Unit {0}
EndsAs mem buf n (over_end r) (over_end q) = Unit {0}
EndsAs mem buf n (ended r) (ended q) = Cut mem buf n r.state q
EndsAs mem buf n _ _ = ⊥

module _ (mem : ℕ → ℕ) (buf n : ℕ) (pos : 0 < n) where
  steps :
      (t : Text) (b : BufCtx) (c : ℕ)
      → Filled mem buf n t b
      → Filled mem buf n (emit_char t c) (emit_buf b c)
  steps t b c f = Filled-step mem buf n t b c pos f

  stores :
      (t : Text) (b : BufCtx) (w : ℕ)
      → Filled mem buf n t b
      → Filled mem buf n (put_length t w) (put_buf_count b w)
  stores t b w f = Filled-store mem buf n t b w pos f

  Cut-Both :
      (o : End (Run Text)) (q : End (Run BufCtx))
      → is_through o ≡ true
      → AllOutside buf n (stores_of o)
      → Both emit_char put_length emit_buf put_buf_count (Filled mem buf n) steps stores o q
      → EndsAs mem buf n o (map_end close_buf q)
  Cut-Both spent q t out h = ground arith
  Cut-Both (overrun r) (overrun q) t out h = tt
  Cut-Both (over_end r) (over_end q) t out h = tt
  Cut-Both (ended r) (ended q) t out (f, u) = (f.count, λ x. ground (arith, f.mem_at out x, f.p))
  Cut-Both (overrun r) spent t out h = h
  Cut-Both (overrun r) (over_end q) t out h = h
  Cut-Both (overrun r) (ended q) t out h = h
  Cut-Both (over_end r) spent t out h = h
  Cut-Both (over_end r) (overrun q) t out h = h
  Cut-Both (over_end r) (ended q) t out h = h
  Cut-Both (ended r) spent t out h = h
  Cut-Both (ended r) (overrun q) t out h = h
  Cut-Both (ended r) (over_end q) t out h = h

  output_through : (a : Args) (f : List ℕ) → is_through (output a f) ≡ true
  unfolding output
  output_through a f =
      let (e, t, all) = vformat_ends emit_char put_length a f (begin no_text) in
      let none_more : length f + 1 + 0 ≡ length f + 1 = omega arith in
      let here : vformat emit_char put_length (length f + 1) a f (begin no_text) ≡ e =
        subst (λ k. vformat emit_char put_length k a f (begin no_text) ≡ e) none_more (all 0) in
      ap is_through here ∙ t

  -- `ksnprintf` with a buffer of at least one byte comes to an end: where the output through an
  -- emitter without a bound is read on behind the format or a number overruns the array, it is so
  -- too. At the format's 0, if no "%n" points into the buffer, it leaves that output, cut to the
  -- buffer and ended by a 0, and outside the buffer writes what the "%n" store and nothing else; it
  -- returns the length of the whole output.
  pub ksnprintf_lem :
      (a : Args) (f : List ℕ)
      → AllOutside buf n (stores_of (output a f))
      → EndsAs mem buf n (output a f) (ksnprintf mem buf n a f)
  unfolding ksnprintf output
  ksnprintf_lem a f out =
      let some_room : (n == 0) ≡ false = ground arith in
      rw some_room (
        Cut-Both (output a f) _ (output_through a f) out (
          vformat-Both emit_char put_length emit_buf put_buf_count (Filled mem buf n) steps stores
            (length f + 1) a f (begin no_text) _
            (
              record { count = refl; end = refl; p = omega arith; mem_at = λ o x. ground arith },
              refl,
            )))
