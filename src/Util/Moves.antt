-- ===== src/Util/Moves.antt =====
-- What `memset`, `memcpy` and `memmove` of kernel/util.cpp leave in memory.
use cofeuos.Base.{
  ℕ, zero, suc, ◌+◌, ◌-◌, ◌%◌, ◌^◌, ◌<◌, ◌≤◌, ◌≡◌, refl, ◌⊎◌, inl, inr, not, ◌&&◌, arith, leb, ltb,
  ◌==◌, if◌then◌else◌, Bool-cases,
}
use cofeuos.Util.{
  Memory, put, fill, memset, Copy, byte_step, word_step, align_loop, word_loop, byte_loop, by_words,
  before_tail, memcpy, back, memmove,
}

-- `n` bytes from `s` on stand from `d` on, and the rest is as before.
abbrev pub Copied : Memory → ℕ → ℕ → ℕ → Memory → Type 0
Copied mem d s n mem' =
    (x : ℕ) → mem' x ≡ (if leb d x && ltb x (d + n) then mem (s + (x - d)) else mem x)

fill-at :
    (n : ℕ) (mem : Memory) (p v x : ℕ)
    → fill n mem p v x ≡ (if leb p x && ltb x (p + n) then v else mem x)
unfolding fill
fill-at zero mem p v x = ground arith
fill-at (suc n) mem p v x = ground (arith, fill-at n (put mem p v) (p + 1) v x)

-- `memset` stores the value's low byte in each of the `n` bytes and nowhere else.
pub memset_lem :
    (mem : Memory) (dst v n x : ℕ)
    → memset mem dst v n x ≡ (if leb dst x && ltb x (dst + n) then v % 2 ^ 8 else mem x)
unfolding memset
memset_lem mem dst v n x = fill-at n mem dst (v % 256) x

-- Source and destination of a forward copy: the destination begins first, or they share no byte.
abbrev pub Forward : ℕ → ℕ → ℕ → Type 0
Forward d s n = (d ≤ s) ⊎ (s + n ≤ d)

module _ (mem : Memory) (d s n : ℕ) (ok : Forward d s n) where
  -- A copy under way.
  record Partial (c : Copy) : Type 0 where
    pub at_d : c.d + c.n ≡ d + n
    pub at_s : c.s + c.n ≡ s + n
    pub from_d : d ≤ c.d
    pub done : Copied mem d s (c.d - d) c.mem

  byte_step-Partial : (c : Copy) → Partial c → 0 < c.n → Partial (byte_step c)
  byte_step-Partial c p pos = record {
    at_d = omega (arith, p.at_d);
    at_s = omega (arith, p.at_s);
    from_d = omega (arith, p.from_d);
    done = λ x. ground (arith, ok, p.at_d, p.at_s, p.from_d, p.done x, p.done c.s);
  }

  word_step-Partial : (c : Copy) → Partial c → 4 ≤ c.n → Partial (word_step c)
  word_step-Partial c p four = record {
    at_d = omega (arith, p.at_d);
    at_s = omega (arith, p.at_s);
    from_d = omega (arith, p.from_d);
    done = λ x. ground (arith, ok, p.at_d, p.at_s, p.from_d, p.done x, p.done (c.s + (x - c.d)));
  }

  -- Each loop goes on with the copy, and is over when its condition is false.
  align_loop-Partial :
      (k : ℕ) (c : Copy)
      → c.n ≤ k
      → Partial c
      → Partial (align_loop k c) × (((align_loop k c).n < 4) ⊎ ((align_loop k c).d % 4 ≡ 0))
  unfolding align_loop
  align_loop-Partial zero c le p = (p, inl (omega arith))
  align_loop-Partial (suc k) c le p = elim (Bool-cases (leb 4 c.n && not (c.d % 4 == 0))) [
    | inl on ↦
        rw on
          (align_loop-Partial k (byte_step c) (omega arith) (byte_step-Partial c p (ground arith)))
    | inr off ↦ rw off (p, ground arith)
  ]

  word_loop-Partial :
      (k : ℕ) (c : Copy) → c.n ≤ k → Partial c → Partial (word_loop k c) × ((word_loop k c).n < 4)
  unfolding word_loop
  word_loop-Partial zero c le p = (p, omega arith)
  word_loop-Partial (suc k) c le p = elim (Bool-cases (leb 4 c.n)) [
    | inl on ↦
        rw on
          (word_loop-Partial k (word_step c) (omega arith) (word_step-Partial c p (ground arith)))
    | inr off ↦ rw off (p, ground arith)
  ]

  byte_loop-Partial :
      (k : ℕ) (c : Copy) → c.n ≤ k → Partial c → Partial (byte_loop k c) × ((byte_loop k c).n ≡ 0)
  unfolding byte_loop
  byte_loop-Partial zero c le p = (p, omega arith)
  byte_loop-Partial (suc k) c le p = elim (Bool-cases (c.n == 0)) [
    | inl off ↦ rw off (p, ground arith)
    | inr on ↦
        rw on
          (byte_loop-Partial k (byte_step c) (omega arith) (byte_step-Partial c p (ground arith)))
  ]

  abbrev start : Copy
  start = record { mem = mem; d = d; s = s; n = n }

  start-Partial : Partial start
  start-Partial = record {
    at_d = refl;
    at_s = refl;
    from_d = omega arith;
    done = λ x. ground arith;
  }

  -- When nothing is left the bytes have been copied.
  finished : (c : Copy) → Partial c × (c.n ≡ 0) → Copied mem d s n c.mem
  finished c (p, none') x = ground (arith, p.done x, p.at_d, p.from_d)

  by_words-Partial : Partial (by_words start)
  unfolding by_words
  by_words-Partial =
      let a = align_loop-Partial n start (omega arith) start-Partial in
      (word_loop-Partial (align_loop n start).n (align_loop n start) (omega arith) a.0).0

  pub forward-Copied : Copied mem d s n (byte_loop n start).mem
  forward-Copied =
      finished (byte_loop n start) (byte_loop-Partial n start (omega arith) start-Partial)

  before_tail-Partial : Partial (before_tail start)
  unfolding before_tail
  before_tail-Partial = elim (Bool-cases (leb 4 n && d % 4 == s % 4)) [
    | inl words ↦ rw words by_words-Partial
    | inr bytes ↦ rw bytes start-Partial
  ]

  -- `memcpy` copies the `n` bytes and changes no other, if source and destination share no byte or the
  -- destination begins first.
  pub memcpy_lem : Copied mem d s n (memcpy mem d s n)
  unfolding memcpy
  memcpy_lem = finished (byte_loop (before_tail start).n (before_tail start)) (
      byte_loop-Partial (before_tail start).n (before_tail start) (omega arith) before_tail-Partial)

-- The backward copy, whose `n` bytes at the far end are done.
back-Copied :
    (k n : ℕ) (mem mem' : Memory) (d s : ℕ)
    → s ≤ d
    → k ≤ n
    → ((x : ℕ) → mem' x ≡ (if leb (d + k) x && ltb x (d + n) then mem (s + (x - d)) else mem x))
    → Copied mem d s n (back k mem' d s)
unfolding back
back-Copied zero n mem mem' d s le small h = λ x. ground (arith, h x)
back-Copied (suc k) n mem mem' d s le small h =
    back-Copied k n mem (put mem' (d + k) (mem' (s + k))) d s le (omega arith)
      (λ x. ground (arith, h x, h (s + k)))

-- `memmove` copies the `n` bytes and changes no other, whether or not source and destination overlap.
pub memmove_lem : (mem : Memory) (d s n : ℕ) → Copied mem d s n (memmove mem d s n)
unfolding memmove
memmove_lem mem d s n = elim (Bool-cases (ltb d s)) [
  | inl before ↦ rw before (forward-Copied mem d s n (inl (ground arith)))
  | inr not_before ↦ rw not_before (elim (Bool-cases (ltb s d)) [
    | inl behind' ↦
        rw behind' (back-Copied n n mem mem d s (ground arith) (omega arith) (λ x. ground arith))
    | inr same ↦ rw same (λ x. let e : d ≡ s = ground arith in rw e (ground arith))
  ])
]
