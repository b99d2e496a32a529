-- ===== src/Util.antt =====
-- kernel/util.cpp: the routines on blocks of memory, whose bytes are at the addresses of a function.
pub mod Moves
pub mod Compare
pub mod Text
pub mod Strings
mod Tests
use cofeuos.Base.{
  ℕ, zero, suc, ◌+◌, ◌-◌, ◌%◌, ◌^◌, Bool, true, false, not, ◌&&◌, Option, none, some, leb, ltb,
  ◌==◌, if◌then◌else◌,
}

abbrev pub Memory : Type 0
Memory = ℕ → ℕ

abbrev pub put : Memory → ℕ → ℕ → Memory
put mem a v x = if a == x then v else mem x

-- The loop of `memset`, with the rounds left.
pub fill : ℕ → Memory → ℕ → ℕ → Memory
fill zero mem p v = mem
fill (suc n) mem p v = fill n (put mem p v) (p + 1) v

pub memset : Memory → ℕ → ℕ → ℕ → Memory
memset mem dst v n = fill n mem dst (v % 256)

-- Where a copy stands: the variables `d`, `s` and `n` of `memcpy`.
pub record Copy : Type 0 where
  pub mem : Memory
  pub d : ℕ
  pub s : ℕ
  pub n : ℕ

-- `*d++ = *s++; n--`
abbrev pub byte_step : Copy → Copy
byte_step c = record { mem = put c.mem c.d (c.mem c.s); d = c.d + 1; s = c.s + 1; n = c.n - 1 }

-- `*dw++ = *sw++; n -= 4`, four bytes read and then written.
abbrev pub word_step : Copy → Copy
word_step c = record {
  mem = λ x. if leb c.d x && ltb x (c.d + 4) then c.mem (c.s + (x - c.d)) else c.mem x;
  d = c.d + 4;
  s = c.s + 4;
  n = c.n - 4;
}

-- The three loops, on fuel.
pub align_loop : ℕ → Copy → Copy
align_loop zero c = c
align_loop (suc k) c =
    let next = align_loop k (byte_step c) in if leb 4 c.n && not (c.d % 4 == 0) then next else c

pub word_loop : ℕ → Copy → Copy
word_loop zero c = c
word_loop (suc k) c = let next = word_loop k (word_step c) in if leb 4 c.n then next else c

pub byte_loop : ℕ → Copy → Copy
byte_loop zero c = c
byte_loop (suc k) c = let next = byte_loop k (byte_step c) in if c.n == 0 then c else next

-- The part of `memcpy` for pointers that are alike in their last two bits.
pub by_words : Copy → Copy
by_words c = let a = align_loop c.n c in word_loop a.n a

pub before_tail : Copy → Copy
before_tail c = if leb 4 c.n && c.d % 4 == c.s % 4 then by_words c else c

pub memcpy : Memory → ℕ → ℕ → ℕ → Memory
memcpy mem dst src n =
    let c = before_tail (record { mem = mem; d = dst; s = src; n = n }) in (byte_loop c.n c).mem

-- The backward loop of `memmove`, with the rounds left.
pub back : ℕ → Memory → ℕ → ℕ → Memory
back zero mem d s = mem
back (suc n) mem d s = back n (put mem (d + n) (mem (s + n))) d s

pub memmove : Memory → ℕ → ℕ → ℕ → Memory
memmove mem dst src n =
    let c : Copy = record { mem = mem; d = dst; s = src; n = n } in
    if ltb dst src then (byte_loop n c).mem else if ltb src dst then back n mem dst src else mem

-- What `memcmp` finds: the bytes of the first difference.
pub memcmp : ℕ → Memory → ℕ → ℕ → Option (ℕ × ℕ)
memcmp zero mem a b = none
memcmp (suc n) mem a b =
    let rest = memcmp n mem (a + 1) (b + 1) in if mem a == mem b then rest else some (mem a, mem b)
