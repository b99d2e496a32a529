-- ===== src/Bitmap/Laws.antt =====
-- The bits of the bit maps of kernel/pmm.cpp and kernel/cofeufs.cpp after a mark or a clear.
use cofeuos.Base.{
  ℕ, zero, suc, ◌/◌, ◌%◌, ◌<◌, ◌≡◌, refl, ◌≢◌, Bool, true, false, not, ◌&&◌, List, [], ◌∷◌, arith,
  ◌==◌, if◌then◌else◌, length, get_or, set, replicate, length-set, get_or-set_self, get_or-set_ne,
  Bool-cases, inl, inr, ==→eq, ==→ne, get_or-replicate,
}
use cofeuos.Bitmap.{byte_test, byte_mark, byte_clear, test, mark, clear, AllBytes}

-- A test holds at each of the first `n` numbers.
every : (ℕ → Bool) → ℕ → Bool
every p zero = true
every p (suc n) = if p n then every p n else false

at_every : (p : ℕ → Bool) (n k : ℕ) → k < n → every p n ≡ true → p k ≡ true
unfolding every
at_every p zero k lt holds = absurd (omega arith)
at_every p (suc n) k lt holds = ground (arith, at_every p n k)

abbrev eqb : Bool → Bool → Bool
eqb true b = b
eqb false b = not b

eqb→eq : (a b : Bool) → eqb a b ≡ true → a ≡ b
eqb→eq a b h = ground arith

abbrev after_mark : ℕ → ℕ → ℕ → Bool
after_mark b k j = eqb (byte_test (byte_mark b k) j) (if k == j then true else byte_test b j)

abbrev after_clear : ℕ → ℕ → ℕ → Bool
after_clear b k j = eqb (byte_test (byte_clear b k) j) (if k == j then false else byte_test b j)

abbrev in_byte : (ℕ → ℕ) → ℕ → Bool
in_byte f b = if f b / 256 == 0 then true else false

over_bytes : (ℕ → ℕ → ℕ → Bool) → Bool
over_bytes p = every (λ b. every (λ k. every (λ j. p b k j) 8) 8) 256

over_bytes_sound :
    (p : ℕ → ℕ → ℕ → Bool) (b k j : ℕ)
    → over_bytes p ≡ true
    → b < 256
    → k < 8
    → j < 8
    → p b k j ≡ true
unfolding over_bytes
over_bytes_sound p b k j h hb hk hj = at_every _ 8 j hj (at_every _ 8 k hk (at_every _ 256 b hb h))

mark_table : over_bytes after_mark ≡ true
unfolding over_bytes every byte_test byte_mark
mark_table = refl

clear_table : over_bytes after_clear ≡ true
unfolding over_bytes every byte_test byte_clear
clear_table = refl

range_table :
    over_bytes (λ b k _. in_byte (λ c. byte_mark c k) b && in_byte (λ c. byte_clear c k) b) ≡ true
unfolding over_bytes every byte_mark byte_clear
range_table = refl

byte_test-mark :
    (b k j : ℕ)
    → b < 256
    → k < 8
    → j < 8
    → byte_test (byte_mark b k) j ≡ (if k == j then true else byte_test b j)
byte_test-mark b k j hb hk hj = eqb→eq _ _ (over_bytes_sound after_mark b k j mark_table hb hk hj)

byte_test-clear :
    (b k j : ℕ)
    → b < 256
    → k < 8
    → j < 8
    → byte_test (byte_clear b k) j ≡ (if k == j then false else byte_test b j)
byte_test-clear b k j hb hk hj =
    eqb→eq _ _ (over_bytes_sound after_clear b k j clear_table hb hk hj)

byte_in_range : (b k : ℕ) → b < 256 → k < 8 → (byte_mark b k < 256) × (byte_clear b k < 256)
byte_in_range b k hb hk = ground (arith, over_bytes_sound _ b k 0 range_table hb hk (omega arith))

get_or-lt : (bs : List ℕ) (i : ℕ) → AllBytes bs → get_or bs i 0 < 256
get_or-lt [] i h = omega arith
get_or-lt (b ∷ bs) zero h = h.0
get_or-lt (b ∷ bs) (suc i) h = get_or-lt bs i h.1

set-AllBytes : (bs : List ℕ) (i v : ℕ) → v < 256 → AllBytes bs → AllBytes (set bs i v)
set-AllBytes [] i v hv h = tt
set-AllBytes (b ∷ bs) zero v hv h = (hv, h.1)
set-AllBytes (b ∷ bs) (suc i) v hv h = (h.0, set-AllBytes bs i v hv h.1)

pub replicate-AllBytes : (n : ℕ) → AllBytes (replicate n 0)
replicate-AllBytes zero = tt
replicate-AllBytes (suc n) = (omega arith, replicate-AllBytes n)

zero_table : every (λ k. not (byte_test 0 k)) 8 ≡ true
unfolding every byte_test
zero_table = refl

pub test-replicate : (n i : ℕ) → test (replicate n 0) i ≡ false
unfolding test
test-replicate n i =
    rw (get_or-replicate {A = ℕ} n (i / 8) 0)
      (ground (arith, at_every _ 8 (i % 8) (omega arith) zero_table))

module _ (bits : List ℕ) where
  pub mark-AllBytes : (i : ℕ) → AllBytes bits → AllBytes (mark bits i)
  unfolding mark
  mark-AllBytes i h =
      set-AllBytes bits (i / 8) _
        (byte_in_range (get_or bits (i / 8) 0) (i % 8) (get_or-lt bits (i / 8) h) (omega arith)).0 h

  pub clear-AllBytes : (i : ℕ) → AllBytes bits → AllBytes (clear bits i)
  unfolding clear
  clear-AllBytes i h =
      set-AllBytes bits (i / 8) _
        (byte_in_range (get_or bits (i / 8) 0) (i % 8) (get_or-lt bits (i / 8) h) (omega arith)).1 h

  pub length-mark : (i : ℕ) → length (mark bits i) ≡ length bits
  unfolding mark
  length-mark i = length-set bits (i / 8) _

  pub length-clear : (i : ℕ) → length (clear bits i) ≡ length bits
  unfolding clear
  length-clear i = length-set bits (i / 8) _

  same_byte : (i j : ℕ) → i / 8 ≡ j / 8 → (i == j) ≡ (i % 8 == j % 8)
  same_byte i j e = ground arith

  other_byte : (i j : ℕ) → i / 8 ≢ j / 8 → (i == j) ≡ false
  other_byte i j e = ground arith

  -- Marking bit `i` sets it and leaves every other bit.
  pub test-mark :
      (i j : ℕ)
      → AllBytes bits
      → i / 8 < length bits
      → test (mark bits i) j ≡ (if i == j then true else test bits j)
  unfolding test mark
  test-mark i j h lt = elim (Bool-cases (i / 8 == j / 8)) [
    | inl e ↦
        let same : i / 8 ≡ j / 8 = ==→eq _ _ e in
        rw (same_byte i j same, ← same, get_or-set_self bits (i / 8) _ 0 lt)
          (byte_test-mark _ (i % 8) (j % 8) (get_or-lt bits (i / 8) h) (omega arith) (omega arith))
    | inr e ↦
        let apart : i / 8 ≢ j / 8 = ==→ne _ _ e in
        rw (other_byte i j apart, get_or-set_ne bits (i / 8) (j / 8) _ 0 apart)
  ]

  -- Clearing bit `i` resets it and leaves every other bit.
  pub test-clear :
      (i j : ℕ)
      → AllBytes bits
      → i / 8 < length bits
      → test (clear bits i) j ≡ (if i == j then false else test bits j)
  unfolding test clear
  test-clear i j h lt = elim (Bool-cases (i / 8 == j / 8)) [
    | inl e ↦
        let same : i / 8 ≡ j / 8 = ==→eq _ _ e in
        rw (same_byte i j same, ← same, get_or-set_self bits (i / 8) _ 0 lt)
          (byte_test-clear _ (i % 8) (j % 8) (get_or-lt bits (i / 8) h) (omega arith) (omega arith))
    | inr e ↦
        let apart : i / 8 ≢ j / 8 = ==→ne _ _ e in
        rw (other_byte i j apart, get_or-set_ne bits (i / 8) (j / 8) _ 0 apart)
  ]
