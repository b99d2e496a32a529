-- ===== src/Fmt/Digits.antt =====
-- The digits that kernel/kprintf.cpp's `print_u64` writes.
use cofeuos.Base.{
  ℕ, zero, suc, ◌+◌, ◌-◌, ◌*◌, ◌/◌, ◌%◌, ◌^◌, ◌<◌, ◌≤◌, ◌≡◌, ◌≢◌, ap, ◌∙◌, Bool, true, false, List,
  [], ◌∷◌, ltb, ◌==◌, if◌then◌else◌, arith, Bool-cases, inl, inr, length,
}
use native.Mathlib.Nat.{
  div-add-mod, mul-le-mul_right, mod-lt, lt_of_mul-lt-mul_left, pow-succ', pow-zero, one-le-pow,
}
use cofeuos.Fmt.{digits_of, digit_char}

-- The digit that a character stands for.
abbrev pub digit_value : ℕ → ℕ
digit_value c = if ltb c 58 then c - 48 else if ltb c 91 then c - 55 else c - 87

-- The number that digits stand for, the last of them first.
pub number_of : ℕ → List ℕ → ℕ
number_of base [] = 0
number_of base (d ∷ ds) = digit_value d + base * number_of base ds

digit_value-char : (upper : Bool) (i : ℕ) → i < 16 → digit_value (digit_char upper i) ≡ i
digit_value-char true i lt = ground arith
digit_value-char false i lt = ground arith

quotient_small : (k base v : ℕ) → 2 ≤ base → v < 2 ^ suc k → v / base < 2 ^ k
quotient_small k base v lo lt =
    let whole : base * (v / base) + v % base ≡ v = div-add-mod v base in
    let twice : 2 * (v / base) ≤ base * (v / base) = mul-le-mul_right (v / base) lo in
    let power : 2 ^ suc k ≡ 2 * 2 ^ k = omega arith in omega arith

digits_of_step :
    (k base v : ℕ) (upper : Bool)
    → 2 ≤ base
    → base ≤ 16
    → (v / base ≢ 0 → number_of base (digits_of k base upper (v / base)) ≡ v / base)
    → number_of base (digits_of (suc k) base upper v) ≡ v
unfolding digits_of number_of
digits_of_step k base v upper lo hi rest =
    let whole : base * (v / base) + v % base ≡ v = div-add-mod v base in
    let low : v % base < base = mod-lt v (omega arith) in
    let digit : digit_value (digit_char upper (v % base)) ≡ v % base =
      digit_value-char upper (v % base) (omega arith) in
    elim (Bool-cases (v / base == 0)) [
      | inl e ↦
          let none_left : v / base ≡ 0 = ground arith in
          let gone : base * (v / base) ≡ 0 = ap (λ x. base * x) none_left ∙ omega arith in
          rw e (omega arith)
      | inr more ↦
          let later : base * number_of base (digits_of k base upper (v / base))
              ≡ base * (v / base) =
            ap (λ x. base * x) (rest (ground arith)) in
          rw more (omega arith)
    ]

-- The digits of a number that has at most k + 1 bits, in a base from 2 to 16, stand for it.
pub digits_of_lem :
    (k base v : ℕ) (upper : Bool)
    → 2 ≤ base
    → base ≤ 16
    → v < 2 ^ suc k
    → number_of base (digits_of (suc k) base upper v) ≡ v
digits_of_lem zero base v upper lo hi lt =
    digits_of_step zero base v upper lo hi
      (λ more. let small : v / base < 2 ^ 0 = quotient_small 0 base v lo lt in absurd (omega arith))
digits_of_lem (suc k) base v upper lo hi lt =
    digits_of_step (suc k) base v upper lo hi
      (λ more. digits_of_lem k base (v / base) upper lo hi (quotient_small (suc k) base v lo lt))

power_suc : (b m : ℕ) → b ^ suc m ≡ b * b ^ m
power_suc b m = pow-succ' b m

power_pos : (b m : ℕ) → 2 ≤ b → 0 < b ^ m
power_pos b m lo = one-le-pow m b (omega arith)

length_most :
    (k base v m : ℕ) (upper : Bool) → v < base ^ suc m → length (digits_of k base upper v) ≤ suc m
unfolding digits_of
length_most zero base v m upper lt = omega arith
length_most (suc k) base v zero upper lt =
    let whole : base * (v / base) + v % base ≡ v = div-add-mod v base in
    let power : base ^ 1 ≡ base * 1 = power_suc base 0 ∙ ap (λ x. base * x) (pow-zero base) in
    let small : v / base < 1 = lt_of_mul-lt-mul_left base (omega arith) in
    let none_left : (v / base == 0) ≡ true = ground arith in rw none_left (omega arith)
length_most (suc k) base v (suc m) upper lt =
    let whole : base * (v / base) + v % base ≡ v = div-add-mod v base in
    let power : base ^ suc (suc m) ≡ base * base ^ suc m = power_suc base (suc m) in
    let small : v / base < base ^ suc m = lt_of_mul-lt-mul_left base (omega arith) in
    elim (Bool-cases (v / base == 0)) [
      | inl e ↦ rw e (omega arith)
      | inr more ↦ rw more (omega (arith, length_most k base (v / base) m upper small))
    ]

length_least :
    (k base v m : ℕ) (upper : Bool)
    → 2 ≤ base
    → v < 2 ^ k
    → base ^ m ≤ v
    → m < length (digits_of k base upper v)
unfolding digits_of
length_least zero base v m upper lo lt le = absurd (omega (arith, power_pos base m lo))
length_least (suc k) base v zero upper lo lt le = omega arith
length_least (suc k) base v (suc m) upper lo lt le =
    let whole : base * (v / base) + v % base ≡ v = div-add-mod v base in
    let low : v % base < base = mod-lt v (omega arith) in
    let power : base ^ suc m ≡ base * base ^ m = power_suc base m in
    let enough : base ^ m < v / base + 1 = lt_of_mul-lt-mul_left base (omega arith) in
    let pos : 0 < base ^ m = power_pos base m lo in
    let more : (v / base == 0) ≡ false = ground arith in
    let longer : m < length (digits_of k base upper (v / base)) =
      length_least k base (v / base) m upper lo (quotient_small k base v lo lt) (omega arith) in
    rw more (omega arith)

-- How many of its 24 places the array of digits needs for a number of 64 bits: at most 20 for
-- decimal and 16 for hexadecimal digits; in binary, more than 24 if the number has more than 24
-- bits, so that the array is overrun.
pub length-digits_of :
    (v : ℕ) (upper : Bool)
    → v < 2 ^ 64
    → (length (digits_of 64 10 upper v) ≤ 20)
      × (length (digits_of 64 16 upper v) ≤ 16)
      × (2 ^ 24 ≤ v → 24 < length (digits_of 64 2 upper v))
length-digits_of v upper lt = (
  length_most 64 10 v 19 upper (omega arith),
  length_most 64 16 v 15 upper (omega arith),
  λ le. length_least 64 2 v 24 upper (omega arith) lt le,
)
