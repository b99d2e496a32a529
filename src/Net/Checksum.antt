-- ===== src/Net/Checksum.antt =====
-- The checksum of kernel/net.cpp: a packet that carries its own checksum sums up to nothing.
use cofeuos.Base.{
  ℕ, zero, suc, ◌+◌, ◌-◌, ◌*◌, ◌/◌, ◌%◌, ◌^◌, ◌<◌, ◌≤◌, ◌≡◌, refl, sym, ap, ◌∙◌, true, ◌==◌, arith,
  Bool-cases, inl, inr,
}
use cofeuos.Net.{Bytes, wr16, add_words, fold_sum, ip_checksum}

-- The sum of the words, which does not wrap round.
words : ℕ → Bytes → ℕ → ℕ
words zero d i = 0
words (suc zero) d i = d i * 256
words (suc (suc n)) d i = d i * 256 + d (i + 1) + words n d (i + 2)

abbrev pub AreBytes : Bytes → Type 0
AreBytes d = (x : ℕ) → d x < 256

words_bound : (n : ℕ) (d : Bytes) (i : ℕ) → AreBytes d → 2 * words n d i ≤ 65535 * (n + 1)
unfolding words
words_bound zero d i b = omega arith
words_bound (suc zero) d i b = omega (arith, b i)
words_bound (suc (suc n)) d i b = omega (arith, b i, b (i + 1), words_bound n d (i + 2) b)

add_words-words :
    (n : ℕ) (d : Bytes) (i s : ℕ) → s + words n d i < 2 ^ 32 → add_words n d i s ≡ s + words n d i
unfolding words add_words
add_words-words zero d i s lt = omega arith
add_words-words (suc zero) d i s lt = omega arith
add_words-words (suc (suc n)) d i s lt =
    let e : (s + (d i * 256 + d (i + 1))) % 2 ^ 32 ≡ s + (d i * 256 + d (i + 1)) = omega arith in
    rw e (add_words-words n d (i + 2) (s + (d i * 256 + d (i + 1))) (omega arith) ∙ omega arith)

words_same :
    (n : ℕ) (d e : Bytes) (i : ℕ) → ((x : ℕ) → i ≤ x → d x ≡ e x) → words n d i ≡ words n e i
unfolding words
words_same zero d e i same = refl
words_same (suc zero) d e i same = omega (arith, same i)
words_same (suc (suc n)) d e i same =
    omega (arith, same i, same (i + 1), words_same n d e (i + 2) (λ x le. same x (omega arith)))

words_set :
    (k n : ℕ) (d : Bytes) (i o c : ℕ)
    → o ≡ i + 2 * k
    → 2 * k + 1 < n
    → d o ≡ 0
    → d (o + 1) ≡ 0
    → c < 65536
    → words n (wr16 d o c) i ≡ words n d i + c
unfolding words
words_set k zero d i o c e lt a b small = absurd (omega arith)
words_set k (suc zero) d i o c e lt a b small = absurd (omega arith)
words_set zero (suc (suc n)) d i o c e lt a b small =
    let here : o ≡ i = omega arith in
    let rest : words n (wr16 d o c) (i + 2) ≡ words n d (i + 2) =
      words_same n (wr16 d o c) d (i + 2) (λ x le. ground arith) in
    let high : wr16 d o c i ≡ c / 256 % 256 = ground arith in
    let low : wr16 d o c (i + 1) ≡ c % 256 = ground arith in
    let di : d i ≡ 0 = ap d (sym here) ∙ a in
    let di1 : d (i + 1) ≡ 0 = ap (λ x. d (x + 1)) (sym here) ∙ b in omega arith
words_set (suc k) (suc (suc n)) d i o c e lt a b small =
    let rest : words n (wr16 d o c) (i + 2) ≡ words n d (i + 2) + c =
      words_set k n d (i + 2) o c (omega arith) (omega arith) a b small in
    let high : wr16 d o c i ≡ d i = ground arith in
    let low : wr16 d o c (i + 1) ≡ d (i + 1) = ground arith in omega arith

-- A folded sum is the same modulo 65535, and is 0 only if the sum is.
fold_sum-mod : (k s : ℕ) → ((q : ℕ) × (s ≡ 65535 * q + fold_sum k s)) × (0 < s → 0 < fold_sum k s)
unfolding fold_sum
fold_sum-mod zero s = ((0, omega arith), λ pos. pos)
fold_sum-mod (suc k) s = elim (Bool-cases (s / 65536 == 0)) [
  | inl e ↦ rw e ((0, omega arith), λ pos. pos)
  | inr more ↦
      let ((q, e), pos) = fold_sum-mod k (s % 65536 + s / 65536) in
      rw more ((q + s / 65536, omega arith), λ h. pos (omega arith))
]

fold_bound : (k m s : ℕ) → s < m → m ≤ 65536 → fold_sum k s < 65536
unfolding fold_sum
fold_bound zero m s lt le = omega arith
fold_bound (suc k) m s lt le =
    let none_over : (s / 65536 == 0) ≡ true = ground arith in rw none_over (omega arith)

fold_twice : (s : ℕ) → s < 131071 → fold_sum 2 s < 65536
unfolding fold_sum
fold_twice s lt = elim (Bool-cases (s / 65536 == 0)) [
  | inl e ↦ rw e (ground arith)
  | inr more ↦ rw more (fold_bound 1 65536 (s % 65536 + s / 65536) (ground arith) (omega arith))
]

fold_thrice : (s : ℕ) → s < 2 ^ 32 → fold_sum 3 s < 65536
unfolding fold_sum
fold_thrice s lt = elim (Bool-cases (s / 65536 == 0)) [
  | inl e ↦ rw e (ground arith)
  | inr more ↦ rw more (fold_twice (s % 65536 + s / 65536) (omega arith))
]

-- A packet whose checksum field, at an even place, is 0 and then gets the packet's checksum sums
-- up to nothing, if it has at most 65536 bytes.
pub ip_checksum_lem :
    (d : Bytes) (n k : ℕ)
    → AreBytes d
    → n ≤ 65536
    → 2 * k + 1 < n
    → d (2 * k) ≡ 0
    → d (2 * k + 1) ≡ 0
    → ip_checksum (wr16 d (2 * k) (ip_checksum d n)) n ≡ 0
unfolding ip_checksum
ip_checksum_lem d n k b small lt high low =
    let bound : 2 * words n d 0 ≤ 65535 * (n + 1) = words_bound n d 0 b in
    let sum : add_words n d 0 0 ≡ words n d 0 =
      add_words-words n d 0 0 (omega arith) ∙ omega arith in
    let r = fold_sum 3 (add_words n d 0 0) in
    let r_small : fold_sum 3 (add_words n d 0 0) < 65536 =
      fold_thrice (add_words n d 0 0) (omega arith) in
    let ((q, congruent), r_pos) = fold_sum-mod 3 (add_words n d 0 0) in
    let e = wr16 d (2 * k) (65535 - r) in
    let set : words n e 0 ≡ words n d 0 + (65535 - r) =
      words_set k n d 0 (2 * k) (65535 - r) (omega arith) lt high low (omega arith) in
    let sum' : add_words n e 0 0 ≡ words n e 0 =
      add_words-words n e 0 0 (omega arith) ∙ omega arith in
    let ((q', congruent'), pos') = fold_sum-mod 3 (add_words n e 0 0) in
    let r'_small : fold_sum 3 (add_words n e 0 0) < 65536 = fold_thrice _ (omega arith) in
    let r'_pos : 0 < fold_sum 3 (add_words n e 0 0) = pos' (omega arith) in omega arith
