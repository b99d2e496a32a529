-- ===== src/Fmt/Tests.antt =====
-- The theorems on kernel/kprintf.cpp at concrete inputs.
use cofeuos.Base.{ℕ, ◌^◌, ◌<◌, ◌≤◌, ◌≡◌, refl, List, [], ◌∷◌, true, false, arith, length}
use cofeuos.Fmt.{
  Args, overrun, begin, digits_of, ksnprintf, vformat, convert, read_spec, skip_dashes, read_width,
  skip_sizes, overruns,
}
use cofeuos.Fmt.Digits.{number_of, digits_of_lem, length-digits_of}
use cofeuos.Fmt.Bounded.{
  emit_char, put_length, no_text, output, AllOutside, stores_of, EndsAs, ksnprintf_lem,
}

-- One word, 255, and a text at every address.
abbrev args : Args
args = record { word = λ i. 255; text = λ p. 104 ∷ 105 ∷ [] }

-- "a%-5xb"
abbrev hex_format : List ℕ
hex_format = 97 ∷ 37 ∷ 45 ∷ 53 ∷ 120 ∷ 98 ∷ []

digits_of_lem_example : number_of 16 (digits_of 64 16 true 48879) ≡ 48879
digits_of_lem_example = digits_of_lem 63 16 48879 true (omega arith) (omega arith) (omega arith)

length-digits_of_example :
    (length (digits_of 64 10 false (2 ^ 30)) ≤ 20)
    × (length (digits_of 64 16 false (2 ^ 30)) ≤ 16)
    × (2 ^ 24 ≤ 2 ^ 30 → 24 < length (digits_of 64 2 false (2 ^ 30)))
length-digits_of_example = length-digits_of (2 ^ 30) false (omega arith)

-- "%n" at the address 255, outside the buffer.
abbrev count_format : List ℕ
count_format = 97 ∷ 98 ∷ 37 ∷ 110 ∷ []

count_outside : AllOutside 100 4 (stores_of (output args count_format))
unfolding output vformat convert read_spec skip_dashes read_width skip_sizes overruns
count_outside = (refl, tt)

ksnprintf_lem_example :
    EndsAs (λ x. 7) 100 4 (output args count_format) (ksnprintf (λ x. 7) 100 4 args count_format)
ksnprintf_lem_example = ksnprintf_lem (λ x. 7) 100 4 (omega arith) args count_format count_outside

-- A number of 25 bits in binary.
wide_overruns :
    vformat emit_char put_length 3
      record { word = λ i. 2 ^ 24; text = λ p. [] }
      (37 ∷ 98 ∷ [])
      (begin no_text)
    ≡ overrun (begin no_text)
unfolding vformat read_spec skip_dashes read_width skip_sizes overruns digits_of
wide_overruns = refl
