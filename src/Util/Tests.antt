-- ===== src/Util/Tests.antt =====
-- Runs of kernel/util.cpp on the bytes "abcabcd" and an end, at address 8.
use cofeuos.Base.{
  ℕ, zero, suc, ◌+◌, ◌-◌, ◌<◌, ◌≡◌, ◌≢◌, refl, [], ◌∷◌, List, leb, if◌then◌else◌, get_or, some,
  arith,
}
use cofeuos.Util.{
  fill, Memory, memcpy, memmove, memcmp, before_tail, by_words, align_loop, word_loop, byte_loop,
  back, memset,
}
use cofeuos.Util.Moves.{Copied}
use cofeuos.Util.Strings.{IsString}
use cofeuos.Util.Moves.{memmove_lem}

abbrev bytes : List ℕ
bytes = 97 ∷ 98 ∷ 99 ∷ 97 ∷ 98 ∷ 99 ∷ 100 ∷ 0 ∷ []

abbrev page : Memory
page x = if leb 8 x then get_or bytes (x - 8) 0 else 0

-- Six bytes moved up by one, from the far end.
memmove_runs : (memmove page 9 8 6 9 ≡ 97) × (memmove page 9 8 6 14 ≡ 99)
unfolding memmove back
memmove_runs = (refl, refl)

memset_runs : (memset page 9 0x141 3 11 ≡ 0x41) × (memset page 9 0x141 3 12 ≡ 98)
unfolding memset fill
memset_runs = (refl, refl)

-- Seven bytes to an address alike modulo four: one word and three bytes.
memcpy_runs : (memcpy page 40 8 7 46 ≡ 100) × (memcpy page 40 8 7 47 ≡ 0)
unfolding memcpy before_tail by_words align_loop word_loop byte_loop
memcpy_runs = (refl, refl)

memcmp_runs : memcmp 4 page 8 11 ≡ some (97, 100)
unfolding memcmp
memcmp_runs = refl

text : IsString page 8 7
text = record { chars = λ i lt. each i lt; end = refl }
  where
    each : (i : ℕ) → i < 7 → page (8 + i) ≢ 0
    each zero lt = ground arith
    each (suc zero) lt = ground arith
    each (suc (suc zero)) lt = ground arith
    each (suc (suc (suc zero))) lt = ground arith
    each (suc (suc (suc (suc zero)))) lt = ground arith
    each (suc (suc (suc (suc (suc zero))))) lt = ground arith
    each (suc (suc (suc (suc (suc (suc zero)))))) lt = ground arith
    each (suc (suc (suc (suc (suc (suc (suc i))))))) lt = absurd (omega arith)

memmove_lem_example : Copied page 9 8 6 (memmove page 9 8 6)
memmove_lem_example = memmove_lem page 9 8 6
