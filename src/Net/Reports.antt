-- ===== src/Net/Reports.antt =====
-- `sack_apply` of kernel/net.cpp marks a segment exactly when a reported block covers part of it.
use cofeuos.Base.{ℕ, ◌+◌, ◌-◌, ◌/◌, ◌<◌, ◌≤◌, ◌⊎◌, ◌≢◌, ◌≡◌, List, Option, none, some}
use cofeuos.Net.{Bytes}
use cofeuos.Net.Tcp.{TxSlot}
use cofeuos.Net.Marks.{has_byte, report_all}

-- Behind place `o`, the first option with blocks has its blocks at the place and in the number
-- that are given; or there is none before the end of the options or the first that is not well
-- formed.
pub data FirstReport (d : Bytes) (offhdr : ℕ) : ℕ → Option (ℕ × ℕ) → Type 0 where
  outside : (o : ℕ) → offhdr < o + 2 → FirstReport d offhdr o none
  ending : (o : ℕ) → d o ≡ 0 → FirstReport d offhdr o none
  padding :
      (o : ℕ) (r : Option (ℕ × ℕ))
      → o + 2 ≤ offhdr
      → d o ≡ 1
      → FirstReport d offhdr (o + 1) r
      → FirstReport d offhdr o r
  malformed :
      (o : ℕ) → 1 < d o → (d (o + 1) < 2) ⊎ (offhdr < o + d (o + 1)) → FirstReport d offhdr o none
  blocks :
      (o : ℕ)
      → d o ≡ 5
      → 10 ≤ d (o + 1)
      → o + d (o + 1) ≤ offhdr
      → FirstReport d offhdr o (some (o + 2, (d (o + 1) - 2) / 8))
  other :
      (o : ℕ) (r : Option (ℕ × ℕ))
      → 1 < d o
      → (d o ≢ 5) ⊎ (d (o + 1) < 10)
      → 2 ≤ d (o + 1)
      → o + d (o + 1) ≤ offhdr
      → FirstReport d offhdr (o + d (o + 1)) r
      → FirstReport d offhdr o r

-- What a report makes of the segments: those that wait and of which it has a byte are marked.
abbrev pub report : Option (ℕ × ℕ) → Bytes → List TxSlot → List TxSlot
report none d ss = ss
report (some (p, n)) d ss = report_all has_byte n d p ss
