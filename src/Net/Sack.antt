-- ===== src/Net/Sack.antt =====
-- kernel/net.cpp: the blocks with which a peer reports what came out of order, `sack_apply`.
use cofeuos.Base.{
  ℕ, zero, suc, ◌+◌, ◌-◌, ◌/◌, Bool, true, ◌&&◌, ◌||◌, List, [], ◌∷◌, Option, none, some, ltb, leb,
  ◌==◌, if◌then◌else◌, add32,
}
use cofeuos.Net.{Bytes, rd32}
use cofeuos.Net.Tcp.{TxSlot, Tcb}

abbrev pub overlaps : ℕ → ℕ → ℕ → ℕ → Bool
overlaps l r seq len = ltb l (add32 seq len) && ltb seq r

abbrev pub mark_slot : ℕ → ℕ → TxSlot → TxSlot
mark_slot l r s = if s.pend && overlaps l r s.seq s.len then record s { sacked = true } else s

-- The loop over the slots for the block from `l` to `r`.
unfoldable pub mark_slots : ℕ → ℕ → List TxSlot → List TxSlot
mark_slots l r [] = []
mark_slots l r (s ∷ ss) = mark_slot l r s ∷ mark_slots l r ss

abbrev pub mark_block : ℕ → ℕ → List TxSlot → List TxSlot
mark_block l r ss = if leb r l then ss else mark_slots l r ss

-- The loop over `n` blocks from place `p` on.
unfoldable pub mark_blocks : ℕ → Bytes → ℕ → List TxSlot → List TxSlot
mark_blocks zero d p ss = ss
mark_blocks (suc n) d p ss = mark_blocks n d (p + 8) (mark_block (rd32 d p) (rd32 d (p + 4)) ss)

-- The loop over the options at place `o`, with fuel; none is that it ran out.
unfoldable pub sack_loop : ℕ → Bytes → ℕ → ℕ → List TxSlot → Option (List TxSlot)
sack_loop zero d offhdr o ss = none
sack_loop (suc k) d offhdr o ss =
    let olen = d (o + 1) in
    let next = sack_loop k d offhdr (o + 1) ss in
    let rest = sack_loop k d offhdr (o + olen) ss in
    if ltb offhdr (o + 2) || d o == 0
    then some ss
    else if d o == 1
    then next
    else if ltb olen 2 || ltb offhdr (o + olen)
    then some ss
    else if d o == 5 && leb 10 olen
    then some (mark_blocks ((olen - 2) / 8) d (o + 2) ss)
    else rest

abbrev pub with_txb : Tcb → Option (List TxSlot) → Option Tcb
with_txb t none = none
with_txb t (some ss) = some (record t { txb = ss })

unfoldable pub sack_apply : Tcb → Bytes → ℕ → Option Tcb
sack_apply t d offhdr = with_txb t (sack_loop (offhdr + 1) d offhdr 20 t.txb)
