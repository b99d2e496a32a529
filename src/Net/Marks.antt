-- ===== src/Net/Marks.antt =====
-- The blocks that `sack_apply` of kernel/net.cpp reads mark the segments that they have a byte of.
use cofeuos.Base.{
  ℕ, zero, suc, ◌+◌, ◌^◌, ◌%◌, not, ◌≡◌, refl, ap, ◌∙◌, sym, Bool, true, false, ◌&&◌, ◌||◌, List,
  [], ◌∷◌, ltb, leb, if◌then◌else◌, arith, Bool-cases, inl, inr,
}
use cofeuos.Net.{Bytes, rd32}
use cofeuos.Net.Tcp.{TxSlot}
use cofeuos.Net.Sack.{overlaps, mark_slot, mark_slots, mark_block, mark_blocks}

-- One of the `len` sequence numbers from `seq` on is in the block from `l` up to `r`.
unfoldable pub has_byte : ℕ → ℕ → ℕ → ℕ → Bool
has_byte l r seq zero = false
has_byte l r seq (suc len) = leb l seq && ltb seq r || has_byte l r (seq + 1) len

-- One of `n` blocks from place `p` on passes a test with the segment.
unfoldable pub covered : (ℕ → ℕ → ℕ → ℕ → Bool) → ℕ → Bytes → ℕ → ℕ → ℕ → Bool
covered test zero d p seq len = false
covered test (suc n) d p seq len =
    test (rd32 d p) (rd32 d (p + 4)) seq len || covered test n d (p + 8) seq len

-- The segment has a byte, and its sequence numbers do not wrap round.
abbrev pub is_plain : TxSlot → Bool
is_plain s = ltb 0 s.len && ltb (s.seq + s.len) (2 ^ 32)

-- Every segment that waits for its acknowledgement is such a one.
abbrev pub AllPlain : List TxSlot → Type 0
AllPlain [] = Unit {0}
AllPlain (s ∷ ss) = ((not s.pend || is_plain s) ≡ true) × AllPlain ss

has_byte_lem :
    (l r seq len : ℕ)
    → has_byte l r seq len ≡ (ltb 0 len && (ltb l r && (ltb l (seq + len) && ltb seq r)))
unfolding has_byte
has_byte_lem l r seq zero = refl
has_byte_lem l r seq (suc len) = ground (arith, has_byte_lem l r (seq + 1) len)

-- Without a wrap the test of the code is whether the block has a byte of the segment.
overlaps-has_byte :
    (l r : ℕ) (s : TxSlot)
    → (not s.pend || is_plain s) ≡ true
    → (s.pend && (ltb l r && overlaps l r s.seq s.len)) ≡ (s.pend && has_byte l r s.seq s.len)
overlaps-has_byte l r s plain = elim (Bool-cases s.pend) [
  | inl h ↦
      let nw : (s.seq + s.len) % 2 ^ 32 ≡ s.seq + s.len = ground arith in
      ground (arith, has_byte_lem l r s.seq s.len, nw)
  | inr h ↦ rw h refl
]

abbrev pub reported : (ℕ → ℕ → ℕ → ℕ → Bool) → ℕ → Bytes → ℕ → TxSlot → TxSlot
reported test n d p s = record s { sacked = s.sacked || s.pend && covered test n d p s.seq s.len }

unfoldable pub report_all : (ℕ → ℕ → ℕ → ℕ → Bool) → ℕ → Bytes → ℕ → List TxSlot → List TxSlot
report_all test n d p [] = []
report_all test n d p (s ∷ ss) = reported test n d p s ∷ report_all test n d p ss

-- The test of the code.
abbrev block_test : ℕ → ℕ → ℕ → ℕ → Bool
block_test l r seq len = ltb l r && overlaps l r seq len

covered_plain :
    (n : ℕ) (d : Bytes) (p : ℕ) (s : TxSlot)
    → (not s.pend || is_plain s) ≡ true
    → (s.pend && covered block_test n d p s.seq s.len)
      ≡ (s.pend && covered has_byte n d p s.seq s.len)
unfolding covered
covered_plain zero d p s plain = refl
covered_plain (suc n) d p s plain =
    both_or s.pend _ _ _ _ (overlaps-has_byte (rd32 d p) (rd32 d (p + 4)) s plain)
      (covered_plain n d (p + 8) s plain)
  where
    both_or :
        (p a b x y : Bool)
        → (p && a) ≡ (p && x)
        → (p && b) ≡ (p && y)
        → (p && (a || b)) ≡ (p && (x || y))
    both_or p a b x y e e' = ground arith

report_all_plain :
    (n : ℕ) (d : Bytes) (p : ℕ) (ss : List TxSlot)
    → AllPlain ss
    → report_all block_test n d p ss ≡ report_all has_byte n d p ss
unfolding report_all
report_all_plain n d p [] h = refl
report_all_plain n d p (s ∷ ss) (h, hs) =
    ap (λ b. record s { sacked = s.sacked || b } ∷ report_all block_test n d p ss)
      (covered_plain n d p s h)
    ∙ ap (λ x. reported has_byte n d p s ∷ x) (report_all_plain n d p ss hs)

report_none : (d : Bytes) (p : ℕ) (ss : List TxSlot) → report_all block_test 0 d p ss ≡ ss
unfolding report_all covered
report_none d p [] = refl
report_none d p (s ∷ ss) =
    let same : (s.sacked || s.pend && false) ≡ s.sacked = ground arith in
    rw same (ap (λ x. s ∷ x) (report_none d p ss))

abbrev with_sacked : TxSlot → Bool → TxSlot
with_sacked s b = record s { sacked = b }

mark_slot_lem :
    (s : TxSlot) (l r : ℕ)
    → mark_slot l r s ≡ with_sacked s (s.sacked || s.pend && overlaps l r s.seq s.len)
mark_slot_lem s l r = elim (Bool-cases (s.pend && overlaps l r s.seq s.len)) [
  | inl hit ↦ let marked : (s.sacked || true) ≡ true = ground arith in rw (hit, marked) refl
  | inr miss ↦ let same : (s.sacked || false) ≡ s.sacked = ground arith in rw (miss, same) refl
]

abbrev after_block : ℕ → ℕ → TxSlot → TxSlot
after_block l r s = if leb r l then s else mark_slot l r s

abbrev block_covers : ℕ → ℕ → TxSlot → Bool
block_covers l r s = ltb l r && overlaps l r s.seq s.len

after_block_lem :
    (s : TxSlot) (l r : ℕ)
    → after_block l r s ≡ with_sacked s (s.sacked || s.pend && block_covers l r s)
after_block_lem s l r = elim (Bool-cases (leb r l)) [
  | inl h ↦
      let no_block : ltb l r ≡ false = ground arith in
      let same : (s.sacked || s.pend && false) ≡ s.sacked = ground arith in
      rw (h, no_block, same) refl
  | inr h ↦ let block : ltb l r ≡ true = ground arith in rw (h, block) (mark_slot_lem s l r)
]

both_marks : (a p x c : Bool) → ((a || p && x) || p && c) ≡ (a || p && (x || c))
both_marks a p x c = ground arith

reported-after_block :
    (n : ℕ) (d : Bytes) (p : ℕ) (s : TxSlot)
    → reported block_test n d (p + 8) (after_block (rd32 d p) (rd32 d (p + 4)) s)
      ≡ reported block_test (suc n) d p s
unfolding covered
reported-after_block n d p s =
    let l = rd32 d p in
    let r = rd32 d (p + 4) in
    ap (reported block_test n d (p + 8)) (after_block_lem s l r)
    ∙ ap (with_sacked s) (
        both_marks s.sacked s.pend (block_covers l r s)
          (covered block_test n d (p + 8) s.seq s.len))

mark_block-cons :
    (l r : ℕ) (s : TxSlot) (ss : List TxSlot)
    → mark_block l r (s ∷ ss) ≡ after_block l r s ∷ mark_block l r ss
unfolding mark_slots
mark_block-cons l r s ss = elim (Bool-cases (leb r l)) [ inl h ↦ rw h refl | inr h ↦ rw h refl ]

mark_block-empty : (l r : ℕ) → mark_block l r [] ≡ []
unfolding mark_slots
mark_block-empty l r = elim (Bool-cases (leb r l)) [ inl h ↦ rw h refl | inr h ↦ rw h refl ]

report_all-mark_block :
    (n : ℕ) (d : Bytes) (p : ℕ) (ss : List TxSlot)
    → report_all block_test n d (p + 8) (mark_block (rd32 d p) (rd32 d (p + 4)) ss)
      ≡ report_all block_test (suc n) d p ss
unfolding report_all
report_all-mark_block n d p [] =
    ap (report_all block_test n d (p + 8)) (mark_block-empty (rd32 d p) (rd32 d (p + 4)))
report_all-mark_block n d p (s ∷ ss) =
    ap (report_all block_test n d (p + 8)) (mark_block-cons (rd32 d p) (rd32 d (p + 4)) s ss)
    ∙ ap (λ x. x ∷ report_all block_test n d (p + 8) (mark_block (rd32 d p) (rd32 d (p + 4)) ss))
        (reported-after_block n d p s)
    ∙ ap (λ x. reported block_test (suc n) d p s ∷ x) (report_all-mark_block n d p ss)

mark_blocks_lem :
    (n : ℕ) (d : Bytes) (p : ℕ) (ss : List TxSlot)
    → mark_blocks n d p ss ≡ report_all block_test n d p ss
unfolding mark_blocks
mark_blocks_lem zero d p ss = sym (report_none d p ss)
mark_blocks_lem (suc n) d p ss =
    mark_blocks_lem n d (p + 8) (mark_block (rd32 d p) (rd32 d (p + 4)) ss)
    ∙ report_all-mark_block n d p ss

-- The code marks the segments that wait and of which a block has a byte.
pub mark_blocks_plain :
    (n : ℕ) (d : Bytes) (p : ℕ) (ss : List TxSlot)
    → AllPlain ss
    → mark_blocks n d p ss ≡ report_all has_byte n d p ss
mark_blocks_plain n d p ss plain = mark_blocks_lem n d p ss ∙ report_all_plain n d p ss plain
