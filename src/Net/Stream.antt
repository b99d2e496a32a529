-- ===== src/Net/Stream.antt =====
-- What kernel/net.cpp receives: the ring of bytes as a queue, and the clock of a connection.
use cofeuos.Base.{
  ℕ, zero, suc, ◌+◌, ◌-◌, ◌%◌, ◌<◌, ◌≤◌, ◌≡◌, ◌≢◌, refl, sym, ap, ◌∙◌, true, false, ltb,
  if◌then◌else◌, arith, Bool-cases, inl, inr, min, add32,
}
use cofeuos.Net.{Bytes, put}
use cofeuos.Net.Tcp.{Tcb, ring_copy, rxr_push, stored_of, rto_of, rtt_apply_ms}

-- Whatever the sample and the history, the time to wait for an answer stays between 200 and 3000
-- milliseconds.
pub rtt_apply_ms_lem :
    (t : Tcb) (rtt : ℕ) → (200 ≤ (rtt_apply_ms t rtt).rto) × ((rtt_apply_ms t rtt).rto ≤ 3000)
unfolding rtt_apply_ms rto_of
rtt_apply_ms_lem t rtt = ground arith

-- The places of a ring from `w` on, of which the first is written and then `n` more.
ring_places :
    (n w i : ℕ) (rxr p c : Bytes)
    → suc n ≤ 8192
    → w < 8192
    → ((k : ℕ)
        → k < 8192
        → c (((w + 1) % 8192 + k) % 8192)
          ≡ (if ltb k n then p (i + 1 + k) else put rxr w (p i) (((w + 1) % 8192 + k) % 8192)))
    → (k : ℕ) → k < 8192
    → c ((w + k) % 8192) ≡ (if ltb k (suc n) then p (i + k) else rxr ((w + k) % 8192))
ring_places n w i rxr p c le lt rest zero h =
    let around : ((w + 1) % 8192 + 8191) % 8192 ≡ w = omega arith in
    let here : (w + 0) % 8192 ≡ w = omega arith in
    let none_left : ltb 8191 n ≡ false = ground arith in
    let start : i + 0 ≡ i = omega arith in
    let at : c (((w + 1) % 8192 + 8191) % 8192) ≡ (
        if ltb 8191 n then p (i + 1 + 8191) else put rxr w (p i) (((w + 1) % 8192 + 8191) % 8192)) =
      rest 8191 (omega arith) in
    ap c here ∙ ap c (sym around) ∙ at ∙ ground (arith, ap p start)
ring_places n w i rxr p c le lt rest (suc k) h =
    let same : ((w + 1) % 8192 + k) % 8192 ≡ (w + suc k) % 8192 = omega arith in
    let other : (w + suc k) % 8192 ≢ w = (λ e. omega arith) in
    let place : i + 1 + k ≡ i + suc k = omega arith in
    let at : c (((w + 1) % 8192 + k) % 8192)
        ≡ (if ltb k n then p (i + 1 + k) else put rxr w (p i) (((w + 1) % 8192 + k) % 8192)) =
      rest k (omega arith) in
    ap c (sym same) ∙ at ∙ ground (arith, ap p place, ap rxr same)

-- The bytes that are copied, and the places of the ring that stay.
ring_copy_lem :
    (n w i : ℕ) (rxr p : Bytes)
    → n ≤ 8192
    → w < 8192
    → ((ring_copy n rxr w p i).1 ≡ (w + n) % 8192)
      × ((k : ℕ)
          → k < 8192
          → (ring_copy n rxr w p i).0 ((w + k) % 8192)
            ≡ (if ltb k n then p (i + k) else rxr ((w + k) % 8192)))
unfolding ring_copy
ring_copy_lem zero w i rxr p le lt = (omega arith, λ k h. ground arith)
ring_copy_lem (suc n) w i rxr p le lt =
    let (last, rest) =
      ring_copy_lem n ((w + 1) % 8192) (i + 1) (put rxr w (p i)) p (omega arith) (omega arith) in
    (
      last ∙ omega arith,
      ring_places n w i rxr p (ring_copy n (put rxr w (p i)) ((w + 1) % 8192) p (i + 1)).0 le lt
          rest,
    )

-- A ring seen from its first byte, after `m` bytes have been written behind its last.
ring_view :
    (w fill m : ℕ) (rxr p c : Bytes)
    → w < 8192
    → fill + m ≤ 8192
    → ((k : ℕ)
        → k < 8192
        → c ((w + k) % 8192) ≡ (if ltb k m then p (0 + k) else rxr ((w + k) % 8192)))
    → (k : ℕ) → k < fill + m
    → c (((w + m) % 8192 + (8192 - (fill + m)) + k) % 8192)
      ≡ (if ltb k fill then rxr ((w + (8192 - fill) + k) % 8192) else p (k - fill))
ring_view w fill m rxr p c lt le places k h = elim (Bool-cases (ltb k fill)) [
  | inl old ↦
      let j : ((w + m) % 8192 + (8192 - (fill + m)) + k) % 8192 ≡ (w + (8192 - fill + k)) % 8192 =
        ground arith in
      let j' : (w + (8192 - fill) + k) % 8192 ≡ (w + (8192 - fill + k)) % 8192 = ground arith in
      let kept : ltb (8192 - fill + k) m ≡ false = ground arith in
      rw (old, j, j') (places (8192 - fill + k) (ground arith) ∙ rw kept refl)
  | inr new ↦
      let j : ((w + m) % 8192 + (8192 - (fill + m)) + k) % 8192 ≡ (w + (k - fill)) % 8192 =
        ground arith in
      let written : ltb (k - fill) m ≡ true = ground arith in
      let start : 0 + (k - fill) ≡ k - fill = omega arith in
      rw (new, j) (places (k - fill) (ground arith) ∙ rw written (ap p start))
]

-- The bytes that wait, in order: the ring ends at `rxr_w`.
abbrev pub waiting : Tcb → ℕ → ℕ
waiting t k = t.rxr ((t.rxr_w + (8192 - t.rxr_fill) + k) % 8192)

pub record IsRing (t : Tcb) : Type 0 where
  pub place : t.rxr_w < 8192
  pub fill : t.rxr_fill ≤ 8192

-- `rxr_push` puts the bytes behind those that wait, as many as there is room for, and takes none.
pub rxr_push_lem :
    (t : Tcb) (p : Bytes) (n : ℕ)
    → IsRing t
    → let r = rxr_push t p n in
      IsRing r.0
      × (r.1 ≡ min n (8192 - t.rxr_fill))
      × (r.0.rxr_fill ≡ t.rxr_fill + r.1)
      × ((k : ℕ)
          → k < t.rxr_fill + r.1
          → waiting r.0 k ≡ (if ltb k t.rxr_fill then waiting t k else p (k - t.rxr_fill)))
unfolding rxr_push
rxr_push_lem t p n ring =
    let room : t.rxr_fill ≤ 8192 = ring.fill in
    let m : stored_of t n ≡ min n (8192 - t.rxr_fill) = ground arith in
    let (last, places) = ring_copy_lem (stored_of t n) t.rxr_w 0 t.rxr p (omega arith) ring.place in
    let filled : add32 t.rxr_fill (stored_of t n) ≡ t.rxr_fill + stored_of t n = omega arith in
    (
      record { place = omega arith; fill = omega arith },
      m,
      filled,
      λ k h.
          rw (last, filled)
            (ring_view t.rxr_w t.rxr_fill (stored_of t n) t.rxr p
              (ring_copy (stored_of t n) t.rxr t.rxr_w p 0).0 ring.place (omega arith) places k h),
    )
