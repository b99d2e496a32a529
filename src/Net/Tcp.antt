-- ===== src/Net/Tcp.antt =====
-- kernel/net.cpp: the parts of a connection that receive data, keep time and open the window.
use cofeuos.Base.{
  ℕ, zero, suc, ◌+◌, ◌-◌, ◌*◌, ◌/◌, ◌%◌, ◌^◌, Bool, true, false, not, ◌&&◌, ◌||◌, List, [], ◌∷◌,
  Option, none, some, ltb, leb, ◌==◌, if◌then◌else◌, set, get_or, add32, sub32, u32_mod,
}
use cofeuos.Net.{Bytes, put, rd16, rd32}

abbrev pub tcp_mss : ℕ
tcp_mss = 1460

abbrev pub tcp_rx_ring : ℕ
tcp_rx_ring = 8192

abbrev pub tcp_txq : ℕ
tcp_txq = 8

abbrev pub tcp_rto_min : ℕ
tcp_rto_min = 200

abbrev pub tcp_rto_max : ℕ
tcp_rto_max = 3000

pub record OooSlice : Type 0 where
  pub used : Bool
  pub seq : ℕ
  pub len : ℕ
  pub bytes : Bytes

pub record TxSlot : Type 0 where
  pub pend : Bool
  pub sacked : Bool
  pub seq : ℕ
  pub len : ℕ
  pub sent_at : ℕ

-- The fields of `Tcb` that these operations use.
pub record Tcb : Type 0 where
  pub rcv_nxt : ℕ
  pub mss : ℕ
  pub rto : ℕ
  pub srtt : ℕ
  pub rttvar : ℕ
  pub cwnd : ℕ
  pub ssthresh : ℕ
  pub ws_peer : ℕ
  pub ts_ok : Bool
  pub ts_recent : ℕ
  pub ts_echo : ℕ
  pub tx_tail : ℕ
  pub txb : List TxSlot
  pub win_update : Bool
  pub rlen : ℕ
  pub rxr_w : ℕ
  pub rxr_fill : ℕ
  pub rxr : Bytes
  pub ooo : List OooSlice

abbrev pub mss_of : Tcb → ℕ
mss_of t = if t.mss == 0 then tcp_mss else t.mss

abbrev pub at_least : ℕ → ℕ → ℕ
at_least a b = if ltb b a then a else b

unfoldable pub rto_backoff : Tcb → Tcb
rto_backoff t =
    let mss = mss_of t in
    record t { ssthresh = at_least (t.cwnd / 2) (2 * mss % u32_mod); cwnd = mss }

abbrev pub no_slot : TxSlot
no_slot = record { pend = false; sacked = false; seq = 0; len = 0; sent_at = 0 }

abbrev pub first_or : Option ℕ → ℕ → Option ℕ
first_or none j = some j
first_or (some i) j = some i

-- The loop of `ts_pick` from round `i` on; none is -1.
unfoldable pub pick_slot : ℕ → ℕ → Tcb → Option ℕ → Option ℕ
pick_slot zero i t fallback = fallback
pick_slot (suc k) i t fallback =
    let j = (t.tx_tail + i) % tcp_txq in
    let sl = get_or t.txb j no_slot in
    let passed = pick_slot k (i + 1) t fallback in
    let kept = pick_slot k (i + 1) t (first_or fallback j) in
    if not sl.pend then passed else if sl.sacked then kept else some j

unfoldable pub ts_pick : Tcb → Option ℕ
ts_pick t = pick_slot tcp_txq 0 t none

-- The smoothed round trip and its deviation.
unfoldable pub smooth : Tcb → ℕ → Tcb
smooth t rtt =
    if t.srtt == 0
    then record t { srtt = rtt; rttvar = rtt / 2 }
    else let dv = if ltb rtt t.srtt then t.srtt - rtt else rtt - t.srtt in
      record t {
        rttvar = add32 (3 * t.rttvar % u32_mod) dv / 4;
        srtt = add32 (7 * t.srtt % u32_mod) rtt / 8;
      }

unfoldable pub rto_of : Tcb → ℕ
rto_of t =
    let v4 = t.rttvar * 4 % u32_mod in
    let rt = add32 t.srtt (if ltb v4 50 then 50 else v4) in
    let low = if ltb rt tcp_rto_min then tcp_rto_min else rt in
    if ltb tcp_rto_max low then tcp_rto_max else low

unfoldable pub rtt_apply_ms : Tcb → ℕ → Tcb
rtt_apply_ms t rtt_ms =
    let t1 = smooth t (if rtt_ms == 0 then 1 else rtt_ms) in record t1 { rto = rto_of t1 }

unfoldable pub rtt_update : Tcb → ℕ → Tcb
rtt_update t now =
    let sl = get_or t.txb t.tx_tail no_slot in
    if sl.pend then rtt_apply_ms t ((now + 2 ^ 64 - sl.sent_at) % 2 ^ 64 * 10 % u32_mod) else t

-- `ack_slots`, with fuel: each round clears a slot that waits, so the number of slots and one
-- more are enough.
unfoldable pub ack_loop : ℕ → Tcb → ℕ → Tcb
ack_loop zero t ack = t
ack_loop (suc k) t ack =
    let sl = get_or t.txb t.tx_tail no_slot in
    let rest =
      ack_loop k
        (record t {
          txb = set t.txb t.tx_tail (record sl { pend = false });
          tx_tail = (t.tx_tail + 1) % tcp_txq;
        })
        ack in
    if sl.pend && leb (add32 sl.seq sl.len) ack then rest else t

unfoldable pub ack_slots : Tcb → ℕ → Tcb
ack_slots t ack = ack_loop (tcp_txq + 1) t ack

unfoldable pub cwnd_ack : Tcb → Tcb
cwnd_ack t =
    let mss = mss_of t in
    if ltb t.cwnd t.ssthresh then record t { cwnd = add32 t.cwnd mss } else record t {
      cwnd = add32 t.cwnd (mss * mss % u32_mod / (if t.cwnd == 0 then mss else t.cwnd));
    }

-- An option of kind `kind` and length `olen` at place `o`.
abbrev pub shift_of : ℕ → ℕ
shift_of s = if ltb 14 s then 0 else s

unfoldable pub apply_option : Tcb → Bytes → ℕ → ℕ → ℕ → Tcb
apply_option t tt o kind olen =
    if kind == 2 && olen == 4
    then record t { mss = rd16 tt (o + 2) }
    else if kind == 3 && olen == 3
    then record t { ws_peer = shift_of (tt (o + 2)) }
    else if kind == 8 && olen == 10
    then record t { ts_ok = true; ts_recent = rd32 tt (o + 2); ts_echo = rd32 tt (o + 6) }
    else t

-- The loop of `tcp_opts_parse` from place `o` on, with fuel.
unfoldable pub opts_loop : ℕ → Tcb → Bytes → ℕ → ℕ → Tcb
opts_loop zero t tt offhdr o = t
opts_loop (suc k) t tt offhdr o =
    let kind = tt o in
    let olen = tt (o + 1) in
    let padded = opts_loop k t tt offhdr (o + 1) in
    let rest = opts_loop k (apply_option t tt o kind olen) tt offhdr (o + olen) in
    if ltb offhdr (o + 2)
    then t
    else if kind == 0
    then t
    else if kind == 1
    then padded
    else if ltb olen 2 || ltb offhdr (o + olen)
    then t
    else rest

unfoldable pub tcp_opts_parse : Tcb → Bytes → ℕ → Tcb
tcp_opts_parse t tt offhdr = opts_loop (offhdr + 1) t tt offhdr 20

-- The loop of `rxr_push`: `n` bytes of `p` from place `i` on go to place `w` of the ring.
unfoldable pub ring_copy : ℕ → Bytes → ℕ → Bytes → ℕ → Bytes × ℕ
ring_copy zero rxr w p i = (rxr, w)
ring_copy (suc n) rxr w p i = ring_copy n (put rxr w (p i)) ((w + 1) % tcp_rx_ring) p (i + 1)

abbrev pub stored_of : Tcb → ℕ → ℕ
stored_of t n = if ltb (sub32 tcp_rx_ring t.rxr_fill) n then sub32 tcp_rx_ring t.rxr_fill else n

unfoldable pub rxr_push : Tcb → Bytes → ℕ → Tcb × ℕ
rxr_push t p n =
    let m = stored_of t n in
    let (rxr, w) = ring_copy m t.rxr t.rxr_w p 0 in
    (record t { rxr = rxr; rxr_w = w; rxr_fill = add32 t.rxr_fill m; rlen = add32 t.rlen m }, m)

-- The two loops of `ooo_store`.
unfoldable pub has_slice : List OooSlice → ℕ → ℕ → Bool
has_slice [] seq len = false
has_slice (s ∷ ss) seq len = (s.used && s.seq == seq) && s.len == len || has_slice ss seq len

unfoldable pub store_slice : List OooSlice → ℕ → Bytes → ℕ → Option (List OooSlice)
store_slice [] seq d len = none
store_slice (s ∷ ss) seq d len =
    let rest : Option (List OooSlice) = elim (store_slice ss seq d len) [
      | none ↦ none
      | some ss' ↦ some (s ∷ ss')
    ] in
    if s.used then rest else some (record { used = true; seq = seq; len = len; bytes = d } ∷ ss)

abbrev pub stored_or : Tcb → Option (List OooSlice) → Tcb × Bool
stored_or t none = (t, false)
stored_or t (some ss) = (record t { ooo = ss }, true)

unfoldable pub ooo_store : Tcb → ℕ → Bytes → ℕ → Tcb × Bool
ooo_store t seq d len =
    if has_slice t.ooo seq len then (t, true) else stored_or t (store_slice t.ooo seq d len)

-- The slice that continues the stream, and the slices without it.
unfoldable pub next_slice : List OooSlice → ℕ → ℕ → Option (ℕ × OooSlice)
next_slice [] i nxt = none
next_slice (s ∷ ss) i nxt =
    let rest = next_slice ss (i + 1) nxt in if s.used && s.seq == nxt then some (i, s) else rest

-- What is left of a slice of which `n` bytes are stored.
abbrev pub shortened : OooSlice → ℕ → ℕ → OooSlice
shortened s n seq =
    if n == 0
    then s
    else record s { bytes = λ i. s.bytes (i + n); len = (s.len - n) % 2 ^ 16; seq = seq }

-- The loop of `ooo_drain`, with fuel; the acknowledgement that follows is sent elsewhere.
unfoldable pub drain_loop : ℕ → Tcb → Tcb
drain_loop zero t = t
drain_loop (suc k) t = elim (next_slice t.ooo 0 t.rcv_nxt) [
  | none ↦ t
  | some (i, s) ↦
      let (t1, n) = rxr_push t s.bytes s.len in
      let nxt = add32 t1.rcv_nxt n in
      let cut = record t1 {
        rcv_nxt = nxt;
        ooo = set t1.ooo i (shortened s n nxt);
        win_update = true;
      } in
      let done = record t1 { rcv_nxt = nxt; ooo = set t1.ooo i (record s { used = false }) } in
      let rest = drain_loop k done in if ltb n s.len then cut else if n == 0 then done else rest
]

-- `ooo_drain` up to the acknowledgement: a round empties one of the four slices.
unfoldable pub ooo_drain : Tcb → Tcb
ooo_drain t = drain_loop 5 t
