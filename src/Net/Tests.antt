-- ===== src/Net/Tests.antt =====
-- The theorems on kernel/net.cpp at concrete inputs.
use cofeuos.Base.{
  ℕ, ◌+◌, ◌-◌, ◌*◌, ◌<◌, ◌≤◌, ◌≡◌, ◌≢◌, refl, List, [], ◌∷◌, none, some, true, false, not, ◌&&◌,
  ◌||◌, ◌==◌, ltb, if◌then◌else◌, arith, min, replicate,
}
use cofeuos.Net.{Bytes, wr16, ip_checksum, ArpEntry, arp_learn}
use cofeuos.Net.Checksum.{ip_checksum_lem}
use cofeuos.Net.Neighbours.{mac_of, knows, has_free, arp_learn_lem}
use cofeuos.Net.Dns.{read_loop, dns_read_name}
use cofeuos.Net.Names.{FitsIn, dns_read_name_lem}
use cofeuos.Fs.{same_text}
use cofeuos.Net.Cache.{NameCache, cache_find, free_slot, dns_cache_lookup, dns_cache_store}
use cofeuos.Net.Recall.{AllEarly, recalled, dns_cache_store_lem, dns_cache_store_keeps}
use cofeuos.Net.Tcp.{Tcb, no_slot, rxr_push, rtt_apply_ms}
use cofeuos.Net.Sack.{sack_apply, sack_loop, mark_blocks, mark_slots}
use cofeuos.Net.Stream.{IsRing, waiting, rxr_push_lem, rtt_apply_ms_lem}

-- A header of 20 bytes, all 69 but for the two of its checksum.
abbrev header : Bytes
header x = if x == 10 || x == 11 then 0 else 69

header_at : (x : ℕ) → header x < 256
header_at x = ground arith

ip_checksum_lem_example : ip_checksum (wr16 header (2 * 5) (ip_checksum header 20)) 20 ≡ 0
ip_checksum_lem_example =
    ip_checksum_lem header 20 5 header_at (omega arith) (omega arith) refl refl

-- One neighbour, and a free entry.
abbrev cache : List ArpEntry
cache =
    record { ip = 5; mac = 1 ∷ []; valid = true; at = 0 }
    ∷ record { ip = 0; mac = []; valid = false; at = 0 }
    ∷ []

arp_learn_lem_example : mac_of (arp_learn cache 7 (2 ∷ []) 9) 7 ≡ (
    if not (7 == 0xffffffff) && (7 == 7 && (knows cache 7 || has_free cache))
    then some (2 ∷ [])
    else mac_of cache 7)
arp_learn_lem_example = arp_learn_lem cache 7 (2 ∷ []) 9 7

-- A name that points at itself.
abbrev looping : Bytes
looping x = if x == 0 then 192 else 0

dns_read_name_lem_example :
    (read_loop 90 looping 50 64 [] 0 none 0 ≡ some (dns_read_name looping 0 50 64))
    × FitsIn looping 50 64 (dns_read_name looping 0 50 64)
dns_read_name_lem_example = dns_read_name_lem looping 50 64 0 13 (omega arith)

-- A connection whose ring has 8190 bytes and ends at place 3.
abbrev conn : Tcb
conn = record {
  rcv_nxt = 0;
  mss = 1460;
  rto = 500;
  srtt = 0;
  rttvar = 0;
  cwnd = 1460;
  ssthresh = 2920;
  ws_peer = 0;
  ts_ok = false;
  ts_recent = 0;
  ts_echo = 0;
  tx_tail = 0;
  txb = replicate 8 no_slot;
  win_update = false;
  rlen = 8190;
  rxr_w = 3;
  rxr_fill = 8190;
  rxr = λ x. 7;
  ooo = [];
}

rxr_push_lem_example :
    let r = rxr_push conn (λ x. x + 1) 5 in
    IsRing r.0
    × (r.1 ≡ min 5 (8192 - 8190))
    × (r.0.rxr_fill ≡ 8190 + r.1)
    × ((k : ℕ)
        → k < 8190 + r.1
        → waiting r.0 k ≡ (if ltb k 8190 then waiting conn k else k - 8190 + 1))
rxr_push_lem_example =
    rxr_push_lem conn (λ x. x + 1) 5 record { place = omega arith; fill = omega arith }

rtt_apply_ms_lem_example : (200 ≤ (rtt_apply_ms conn 40).rto) × ((rtt_apply_ms conn 40).rto ≤ 3000)
rtt_apply_ms_lem_example = rtt_apply_ms_lem conn 40

-- Two entries, of which the first has run out at 100.
abbrev names : NameCache
names = record {
  dns_cache =
      record { valid = true; name = 97 ∷ []; ip = 1; until = 100 }
      ∷ record { valid = true; name = 98 ∷ []; ip = 2; until = 900 }
      ∷ [];
  dns_cache_hits = 0;
}

unknown_name : (dns_cache_lookup names (99 ∷ []) 100).1 ≡ none
unfolding dns_cache_lookup cache_find same_text
unknown_name = refl

lasting : AllEarly names.dns_cache
unfolding AllEarly
lasting = (omega arith, (omega arith, tt))

first_free : free_slot names.dns_cache 100 0 ≢ none
unfolding free_slot
first_free h = ground arith

different : same_text (99 ∷ []) (98 ∷ []) ≡ false
unfolding same_text
different = refl

dns_cache_store_lem_example :
    recalled (dns_cache_store names (99 ∷ []) 3 5 100) (99 ∷ []) 599 ≡ some 3
dns_cache_store_lem_example =
    dns_cache_store_lem names (99 ∷ []) 3 5 100 599 unknown_name lasting (omega arith) (omega arith)
      (omega arith) (omega arith) (omega arith)

dns_cache_store_keeps_example :
    recalled (dns_cache_store names (99 ∷ []) 3 5 100) (98 ∷ []) 599
    ≡ (dns_cache_lookup names (98 ∷ []) 599).1
dns_cache_store_keeps_example =
    dns_cache_store_keeps names (99 ∷ []) (98 ∷ []) 3 5 100 599 first_free (omega arith) different
      (omega arith)

-- An option with the one block from 10 to 20, at the end of the header.
abbrev options : Bytes
options x =
    if x == 20 then 5 else if x == 21 then 10 else if x == 25 then 10 else if x == 29 then 20 else 0

abbrev two_sent : Tcb
two_sent = record conn {
  txb =
      record { pend = true; sacked = false; seq = 5; len = 5; sent_at = 0 }
      ∷ record { pend = true; sacked = false; seq = 10; len = 5; sent_at = 0 }
      ∷ [];
}

second_marked :
    sack_apply two_sent options 30
    ≡ some (record two_sent {
      txb =
          record { pend = true; sacked = false; seq = 5; len = 5; sent_at = 0 }
          ∷ record { pend = true; sacked = true; seq = 10; len = 5; sent_at = 0 }
          ∷ [];
    })
unfolding sack_apply sack_loop mark_blocks mark_slots
second_marked = refl
