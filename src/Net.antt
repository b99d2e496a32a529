-- ===== src/Net.antt =====
-- kernel/net.cpp: numbers in network order, checksums, and the addresses of neighbours.
pub mod Checksum
pub mod Neighbours
pub mod Dns
pub mod Names
pub mod Cache
pub mod Recall
pub mod Sack
pub mod Marks
pub mod Reports
pub mod Tcp
pub mod Stream
mod Tests
use cofeuos.Base.{
  ℕ, zero, suc, ◌+◌, ◌-◌, ◌*◌, ◌/◌, ◌%◌, ◌^◌, Bool, true, false, not, ◌&&◌, List, [], ◌∷◌, Option,
  none, some, ltb, leb, ◌==◌, if◌then◌else◌, replicate, add32, sub64,
}

abbrev pub Bytes : Type 0
Bytes = ℕ → ℕ

abbrev pub rd16 : Bytes → ℕ → ℕ
rd16 d p = d p * 256 + d (p + 1)

abbrev pub rd32 : Bytes → ℕ → ℕ
rd32 d p = d p * 16777216 + d (p + 1) * 65536 + d (p + 2) * 256 + d (p + 3)

abbrev pub put : Bytes → ℕ → ℕ → Bytes
put d p b x = if x == p then b else d x

abbrev pub wr16 : Bytes → ℕ → ℕ → Bytes
wr16 d p v = put (put d p (v / 256 % 256)) (p + 1) (v % 256)

abbrev pub wr32 : Bytes → ℕ → ℕ → Bytes
wr32 d p v =
    put (put (put (put d p (v / 16777216 % 256)) (p + 1) (v / 65536 % 256)) (p + 2) (v / 256 % 256))
      (p + 3) (v % 256)

-- The two loops over the bytes of a packet that add up its words, the rest of `n` from place `i`.
unfoldable pub add_words : ℕ → Bytes → ℕ → ℕ → ℕ
add_words zero d i sum = sum
add_words (suc zero) d i sum = add32 sum (d i * 256)
add_words (suc (suc n)) d i sum = add_words n d (i + 2) (add32 sum (d i * 256 + d (i + 1)))

-- `while (sum >> 16)`: three rounds are enough for 32 bits.
unfoldable pub fold_sum : ℕ → ℕ → ℕ
fold_sum zero sum = sum
fold_sum (suc k) sum =
    let rest = fold_sum k (sum % 65536 + sum / 65536) in if sum / 65536 == 0 then sum else rest

unfoldable pub ip_checksum : Bytes → ℕ → ℕ
ip_checksum d len = 65535 - fold_sum 3 (add_words len d 0 0)

-- The sum that `tcp_checksum` begins with.
abbrev pub pseudo_sum : ℕ → ℕ → ℕ → ℕ
pseudo_sum saddr daddr tlen =
    add32 (add32 (add32 (saddr / 65536 + saddr % 65536) (daddr / 65536 + daddr % 65536)) 6) tlen

unfoldable pub tcp_checksum : ℕ → ℕ → Bytes → ℕ → ℕ
tcp_checksum saddr daddr d tlen =
    65535 - fold_sum 3 (add_words tlen d 0 (pseudo_sum saddr daddr tlen))

-- The cache of neighbours' addresses.
pub record ArpEntry : Type 0 where
  pub ip : ℕ
  pub mac : List ℕ
  pub valid : Bool
  pub at : ℕ

abbrev pub arp_age : ℕ
arp_age = 600

-- The two loops of `arp_learn`.
abbrev pub known : ℕ → ArpEntry → Bool
known ip e = e.valid && e.ip == ip

unfoldable pub refresh : List ArpEntry → ℕ → List ℕ → ℕ → Option (List ArpEntry)
refresh [] ip mac now = none
refresh (e ∷ es) ip mac now =
    let rest : Option (List ArpEntry) = elim (refresh es ip mac now) [
      | none ↦ none
      | some es' ↦ some (e ∷ es')
    ] in
    if known ip e then some (record e { mac = mac; at = now } ∷ es) else rest

unfoldable pub insert_free : List ArpEntry → ℕ → List ℕ → ℕ → List ArpEntry
insert_free [] ip mac now = []
insert_free (e ∷ es) ip mac now =
    let rest = insert_free es ip mac now in
    if e.valid then e ∷ rest else record { ip = ip; mac = mac; valid = true; at = now } ∷ es

abbrev pub or_insert : List ArpEntry → ℕ → List ℕ → ℕ → Option (List ArpEntry) → List ArpEntry
or_insert cache ip mac now (some es) = es
or_insert cache ip mac now none = insert_free cache ip mac now

unfoldable pub arp_learn : List ArpEntry → ℕ → List ℕ → ℕ → List ArpEntry
arp_learn cache ip mac now =
    if ip == 0xffffffff then cache else or_insert cache ip mac now (refresh cache ip mac now)

abbrev pub aged : ℕ → ArpEntry → ArpEntry
aged now e = if e.valid && leb arp_age (sub64 now e.at) then record e { valid = false } else e

unfoldable pub arp_aging_poll : List ArpEntry → ℕ → List ArpEntry
arp_aging_poll [] now = []
arp_aging_poll (e ∷ es) now = aged now e ∷ arp_aging_poll es now

-- The first loop of `arp_resolve`: the address, and the entry used again.
unfoldable pub arp_lookup : List ArpEntry → ℕ → ℕ → Option (List ℕ × List ArpEntry)
arp_lookup [] ip now = none
arp_lookup (e ∷ es) ip now =
    let rest : Option (List ℕ × List ArpEntry) = elim (arp_lookup es ip now) [
      | none ↦ none
      | some (mac, es') ↦ some (mac, e ∷ es')
    ] in
    if known ip e then some (e.mac, record e { at = now } ∷ es) else rest
