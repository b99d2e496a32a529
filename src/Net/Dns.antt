-- ===== src/Net/Dns.antt =====
-- kernel/net.cpp: names and answers of the name service, and its cache.
use cofeuos.Base.{
  ℕ, zero, suc, ◌+◌, ◌-◌, ◌*◌, ◌/◌, ◌%◌, ◌&&◌, ◌||◌, List, [], ◌∷◌, ◌++◌, Option, none, some, ltb,
  leb, ◌==◌, if◌then◌else◌, length,
}
use cofeuos.Net.{Bytes, rd16, rd32}

-- A name up to its first '.', and behind it.
unfoldable pub label_of : List ℕ → List ℕ × List ℕ
label_of [] = ([], [])
label_of (c ∷ p) = let (l, r) = label_of p in if c == 46 then ([], p) else (c ∷ l, r)

-- The loop of `dns_qname` with `n` bytes written, and fuel.
unfoldable pub qname_loop : ℕ → ℕ → List ℕ → List ℕ
qname_loop zero n name = 0 ∷ []
qname_loop (suc k) n [] = 0 ∷ []
qname_loop (suc k) n (c ∷ name) =
    let (l, r) = label_of (c ∷ name) in
    let fits = ltb 0 (length l) && leb (length l) 63 in
    let rest = qname_loop k (if fits then n + 1 + length l else n) r in
    if leb 250 n then 0 ∷ [] else if fits then length l ∷ (l ++ rest) else rest

unfoldable pub dns_qname : List ℕ → List ℕ
dns_qname name = qname_loop (length name + 1) 0 name

abbrev pub word16 : ℕ → List ℕ
word16 v = v / 256 % 256 ∷ v % 256 ∷ []

unfoldable pub dns_query : ℕ → List ℕ → List ℕ
dns_query qid name =
    word16 qid
    ++ word16 0x0100
    ++ word16 1
    ++ word16 0
    ++ word16 0
    ++ word16 0
    ++ dns_qname name
    ++ word16 1
    ++ word16 1

-- `dns_skip_name`, with fuel; none is the place -1.
unfoldable pub skip_loop : ℕ → Bytes → ℕ → ℕ → Option ℕ
skip_loop zero d pos limit = none
skip_loop (suc k) d pos limit =
    let rest = skip_loop k d (pos + 1 + d pos) limit in
    if leb limit pos
    then none
    else if leb 64 (d pos)
    then some (pos + 2)
    else if d pos == 0
    then some (pos + 1)
    else rest

unfoldable pub dns_skip_name : Bytes → ℕ → ℕ → Option ℕ
dns_skip_name d pos limit = skip_loop (limit + 1) d pos limit

-- `n` bytes from place `i` on.
unfoldable pub bytes_from : ℕ → Bytes → ℕ → List ℕ
bytes_from zero d i = []
bytes_from (suc n) d i = d i ∷ bytes_from n d (i + 1)

-- The loop of `dns_read_name` at `cur`, with fuel: the output so far, the jumps, and the place
-- behind the first jump; it gives the place behind the name and the name. The outer none is that
-- the fuel ran out, the inner one the place -1.
abbrev pub behind : Option ℕ → ℕ → ℕ
behind none p = p
behind (some a) p = a

unfoldable pub read_loop :
    ℕ → Bytes → ℕ → ℕ → List ℕ → ℕ → Option ℕ → ℕ → Option (Option (ℕ × List ℕ))
read_loop zero d limit cap out jumps after cur = none
read_loop (suc k) d limit cap out jumps after cur =
    let blen = d cur in
    let jump =
      read_loop k d limit cap out (jumps + 1) (some (behind after (cur + 2)))
        (blen % 64 * 256 + d (cur + 1)) in
    let label =
      read_loop k d limit cap (out ++ (bytes_from blen d (cur + 1) ++ (46 ∷ []))) jumps after
        (cur + 1 + blen) in
    if ltb limit (cur + 1)
    then some none
    else if leb 64 blen
    then (if leb 12 jumps || leb limit (cur + 1) then some none else jump)
    else if blen == 0
    then some (some (behind after (cur + 1), out))
    else if ltb limit (cur + 1 + blen)
    then some none
    else if leb (cap - 1) (length out + blen)
    then some none
    else label

abbrev pub name_read : Option (Option (ℕ × List ℕ)) → Option (ℕ × List ℕ)
name_read none = none
name_read (some r) = r

unfoldable pub dns_read_name : Bytes → ℕ → ℕ → ℕ → Option (ℕ × List ℕ)
dns_read_name d pos limit cap = name_read (read_loop (cap + 14) d limit cap [] 0 none pos)

-- An answer: none, an address with its time to live, or another name.
pub data Answer : Type 0 where
  nothing : Answer
  address : ℕ → ℕ → Answer
  alias : List ℕ → Answer

unfoldable pub skip_questions : ℕ → Bytes → ℕ → ℕ → Option ℕ
skip_questions zero d pos limit = some pos
skip_questions (suc n) d pos limit = elim (dns_skip_name d pos limit) [
  | none ↦ none
  | some p ↦ skip_questions n d (p + 4) limit
]

abbrev pub so_far : Option (List ℕ) → Answer
so_far none = nothing
so_far (some n) = alias n

abbrev pub name_or : Option (List ℕ) → Option (ℕ × List ℕ) → Option (List ℕ)
name_or (some n) r = some n
name_or none none = none
name_or none (some (a, n)) = some n

-- The records of an answer from place `pos` on.
unfoldable pub read_answers : ℕ → Bytes → ℕ → ℕ → ℕ → Option (List ℕ) → Answer
read_answers zero d limit cap pos found = so_far found
read_answers (suc n) d limit cap pos found = elim (dns_skip_name d pos limit) [
  | none ↦ so_far found
  | some p ↦
      let type = rd16 d p in
      let rdlen = rd16 d (p + 8) in
      let ttl = rd32 d (p + 4) in
      let here = p + 10 in
      let is_alias = type == 5 && leb (here + rdlen) limit && ltb 0 cap in
      let found' = if is_alias then name_or found (dns_read_name d here limit cap) else found in
      let rest = read_answers n d limit cap (here + rdlen) found' in
      if ltb limit here
      then so_far found
      else if type == 1 && rdlen == 4 && leb (here + 4) limit
      then address (rd32 d here) ttl
      else rest
]

abbrev pub answers_from : Bytes → ℕ → ℕ → Option ℕ → Answer
answers_from d len cap none = nothing
answers_from d len cap (some pos) = read_answers (rd16 d 6) d len cap pos none

unfoldable pub dns_parse_ans : Bytes → ℕ → ℕ → Answer
dns_parse_ans d len cap =
    let found = answers_from d len cap (skip_questions (rd16 d 4) d 12 len) in
    if ltb len 12 then nothing else if ltb (rd16 d 2) 32768 then nothing else found
