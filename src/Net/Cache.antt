-- ===== src/Net/Cache.antt =====
-- kernel/net.cpp: the cache of the name service, with its 16 entries. A text is the list of its
-- characters before the 0.
use cofeuos.Base.{
  ℕ, ◌+◌, ◌*◌, ◌%◌, ◌^◌, Bool, true, false, not, List, [], ◌∷◌, Option, none, some, ltb, leb,
  if◌then◌else◌, set, take, add32, ◌-◌,
}
use cofeuos.Fs.{same_text}

pub record CacheEntry : Type 0 where
  pub valid : Bool
  pub name : List ℕ
  pub ip : ℕ
  pub until : ℕ

pub record NameCache : Type 0 where
  pub dns_cache : List CacheEntry
  pub dns_cache_hits : ℕ

-- The loop of `dns_cache_lookup`: the entries afterwards, and the address that is found.
unfoldable pub cache_find : List CacheEntry → List ℕ → ℕ → List CacheEntry × Option ℕ
cache_find [] name now = ([], none)
cache_find (e ∷ es) name now =
    let (es', r) = cache_find es name now in
    if not e.valid
    then (e ∷ es', r)
    else if leb e.until now
    then (record e { valid = false } ∷ es', r)
    else if same_text e.name name
    then (e ∷ es, some e.ip)
    else (e ∷ es', r)

abbrev pub count_hit : Option ℕ → ℕ → ℕ
count_hit none n = n
count_hit (some ip) n = add32 n 1

unfoldable pub dns_cache_lookup : NameCache → List ℕ → ℕ → NameCache × Option ℕ
dns_cache_lookup c name now =
    let (es, r) = cache_find c.dns_cache name now in
    (record { dns_cache = es; dns_cache_hits = count_hit r c.dns_cache_hits }, r)

-- The first entry from number `i` on that is free or has run out.
unfoldable pub free_slot : List CacheEntry → ℕ → ℕ → Option ℕ
free_slot [] now i = none
free_slot (e ∷ es) now i =
    let rest = free_slot es now (i + 1) in
    if not e.valid then some i else if leb e.until now then some i else rest

-- The entry from number `i` on that runs out first, where one runs out before `oldest`.
unfoldable pub oldest_slot : List CacheEntry → ℕ → ℕ → Option ℕ → Option ℕ
oldest_slot [] oldest i slot = slot
oldest_slot (e ∷ es) oldest i slot =
    let older = oldest_slot es e.until (i + 1) (some i) in
    let rest = oldest_slot es oldest (i + 1) slot in if ltb e.until oldest then older else rest

abbrev pub or_oldest : Option ℕ → List CacheEntry → Option ℕ
or_oldest (some i) es = some i
or_oldest none es = oldest_slot es (2 ^ 64 - 1) 0 none

abbrev pub set_entry : NameCache → Option ℕ → CacheEntry → Option NameCache
set_entry c none e = none
set_entry c (some i) e = some (record c { dns_cache = set c.dns_cache i e })

-- `dns_cache_store`; none is the entry with the number -1, outside the array.
unfoldable pub dns_cache_store : NameCache → List ℕ → ℕ → ℕ → ℕ → Option NameCache
dns_cache_store c name ip ttl now =
    set_entry c (or_oldest (free_slot c.dns_cache now 0) c.dns_cache)
      record { valid = true; name = take 63 name; ip = ip; until = (now + ttl * 100) % 2 ^ 64 }
