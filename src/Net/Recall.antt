-- ===== src/Net/Recall.antt =====
-- The cache of the name service of kernel/net.cpp: what is stored is found again.
use cofeuos.Base.{
  ℕ, zero, suc, ◌+◌, ◌-◌, ◌*◌, ◌%◌, ◌^◌, ◌≤◌, ◌||◌, ◌<◌, ◌≡◌, ◌≢◌, refl, ap, subst, sym, Bool, true,
  false, not, ◌&&◌, List, [], ◌∷◌, Option, none, some, ltb, leb, set, take, length, arith,
  Bool-cases, inl, inr,
}
use cofeuos.Fs.{same_text}
use cofeuos.Net.Cache.{
  CacheEntry, NameCache, cache_find, free_slot, oldest_slot, or_oldest, set_entry, dns_cache_lookup,
  dns_cache_store,
}

abbrev is_live : CacheEntry → List ℕ → ℕ → Bool
is_live e name now = e.valid && (ltb now e.until && same_text e.name name)

-- No entry with the name is valid.
unfoldable misses : List CacheEntry → List ℕ → ℕ → Bool
misses [] name now = true
misses (e ∷ es) name now = not (is_live e name now) && misses es name now

find-misses :
    (es : List CacheEntry) (name : List ℕ) (now : ℕ)
    → (cache_find es name now).1 ≡ none
    → misses es name now ≡ true
unfolding cache_find misses
find-misses [] name now h = refl
find-misses (e ∷ es) name now h = ground (arith, find-misses es name now)

find-set :
    (es : List CacheEntry) (i : ℕ) (e' : CacheEntry) (name : List ℕ) (now t : ℕ)
    → misses es name now ≡ true
    → now ≤ t
    → i < length es
    → is_live e' name t ≡ true
    → (cache_find (set es i e') name t).1 ≡ some e'.ip
unfolding cache_find misses
find-set [] i e' name now t m n h l = elim h [ ]
find-set (e ∷ es) zero e' name now t m n h l = ground arith
find-set (e ∷ es) (suc i) e' name now t m n h l =
    let rest : (cache_find (set es i e') name t).1 ≡ some e'.ip =
      find-set es i e' name now t (ground arith) n (omega arith) l in
    ground (arith, rest)

same_text_refl : (name : List ℕ) → same_text name name ≡ true
unfolding same_text
same_text_refl [] = refl
same_text_refl (c ∷ name) = ground (arith, same_text_refl name)

take_all : (n : ℕ) (name : List ℕ) → length name ≤ n → take n name ≡ name
take_all zero [] h = refl
take_all zero (c ∷ name) h = elim h [ ]
take_all (suc n) [] h = refl
take_all (suc n) (c ∷ name) h = ap (λ x. c ∷ x) (take_all n name (omega arith))

-- All entries run out before the last time that a tick count can show.
unfoldable pub AllEarly : List CacheEntry → Type 0
AllEarly [] = Unit {0}
AllEarly (e ∷ es) = (e.until < 2 ^ 64 - 1) × AllEarly es

-- Entry number `i` is free or has run out.
unfoldable vacant : List CacheEntry → ℕ → ℕ → Bool
vacant [] now i = false
vacant (e ∷ es) now zero = not e.valid || leb e.until now
vacant (e ∷ es) now (suc i) = vacant es now i

vacant_inside : (es : List CacheEntry) (now i : ℕ) → vacant es now i ≡ true → i < length es
unfolding vacant
vacant_inside [] now i h = ground arith
vacant_inside (e ∷ es) now zero h = omega arith
vacant_inside (e ∷ es) now (suc i) h = omega (arith, vacant_inside es now i h)

abbrev Within : Option ℕ → ℕ → Type 0
Within none n = Unit {0}
Within (some i) n = i < n

abbrev Spot : List CacheEntry → ℕ → ℕ → Option ℕ → Type 0
Spot es now j none = Unit {0}
Spot es now j (some p) = (j ≤ p) × (vacant es now (p - j) ≡ true)

Spot-later :
    (e : CacheEntry) (es : List CacheEntry) (now j : ℕ) (o : Option ℕ)
    → Spot es now (j + 1) o
    → Spot (e ∷ es) now j o
unfolding vacant
Spot-later e es now j none h = tt
Spot-later e es now j (some p) (l, h) =
    let step : p - j ≡ suc (p - (j + 1)) = omega arith in (omega arith, rw step h)

free_slot-Spot : (es : List CacheEntry) (now j : ℕ) → Spot es now j (free_slot es now j)
unfolding free_slot vacant
free_slot-Spot [] now j = tt
free_slot-Spot (e ∷ es) now j = elim (Bool-cases (not e.valid || leb e.until now)) [
  | inl h ↦
      let here : free_slot (e ∷ es) now j ≡ some j = ground arith in
      let first : Spot (e ∷ es) now j (some j) =
        let none_before : j - j ≡ 0 = omega arith in (omega arith, rw none_before h) in
      subst (Spot (e ∷ es) now j) (sym here) first
  | inr h ↦
      let after : free_slot (e ∷ es) now j ≡ free_slot es now (j + 1) = ground arith in
      subst (Spot (e ∷ es) now j) (sym after)
        (Spot-later e es now j _ (free_slot-Spot es now (j + 1)))
]

oldest_slot-Within :
    (es : List CacheEntry) (oldest i : ℕ) (slot : Option ℕ)
    → Within slot (i + length es)
    → Within (oldest_slot es oldest i slot) (i + length es)
unfolding oldest_slot
oldest_slot-Within [] oldest i slot h = h
oldest_slot-Within (e ∷ es) oldest i slot h = elim (Bool-cases (ltb e.until oldest)) [
  | inl older ↦ rw older (
      subst (λ n. Within (oldest_slot es e.until (i + 1) (some i)) n) (omega arith)
        (oldest_slot-Within es e.until (i + 1) (some i) (omega arith)))
  | inr younger ↦ rw younger (
      subst (λ n. Within (oldest_slot es oldest (i + 1) slot) n) (omega arith)
        (oldest_slot-Within es oldest (i + 1) slot (subst (λ n. Within slot n) (omega arith) h)))
]

abbrev is_some : Option ℕ → Bool
is_some none = false
is_some (some i) = true

oldest_slot_keeps :
    (es : List CacheEntry) (oldest i : ℕ) (slot : Option ℕ)
    → is_some slot ≡ true
    → is_some (oldest_slot es oldest i slot) ≡ true
unfolding oldest_slot
oldest_slot_keeps [] oldest i slot h = h
oldest_slot_keeps (e ∷ es) oldest i slot h = ground (
  arith,
  oldest_slot_keeps es e.until (i + 1) (some i) refl,
  oldest_slot_keeps es oldest (i + 1) slot h,
)

oldest_slot_some :
    (es : List CacheEntry) (i : ℕ)
    → AllEarly es
    → 0 < length es
    → is_some (oldest_slot es (2 ^ 64 - 1) i none) ≡ true
unfolding oldest_slot AllEarly
oldest_slot_some [] i early h = elim h [ ]
oldest_slot_some (e ∷ es) i early h =
    ground (arith, oldest_slot_keeps es e.until (i + 1) (some i) refl)

-- A write into a vacant entry hides no other name.
find-set-vacant :
    (es : List CacheEntry) (i : ℕ) (e' : CacheEntry) (x : List ℕ) (now t : ℕ)
    → vacant es now i ≡ true
    → now ≤ t
    → same_text e'.name x ≡ false
    → (cache_find (set es i e') x t).1 ≡ (cache_find es x t).1
unfolding cache_find vacant
find-set-vacant [] i e' x now t f n h = refl
find-set-vacant (e ∷ es) zero e' x now t f n h = ground arith
find-set-vacant (e ∷ es) (suc i) e' x now t f n h =
    let rest = find-set-vacant es i e' x now t f n h in ground (arith, rest)

Spot-vacant : (es : List CacheEntry) (now p : ℕ) → Spot es now 0 (some p) → vacant es now p ≡ true
Spot-vacant es now p (l, h) =
    let first : p - 0 ≡ p = omega arith in subst (λ q. vacant es now q ≡ true) first h

abbrev IsInside : Option ℕ → ℕ → Type 0
IsInside o n = (is_some o ≡ true) × Within o n

or_oldest-IsInside :
    (es : List CacheEntry) (now : ℕ) (o : Option ℕ)
    → AllEarly es
    → 0 < length es
    → Spot es now 0 o
    → IsInside (or_oldest o es) (length es)
or_oldest-IsInside es now none early h spot = (
  oldest_slot_some es 0 early h,
  subst (Within (oldest_slot es (2 ^ 64 - 1) 0 none)) (omega arith)
      (oldest_slot-Within es (2 ^ 64 - 1) 0 none tt),
)
or_oldest-IsInside es now (some p) early h spot =
    (refl, vacant_inside es now p (Spot-vacant es now p spot))

-- What a cache finds for a name, where there is a cache.
abbrev pub recalled : Option NameCache → List ℕ → ℕ → Option ℕ
recalled none name t = none
recalled (some c) name t = (dns_cache_lookup c name t).1

set_entry_lem :
    (c : NameCache) (o : Option ℕ) (e : CacheEntry) (now t : ℕ)
    → misses c.dns_cache e.name now ≡ true
    → IsInside o (length c.dns_cache)
    → now ≤ t
    → is_live e e.name t ≡ true
    → recalled (set_entry c o e) e.name t ≡ some e.ip
unfolding dns_cache_lookup
set_entry_lem c none e now t m (s, w) n l = ground (arith, s)
set_entry_lem c (some i) e now t m (s, w) n l = find-set c.dns_cache i e e.name now t m n w l

-- `dns_cache_store` of a name of at most 63 characters that the cache does not know makes it known
-- with its address until its time is over, however full the cache is, where no entry lasts to the
-- last time that there is.
pub dns_cache_store_lem :
    (c : NameCache) (name : List ℕ) (ip ttl now t : ℕ)
    → (dns_cache_lookup c name now).1 ≡ none
    → AllEarly c.dns_cache
    → 0 < length c.dns_cache
    → length name ≤ 63
    → now + ttl * 100 < 2 ^ 64
    → now ≤ t
    → t < now + ttl * 100
    → recalled (dns_cache_store c name ip ttl now) name t ≡ some ip
unfolding dns_cache_lookup dns_cache_store
dns_cache_store_lem c name ip ttl now t unknown early some_entry short room n before =
    let e : CacheEntry = record { valid = true; name = name; ip = ip; until = now + ttl * 100 } in
    let same = same_text_refl name in
    let no_wrap : (now + ttl * 100) % 2 ^ 64 ≡ now + ttl * 100 = omega arith in
    rw (take_all 63 name short, no_wrap)
      (set_entry_lem c _ e now t (find-misses c.dns_cache name now unknown)
        (or_oldest-IsInside c.dns_cache now _ early some_entry (free_slot-Spot c.dns_cache now 0)) n
        (ground arith))

set_entry_keeps :
    (c : NameCache) (o : Option ℕ) (e : CacheEntry) (x : List ℕ) (now t : ℕ)
    → o ≢ none
    → Spot c.dns_cache now 0 o
    → now ≤ t
    → same_text e.name x ≡ false
    → recalled (set_entry c (or_oldest o c.dns_cache) e) x t ≡ (dns_cache_lookup c x t).1
unfolding dns_cache_lookup
set_entry_keeps c none e x now t room spot n other = elim (room refl) [ ]
set_entry_keeps c (some i) e x now t room spot n other =
    find-set-vacant c.dns_cache i e x now t (Spot-vacant c.dns_cache now i spot) n other

-- With a free entry or one that has run out, `dns_cache_store` leaves what the cache finds for
-- every name but the one that is stored.
pub dns_cache_store_keeps :
    (c : NameCache) (name x : List ℕ) (ip ttl now t : ℕ)
    → free_slot c.dns_cache now 0 ≢ none
    → length name ≤ 63
    → same_text name x ≡ false
    → now ≤ t
    → recalled (dns_cache_store c name ip ttl now) x t ≡ (dns_cache_lookup c x t).1
unfolding dns_cache_lookup dns_cache_store
dns_cache_store_keeps c name x ip ttl now t room short other n =
    set_entry_keeps c _ _ x now t room (free_slot-Spot c.dns_cache now 0) n
      (rw (take_all 63 name short) other)
