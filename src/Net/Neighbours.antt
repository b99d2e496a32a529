-- ===== src/Net/Neighbours.antt =====
-- The cache of neighbours of kernel/net.cpp as a map from addresses to addresses.
use cofeuos.Base.{
  ℕ, ◌≡◌, refl, ap, ◌∙◌, Bool, true, false, not, ◌&&◌, ◌||◌, List, [], ◌∷◌, Option, none, some,
  ◌==◌, if◌then◌else◌, arith, Bool-cases, inl, inr,
}
use cofeuos.Net.{ArpEntry, known, refresh, insert_free, or_insert, arp_learn}

-- The address that the cache has for `ip`.
unfoldable pub mac_of : List ArpEntry → ℕ → Option (List ℕ)
mac_of [] ip = none
mac_of (e ∷ es) ip = let rest = mac_of es ip in if known ip e then some e.mac else rest

unfoldable pub knows : List ArpEntry → ℕ → Bool
knows [] ip = false
knows (e ∷ es) ip = known ip e || knows es ip

unfoldable pub has_free : List ArpEntry → Bool
has_free [] = false
has_free (e ∷ es) = not e.valid || has_free es

abbrev pub Learned : List ArpEntry → ℕ → List ℕ → Option (List ArpEntry) → ℕ → Type 0
Learned cache ip mac none x = knows cache ip ≡ false
Learned cache ip mac (some es) x =
    (knows cache ip ≡ true) × (mac_of es x ≡ (if x == ip then some mac else mac_of cache x))

known_both : (e : ArpEntry) (x y : ℕ) → known x e ≡ true → known y e ≡ (y == x)
known_both e x y h = ground arith

-- The entry that is refreshed is the first.
refresh_here :
    (e : ArpEntry) (es : List ArpEntry) (ip : ℕ) (mac : List ℕ) (now x : ℕ)
    → known ip e ≡ true
    → mac_of (record e { mac = mac; at = now } ∷ es) x
      ≡ (if x == ip then some mac else mac_of (e ∷ es) x)
unfolding mac_of
refresh_here e es ip mac now x here =
    let same : known x e ≡ (x == ip) = known_both e ip x here in
    elim (Bool-cases (x == ip)) [
      | inl h ↦ let hit : known x e ≡ true = same ∙ h in rw (h, hit) refl
      | inr h ↦ let miss : known x e ≡ false = same ∙ h in rw (h, miss) refl
    ]

refresh_tail :
    (e : ArpEntry) (es : List ArpEntry) (ip : ℕ) (mac : List ℕ) (x : ℕ) (o : Option (List ArpEntry))
    → known ip e ≡ false
    → Learned es ip mac o x
    → Learned (e ∷ es) ip mac (elim o [ none ↦ none | some es' ↦ some (e ∷ es') ]) x
unfolding mac_of knows
refresh_tail e es ip mac x none other h = rw other h
refresh_tail e es ip mac x (some es') other (k, m) = (rw other k, step)
  where
    step : mac_of (e ∷ es') x ≡ (if x == ip then some mac else mac_of (e ∷ es) x)
    step = elim (Bool-cases (x == ip)) [
      | inl h ↦
          let same : x ≡ ip = ground arith in
          let miss : known x e ≡ false = ap (λ y. known y e) same ∙ other in
          rw (h, miss) (m ∙ rw h refl)
      | inr h ↦ elim (Bool-cases (known x e)) [
        | inl hit ↦ rw (h, hit) refl
        | inr miss ↦ rw (h, miss) (m ∙ rw h refl)
      ]
    ]

knows_here :
    (e : ArpEntry) (es : List ArpEntry) (ip : ℕ) → known ip e ≡ true → knows (e ∷ es) ip ≡ true
unfolding knows
knows_here e es ip h = ground arith

refresh_lem :
    (cache : List ArpEntry) (ip : ℕ) (mac : List ℕ) (now x : ℕ)
    → Learned cache ip mac (refresh cache ip mac now) x
unfolding refresh knows mac_of
refresh_lem [] ip mac now x = refl
refresh_lem (e ∷ es) ip mac now x = elim (Bool-cases (known ip e)) [
  | inl here ↦ rw here (knows_here e es ip here, refresh_here e es ip mac now x here)
  | inr other ↦
      rw other
        (refresh_tail e es ip mac x (refresh es ip mac now) other (refresh_lem es ip mac now x))
]

insert_free_lem :
    (cache : List ArpEntry) (ip : ℕ) (mac : List ℕ) (now x : ℕ)
    → knows cache ip ≡ false
    → mac_of (insert_free cache ip mac now) x
      ≡ (if x == ip && has_free cache then some mac else mac_of cache x)
unfolding insert_free knows mac_of has_free
insert_free_lem [] ip mac now x h = ground arith
insert_free_lem (e ∷ es) ip mac now x h = elim (Bool-cases e.valid) [
  | inl used ↦
      let later : mac_of (insert_free es ip mac now) x
          ≡ (if x == ip && has_free es then some mac else mac_of es x) =
        insert_free_lem es ip mac now x (ground arith) in
      elim (Bool-cases (e.ip == x)) [
        | inl hit ↦ let no : (x == ip) ≡ false = ground arith in rw (used, hit, no) refl
        | inr miss ↦ rw (used, miss) later
      ]
  | inr free ↦
      let turned : (ip == x) ≡ (x == ip) = ground arith in
      elim (Bool-cases (x == ip)) [
        | inl hit ↦ rw (free, turned, hit) refl
        | inr miss ↦ rw (free, turned, miss) refl
      ]
]

or_insert_lem :
    (cache : List ArpEntry) (ip : ℕ) (mac : List ℕ) (now x : ℕ) (o : Option (List ArpEntry))
    → Learned cache ip mac o x
    → mac_of (or_insert cache ip mac now o) x
      ≡ (if x == ip && (knows cache ip || has_free cache) then some mac else mac_of cache x)
or_insert_lem cache ip mac now x none h = rw h (insert_free_lem cache ip mac now x h)
or_insert_lem cache ip mac now x (some es) (k, m) = rw k (m ∙ ground arith)

-- `arp_learn` makes the cache know the address, for an address other than 255.255.255.255 that it
-- knows already or has a free entry for; every other address stays as it is known or not.
pub arp_learn_lem :
    (cache : List ArpEntry) (ip : ℕ) (mac : List ℕ) (now x : ℕ)
    → mac_of (arp_learn cache ip mac now) x ≡ (
        if not (ip == 0xffffffff) && (x == ip && (knows cache ip || has_free cache))
        then some mac
        else mac_of cache x)
unfolding arp_learn
arp_learn_lem cache ip mac now x = elim (Bool-cases (ip == 0xffffffff)) [
  | inl broadcast ↦ rw broadcast refl
  | inr one ↦ rw one (or_insert_lem cache ip mac now x _ (refresh_lem cache ip mac now x))
]
