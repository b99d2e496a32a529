-- ===== src/Fs/Pieces.antt =====
-- Paths of kernel/cofeufs.cpp as the sequences of their names.
use cofeuos.Base.{
  ℕ, zero, suc, ◌+◌, ◌<◌, ◌≤◌, ◌≡◌, refl, sym, subst, ap, ◌∙◌, inl, inr, true, false, List, [], ◌∷◌,
  Option, none, some, ◌==◌, if◌then◌else◌, arith, Bool-cases, length,
}
use cofeuos.Fs.{Fs}
use cofeuos.Fs.Paths.{slash, take_comp, skip_slashes, walk, resolve_loop, found, resolve_from}

abbrev pub cons_piece : List ℕ → List (List ℕ) → List (List ℕ)
cons_piece [] ps = ps
cons_piece (c ∷ cs) ps = (c ∷ cs) ∷ ps

-- The part of a path before its first slash, and the names behind it.
unfoldable pub first : List ℕ → List ℕ × List (List ℕ)
first [] = ([], [])
first (c ∷ p) = let (a, ps) = first p in if c == slash then ([], cons_piece a ps) else (c ∷ a, ps)

-- The names of a path: what stands between its slashes and is not empty.
unfoldable pub pieces : List ℕ → List (List ℕ)
pieces p = cons_piece (first p).0 (first p).1

-- From directory `cur` through the names one after the other.
unfoldable pub follow : Fs → ℕ → List (List ℕ) → Option ℕ
follow v cur [] = some cur
follow v cur (n ∷ ns) = elim (walk v cur n) [ none ↦ none | some cur' ↦ follow v cur' ns ]

-- Every name has at most 31 bytes.
abbrev pub AllShort : List (List ℕ) → Type 0
AllShort [] = Unit {0}
AllShort (n ∷ ns) = (length n ≤ 31) × AllShort ns

pieces-slash : (c : ℕ) (p : List ℕ) → (c == slash) ≡ true → pieces (c ∷ p) ≡ pieces p
unfolding pieces first
pieces-slash c p e = rw e refl

first-slash : (c : ℕ) (p : List ℕ) → (c == slash) ≡ true → first (c ∷ p) ≡ ([], pieces p)
unfolding first pieces
first-slash c p e = rw e refl

first_other :
    (c : ℕ) (p : List ℕ) → (c == slash) ≡ false → first (c ∷ p) ≡ (c ∷ (first p).0, (first p).1)
unfolding first
first_other c p e = rw e refl

take_comp-slash : (n c : ℕ) (p : List ℕ) → (c == slash) ≡ true → take_comp n (c ∷ p) ≡ ([], c ∷ p)
unfolding take_comp
take_comp-slash zero c p e = refl
take_comp-slash (suc n) c p e = rw e refl

take_comp_other :
    (n c : ℕ) (p : List ℕ)
    → (c == slash) ≡ false
    → take_comp (suc n) (c ∷ p) ≡ (c ∷ (take_comp n p).0, (take_comp n p).1)
unfolding take_comp
take_comp_other n c p e = rw e refl

pieces-skip_slashes : (p : List ℕ) → pieces (skip_slashes p) ≡ pieces p
unfolding skip_slashes pieces
pieces-skip_slashes [] = refl
pieces-skip_slashes (c ∷ p) = elim (Bool-cases (c == slash)) [
  | inl e ↦ rw (e, first-slash c p e) (pieces-skip_slashes p)
  | inr ne ↦ rw ne refl
]

-- What the copying of a name leaves of the path, and of the names behind it.
abbrev Taken : List ℕ → List ℕ × List ℕ → List ℕ × List (List ℕ) → Type 0
Taken p (a, r) (n, ns) = (a ≡ n) × (pieces (skip_slashes r) ≡ ns)

take_comp_first : (n : ℕ) (p : List ℕ) → length (first p).0 ≤ n → Taken p (take_comp n p) (first p)
unfolding take_comp first pieces skip_slashes
take_comp_first zero [] le = (refl, refl)
take_comp_first zero (c ∷ p) le = elim (Bool-cases (c == slash)) [
  | inl e ↦ rw e (refl, pieces-skip_slashes p)
  | inr ne ↦ absurd (omega (arith, subst (λ f. length f.0 ≤ 0) (first_other c p ne) le))
]
take_comp_first (suc n) [] le = (refl, refl)
take_comp_first (suc n) (c ∷ p) le = elim (Bool-cases (c == slash)) [
  | inl e ↦ rw (e, e) (refl, pieces-skip_slashes p)
  | inr ne ↦
      let small : suc (length (first p).0) ≤ suc n =
        subst (λ f. length f.0 ≤ suc n) (first_other c p ne) le in
      let (a, r) = take_comp_first n p (omega arith) in rw ne (ap (λ z. c ∷ z) a, r)
]

length-skip_slashes : (p : List ℕ) → length (skip_slashes p) ≤ length p
unfolding skip_slashes
length-skip_slashes [] = omega arith
length-skip_slashes (c ∷ p) = elim (Bool-cases (c == slash)) [
  | inl e ↦ rw e (omega (arith, length-skip_slashes p))
  | inr ne ↦ rw ne (omega arith)
]

length-take_comp : (n : ℕ) (p : List ℕ) → length (take_comp n p).1 ≤ length p
unfolding take_comp
length-take_comp zero p = omega arith
length-take_comp (suc n) [] = omega arith
length-take_comp (suc n) (c ∷ p) = elim (Bool-cases (c == slash)) [
  | inl e ↦ rw e (omega arith)
  | inr ne ↦ rw ne (omega (arith, length-take_comp n p))
]

-- A round of the loop leaves a shorter path.
length-round :
    (n c : ℕ) (p : List ℕ) → length (skip_slashes (take_comp (suc n) (c ∷ p)).1) ≤ length p
unfolding take_comp skip_slashes
length-round n c p = elim (Bool-cases (c == slash)) [
  | inl e ↦ rw (e, e) (length-skip_slashes p)
  | inr ne ↦ rw ne (omega (arith, length-skip_slashes (take_comp n p).1, length-take_comp n p))
]

short_first :
    (a : List ℕ) (ps : List (List ℕ)) → AllShort (cons_piece a ps) → (length a ≤ 31) × AllShort ps
short_first [] ps h = (omega arith, h)
short_first (c ∷ cs) ps h = h

follow-cons_piece :
    (v : Fs) (cur : ℕ) (a : List ℕ) (ps : List (List ℕ))
    → follow v cur (cons_piece a ps)
      ≡ elim (walk v cur a) [ none ↦ none | some cur' ↦ follow v cur' ps ]
unfolding follow walk
follow-cons_piece v cur [] ps = refl
follow-cons_piece v cur (c ∷ cs) ps = refl

same_branch :
    (o : Option ℕ) (f : ℕ → Option (Option ℕ)) (g : ℕ → Option ℕ)
    → ((x : ℕ) → f x ≡ some (g x))
    → Path
        (Option (Option ℕ))
        (elim o [ none ↦ some none | some x ↦ f x ])
        (some (elim o [ none ↦ none | some x ↦ g x ]))
same_branch none f g e = refl
same_branch (some x) f g e = e x

resolve_loop_lem :
    (k : ℕ) (v : Fs) (cur : ℕ) (p : List ℕ)
    → length p < k
    → AllShort (pieces p)
    → resolve_loop k v cur p ≡ some (follow v cur (pieces p))
unfolding resolve_loop follow pieces first
resolve_loop_lem zero v cur p lt short = absurd (omega arith)
resolve_loop_lem (suc k) v cur [] lt short = refl
resolve_loop_lem (suc k) v cur (c ∷ p) lt short =
    let names = first (c ∷ p) in
    let taken = take_comp 31 (c ∷ p) in
    let rest = skip_slashes taken.1 in
    let (le, rest_short) = short_first names.0 names.1 short in
    let (a, r) = take_comp_first 31 (c ∷ p) le in
    let shorter : length (skip_slashes (take_comp 31 (c ∷ p)).1) ≤ length p = length-round 30 c p in
    same_branch (walk v cur taken.0) (λ x. resolve_loop k v x rest) (λ x. follow v x names.1)
      (λ x.
        resolve_loop_lem k v x rest (omega arith) (subst AllShort (sym r) rest_short)
        ∙ ap (λ ns. some (follow v x ns)) r)
    ∙ ap
        (λ n.
          some
            (elim (walk v cur n) as (λ o. Option ℕ) [ none ↦ none | some x ↦ follow v x names.1 ]))
        a
    ∙ ap some (sym (follow-cons_piece v cur names.0 names.1))

follow-nil : (v : Fs) (cur : ℕ) → some cur ≡ follow v cur (pieces [])
unfolding follow pieces first
follow-nil v cur = refl

-- Where a path begins: at the root if its first byte is a slash.
abbrev pub start_of : Fs → ℕ → List ℕ → ℕ
start_of v base [] = base
start_of v base (c ∷ p) = if c == slash then v.super.root_ino else base

-- A path whose names have at most 31 bytes is resolved by following its names, from the root or
-- from `base`; slashes that are doubled or at the end add nothing.
pub resolve_from_lem :
    (v : Fs) (base : ℕ) (p : List ℕ)
    → AllShort (pieces p)
    → resolve_from v base (some p) ≡ follow v (start_of v base p) (pieces p)
unfolding resolve_from
resolve_from_lem v base [] short = follow-nil v base
resolve_from_lem v base (c ∷ p) short = elim (Bool-cases (c == slash)) [
  | inl e ↦
      let same : pieces (c ∷ p) ≡ pieces p = pieces-slash c p e in
      let short' : AllShort (pieces p) = subst AllShort same short in
      rw e (
        ap found (resolve_loop_lem (length p + 1) v v.super.root_ino p (omega arith) short')
        ∙ ap (follow v v.super.root_ino) (sym same))
  | inr ne ↦ rw ne (ap found (resolve_loop_lem (length p + 2) v base (c ∷ p) (omega arith) short))
]

-- The loop is through after `k` rounds, with the same inode or without one for every bound on the
-- rounds from there on.
abbrev EndsIn : ℕ → Fs → ℕ → List ℕ → Type 0
EndsIn k v cur p = (o : Option ℕ) × ((m : ℕ) → k ≤ m → resolve_loop m v cur p ≡ some o)

round_on :
    (m : ℕ) (v : Fs) (cur c : ℕ) (p : List ℕ) (w : Option ℕ)
    → walk v cur (take_comp 31 (c ∷ p)).0 ≡ w
    → Path (Option (Option ℕ)) (resolve_loop (suc m) v cur (c ∷ p)) (elim w [
      | none ↦ some none
      | some x ↦ resolve_loop m v x (skip_slashes (take_comp 31 (c ∷ p)).1)
    ])
unfolding resolve_loop
round_on m v cur c p w e =
    ap
      (λ o. elim o as (λ q. Option (Option ℕ)) [
        | none ↦ some none
        | some x ↦ resolve_loop m v x (skip_slashes (take_comp 31 (c ∷ p)).1)
      ])
      e

round_ends :
    (k : ℕ) (v : Fs) (cur c : ℕ) (p : List ℕ) (w : Option ℕ)
    → walk v cur (take_comp 31 (c ∷ p)).0 ≡ w
    → ((x : ℕ) → EndsIn k v x (skip_slashes (take_comp 31 (c ∷ p)).1))
    → EndsIn (suc k) v cur (c ∷ p)
round_ends k v cur c p none e rest = (none, through)
  where
    through : (m : ℕ) → suc k ≤ m → resolve_loop m v cur (c ∷ p) ≡ some none
    through zero le = absurd (omega arith)
    through (suc m) le = round_on m v cur c p none e
round_ends k v cur c p (some x) e rest = (o, through)
  where
    o : Option ℕ
    o = (rest x).0

    through : (m : ℕ) → suc k ≤ m → resolve_loop m v cur (c ∷ p) ≡ some o
    through zero le = absurd (omega arith)
    through (suc m) le = round_on m v cur c p (some x) e ∙ (rest x).1 m (omega arith)

resolve_loop-EndsIn : (k : ℕ) (v : Fs) (cur : ℕ) (p : List ℕ) → length p < k → EndsIn k v cur p
unfolding resolve_loop
resolve_loop-EndsIn zero v cur p lt = absurd (omega arith)
resolve_loop-EndsIn (suc k) v cur [] lt = (some cur, through)
  where
    through : (m : ℕ) → suc k ≤ m → resolve_loop m v cur [] ≡ some (some cur)
    through zero le = absurd (omega arith)
    through (suc m) le = refl
resolve_loop-EndsIn (suc k) v cur (c ∷ p) lt =
    let shorter : length (skip_slashes (take_comp 31 (c ∷ p)).1) ≤ length p = length-round 30 c p in
    round_ends k v cur c p _ refl
      (λ x. resolve_loop-EndsIn k v x (skip_slashes (take_comp 31 (c ∷ p)).1) (omega arith))

-- The loop over a path comes to an end after at most one round more than the path has bytes, with
-- an inode or without one, whatever the file system holds; a larger bound on the rounds changes
-- nothing.
pub resolve_loop_ends :
    (v : Fs) (cur : ℕ) (p : List ℕ)
    → (o : Option ℕ) × ((j : ℕ) → resolve_loop (length p + 1 + j) v cur p ≡ some o)
resolve_loop_ends v cur p =
    let (o, e) = resolve_loop-EndsIn (length p + 1) v cur p (omega arith) in
    (o, λ j. e (length p + 1 + j) (omega arith))
