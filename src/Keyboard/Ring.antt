-- ===== src/Keyboard/Ring.antt =====
-- The ring of kernel/keyboard.cpp as a queue.
use cofeuos.Base.{
  Bool, true, false, ◌||◌, ℕ, zero, suc, ◌+◌, ◌-◌, ◌%◌, ◌<◌, ◌≡◌, ◌≢◌, refl, sym, ap, ◌∙◌, ◌⊎◌, inl,
  inr, false, ◌&&◌, ◌||◌, List, [], ◌∷◌, ltb, leb, ◌==◌, if◌then◌else◌, get_or, set, length,
  length-set, arith, Bool-cases,
}
use cofeuos.Keyboard.{
  Keyboard, ring_size, push, release, press_extended, char_of, type_key, press, irq, getc,
}

pub record IsRing (k : Keyboard) : Type 0 where
  pub full : length k.ring ≡ ring_size
  pub head_in : k.head < ring_size
  pub tail_in : k.tail < ring_size

-- The number of waiting characters, and character number `i` of them.
abbrev pub size : Keyboard → ℕ
size k = (k.head + ring_size - k.tail) % ring_size

abbrev pub at : Keyboard → ℕ → ℕ
at k i = get_or k.ring ((k.tail + i) % ring_size) 0

get_or-set :
    (xs : List ℕ) (i j v : ℕ)
    → get_or (set xs i v) j 0 ≡ (if i == j && ltb i (length xs) then v else get_or xs j 0)
get_or-set [] i j v = ground arith
get_or-set (x ∷ xs) zero zero v = ground arith
get_or-set (x ∷ xs) zero (suc j) v = ground arith
get_or-set (x ∷ xs) (suc i) zero v = ground arith
get_or-set (x ∷ xs) (suc i) (suc j) v = ground (arith, get_or-set xs i j v)

-- The queue `q` is `k` with `c` behind it, or `k` is full and `q` is as `k`.
pub record Appends (k : Keyboard) (c : ℕ) (q : Keyboard) : Type 0 where
  pub ring : IsRing q
  pub grows : size q ≡ (if size k == 255 then 255 else size k + 1)
  pub chars : (i : ℕ) → i < size q → at q i ≡ (if i == size k then c else at k i)

-- `push` puts the character behind the others, or drops it if 255 are waiting.
pub push_lem : (k : Keyboard) (c : ℕ) → IsRing k → Appends k c (push k c)
unfolding push
push_lem k c v = elim (Bool-cases ((k.head + 1) % ring_size == k.tail)) [
  | inl is_full ↦ rw is_full (record {
    ring = v;
    grows = ground (arith, v.head_in, v.tail_in);
    chars = λ i lt. ground (arith, v.head_in, v.tail_in);
  })
  | inr room ↦ rw room (record {
    ring = record {
      full = length-set k.ring k.head c ∙ v.full;
      head_in = omega arith;
      tail_in = v.tail_in;
    };
    grows = ground (arith, v.head_in, v.tail_in);
    chars = λ i lt. ground (
      arith,
      v.head_in,
      v.tail_in,
      v.full,
      get_or-set k.ring k.head ((k.tail + i) % ring_size) c,
    );
  })
]

-- The outcome of taking a character: none is waiting, or it is the first.
abbrev pub Takes : Keyboard → Keyboard × ℕ → Type 0
Takes k (q, c) =
    ((size k ≡ 0) × (q ≡ k) × (c ≡ 0))
    ⊎ (IsRing q
        × (size q + 1 ≡ size k)
        × (c ≡ at k 0)
        × ((i : ℕ) → i < size q → at q i ≡ at k (i + 1)))

-- `keyboard_getc` takes the first of the waiting characters and leaves the others in order, or returns 0
-- and changes nothing if none is waiting.
pub getc_lem : (k : Keyboard) → IsRing k → Takes k (getc k)
unfolding getc
getc_lem k v = elim (Bool-cases (k.head == k.tail)) [
  | inl none' ↦ rw none' (inl (ground (arith, v.head_in, v.tail_in), refl, refl))
  | inr some' ↦
      let first : (k.tail + 0) % ring_size ≡ k.tail = omega (arith, v.tail_in) in
      rw some' (
        inr (
          record { full = v.full; head_in = v.head_in; tail_in = omega arith },
          ground (arith, v.head_in, v.tail_in),
          sym (ap (λ j. get_or k.ring j 0) first),
          λ i lt.
              let e : ((k.tail + 1) % ring_size + i) % ring_size ≡ (k.tail + (i + 1)) % ring_size =
                omega arith in
              ap (λ j. get_or k.ring j 0) e,
        ))
]

-- The queue is as before.
pub record Quiet (k q : Keyboard) : Type 0 where
  pub ring_is : q.ring ≡ k.ring
  pub head_is : q.head ≡ k.head
  pub tail_is : q.tail ≡ k.tail

-- What a scan code does to the queue.
abbrev pub Handles : Keyboard → Keyboard → Type 0
Handles k q = Quiet k q ⊎ ((c : ℕ) × (c ≢ 0) × Appends k c q)

quiet : {k q : Keyboard} → q.ring ≡ k.ring → q.head ≡ k.head → q.tail ≡ k.tail → Handles k q
quiet e f g = inl (record { ring_is = e; head_is = f; tail_is = g })

if-Handles :
    {k x y : Keyboard} (b : Bool) → Handles k x → Handles k y → Handles k (if b then x else y)
if-Handles true h h' = h
if-Handles false h h' = h'

release-Handles : (k : Keyboard) (sc : ℕ) → Handles k (release k sc)
unfolding release
release-Handles k sc = if-Handles k.extended (quiet refl refl refl) (quiet refl refl refl)

-- With the prefix forgotten the queue is the same.
press_extended-Handles :
    (k : Keyboard) (sc : ℕ)
    → IsRing k
    → Handles k (press_extended (record k { extended = false }) sc)
unfolding press_extended
press_extended-Handles k sc v =
    let r = record k { extended = false } in
    let v' : IsRing r = record { full = v.full; head_in = v.head_in; tail_in = v.tail_in } in
    let given : (c : ℕ) → c ≢ 0 → Handles k (push r c) = λ c ne.
      let p = push_lem r c v' in
      inr (c, ne, record { ring = p.ring; grows = p.grows; chars = p.chars }) in
    if-Handles (sc == 0x1d) (quiet refl refl refl) (
      if-Handles (sc == 0x48) (given 0x80 (λ z. omega arith)) (
        if-Handles (sc == 0x50) (given 0x81 (λ z. omega arith)) (
          if-Handles (sc == 0x4b) (given 0x82 (λ z. omega arith))
            (if-Handles (sc == 0x4d) (given 0x83 (λ z. omega arith)) (quiet refl refl refl)))))

type_key-Handles : (k : Keyboard) (sc : ℕ) → IsRing k → Handles k (type_key k sc)
unfolding type_key
type_key-Handles k sc v = elim (Bool-cases (char_of k sc == 0)) [
  | inl e ↦ rw e (quiet refl refl refl)
  | inr e ↦ rw e (inr (char_of k sc, (λ z. ground arith), push_lem k (char_of k sc) v))
]

press-Handles : (k : Keyboard) (sc : ℕ) → IsRing k → Handles k (press k sc)
unfolding press
press-Handles k sc v = if-Handles (sc == 0x2a || sc == 0x36) (quiet refl refl refl) (
    if-Handles (sc == 0x1d) (quiet refl refl refl) (
      if-Handles (sc == 0x3a) (quiet refl refl refl)
        (if-Handles (k.ctrl && sc == 0x2e) (quiet refl refl refl) (type_key-Handles k sc v))))

-- `keyboard_irq` puts at most one character, which is not 0, behind those that wait, or drops it if 255
-- do, and takes none.
pub irq_lem : (k : Keyboard) (code : ℕ) → IsRing k → Handles k (irq k code)
unfolding irq
irq_lem k code v = if-Handles (code == 0xe0) (quiet refl refl refl) (
    if-Handles (leb 128 code) (release-Handles k (code % 128)) (
      if-Handles k.extended (press_extended-Handles k (code % 128) v)
        (press-Handles k (code % 128) v)))
