-- ===== src/Util/Strings.antt =====
-- What the string routines of kernel/util.cpp return.
use cofeuos.Base.{
  ℕ, zero, suc, ◌+◌, ◌<◌, ◌≤◌, ◌≡◌, ◌≢◌, refl, sym, ap, ◌∙◌, ◌⊎◌, inl, inr, true, false, not, ◌&&◌,
  Option, none, some, arith, ◌==◌, if◌then◌else◌, Bool-cases,
}
use cofeuos.Util.{Memory, put}
use cofeuos.Util.Text.{strlen, strlen_loop, strcpy, strcmp}
use cofeuos.Util.Moves.{Copied, Forward}

-- A string of `l` bytes at `s`.
pub record IsString (mem : Memory) (s l : ℕ) : Type 0 where
  pub chars : (i : ℕ) → i < l → mem (s + i) ≢ 0
  pub end : mem (s + l) ≡ 0

strlen_loop-end :
    (k : ℕ) (mem : Memory) (s n l : ℕ)
    → IsString mem s l
    → n ≤ l
    → l < n + k
    → strlen_loop k mem s n ≡ some l
unfolding strlen_loop
strlen_loop-end zero mem s n l str le lt = absurd (omega arith)
strlen_loop-end (suc k) mem s n l str le lt = elim (Bool-cases (n == l)) [
  | inl last ↦ let e : n ≡ l = ground arith in rw e (rw str.end refl)
  | inr before ↦ ground (arith, str.chars n, strlen_loop-end k mem s (n + 1) l str)
]

-- `strlen` of a string of `l` bytes is `l`, with fuel for `l + 1` rounds.
pub strlen_lem :
    (fuel : ℕ) (mem : Memory) (s l : ℕ) → IsString mem s l → l < fuel → strlen fuel mem s ≡ some l
unfolding strlen
strlen_lem fuel mem s l str lt = strlen_loop-end fuel mem s 0 l str (omega arith) (omega arith)

rest-IsString : (mem : Memory) (a l : ℕ) → IsString mem a (suc l) → IsString mem (a + 1) l
rest-IsString mem a l str = record {
  chars =
      λ i lt. let e : a + 1 + i ≡ a + suc i = omega arith in rw e (str.chars (suc i) (omega arith));
  end = let e : a + 1 + l ≡ a + suc l = omega arith in rw e str.end;
}

-- Where two strings part: the bytes there, which differ or are both the end.
abbrev pub Parting : Memory → ℕ → ℕ → Option (ℕ × ℕ) → Type 0
Parting mem a b none = ⊥
Parting mem a b (some (x, y)) =
    (i : ℕ) × (x ≡ mem (a + i))
    × (y ≡ mem (b + i))
    × ((x ≢ y) ⊎ ((x ≡ 0) × (y ≡ 0)))
    × ((j : ℕ) → j < i → mem (a + j) ≡ mem (b + j))

-- `strcmp` of a string of `l` bytes with any bytes stops within `l + 1` rounds, at the first place where
-- they differ or at the common end.
pub strcmp_lem :
    (fuel : ℕ) (mem : Memory) (a b l : ℕ)
    → IsString mem a l
    → l < fuel
    → Parting mem a b (strcmp fuel mem a b)
unfolding strcmp
strcmp_lem zero mem a b l str lt = omega arith
strcmp_lem (suc k) mem a b l str lt =
    split l (λ n str' lt'. strcmp_lem k mem (a + 1) (b + 1) n str' lt') str lt
      (Bool-cases (not (mem a == 0) && mem a == mem b))
  where
    here : (not (mem a == 0) && mem a == mem b) ≡ false → Parting mem a b (some (mem a, mem b))
    here off =
        let ea : a ≡ a + 0 = omega arith in
        let eb : b ≡ b + 0 = omega arith in
        (0, ap mem ea, ap mem eb, ground arith, λ j lt'. absurd (omega arith))

    shift :
        (bound : ℕ)
        → mem a ≡ mem b
        → ((i : ℕ) → i < bound → mem (a + 1 + i) ≡ mem (b + 1 + i))
        → (i : ℕ) → i < suc bound
        → mem (a + i) ≡ mem (b + i)
    shift bound same f zero lt' =
        let ea : a + 0 ≡ a = omega arith in let eb : b + 0 ≡ b = omega arith in rw (ea, eb) same
    shift bound same f (suc i) lt' =
        let ea : a + suc i ≡ a + 1 + i = omega arith in
        let eb : b + suc i ≡ b + 1 + i = omega arith in rw (ea, eb) (f i (omega arith))

    later : (o : Option (ℕ × ℕ)) → mem a ≡ mem b → Parting mem (a + 1) (b + 1) o → Parting mem a b o
    later none same p = p
    later (some (x, y)) same (i, ex, ey, d, before) =
        let ea : a + 1 + i ≡ a + suc i = omega arith in
        let eb : b + 1 + i ≡ b + suc i = omega arith in
        (suc i, ex ∙ ap mem ea, ey ∙ ap mem eb, d, shift i same before)

    split :
        (n : ℕ)
        → ((n : ℕ)
            → IsString mem (a + 1) n
            → n < k
            → Parting mem (a + 1) (b + 1) (strcmp k mem (a + 1) (b + 1)))
        → IsString mem a n
        → n < suc k
        → ((not (mem a == 0) && mem a == mem b) ≡ true)
          ⊎ ((not (mem a == 0) && mem a == mem b) ≡ false)
        → Parting mem a b (
            if not (mem a == 0) && mem a == mem b
            then strcmp k mem (a + 1) (b + 1)
            else some (mem a, mem b))
    split n rest str' lt' (inr off) = rw off (here off)
    split zero rest str' lt' (inl on) =
        let e : a + 0 ≡ a = omega arith in
        let z : mem a ≡ 0 = ap mem (sym e) ∙ str'.end in absurd (ground arith)
    split (suc n) rest str' lt' (inl on) = rw on (
        later (strcmp k mem (a + 1) (b + 1)) (ground arith)
          (rest n (rest-IsString mem a n str') (omega arith)))

-- `strcpy` of a string of `l` bytes copies these and the end, with fuel for `l + 1` rounds, if the two
-- share no byte or the destination begins first.
pub strcpy_lem :
    (fuel : ℕ) (mem : Memory) (d s l : ℕ)
    → IsString mem s l
    → Forward d s (l + 1)
    → l < fuel
    → (mem' : Memory) × (strcpy fuel mem d s ≡ some mem') × Copied mem d s (l + 1) mem'
unfolding strcpy
strcpy_lem zero mem d s l str ok lt = absurd (omega arith)
strcpy_lem (suc k) mem d s zero str ok lt =
    let e : s + 0 ≡ s = omega arith in
    let z : mem s ≡ 0 = ap mem (sym e) ∙ str.end in
    let z' : (mem s == 0) ≡ true = ground arith in
    (put mem d (mem s), rw z' refl, λ x. ground arith)
strcpy_lem (suc k) mem d s (suc l) str ok lt =
    let e : s + 0 ≡ s = omega arith in
    let nz : mem s ≢ 0 = λ z. str.chars 0 (omega arith) (ap mem e ∙ z) in
    let nz' : (mem s == 0) ≡ false = ground arith in
    let (mem', eq, done) =
      strcpy_lem k (put mem d (mem s)) (d + 1) (s + 1) l
        (record {
          chars = λ i lt'. moved i (omega arith) (str.chars (suc i) (omega arith));
          end = last;
        })
        (ground (arith, ok)) (omega arith) in
    (mem', rw nz' eq, λ x. ground (arith, done x, ok))
  where
    there : (i : ℕ) → i < suc l → put mem d (mem s) (s + 1 + i) ≡ mem (s + suc i)
    there i lt' = let e : s + 1 + i ≡ s + suc i = omega arith in rw e (ground (arith, ok))

    moved : (i : ℕ) → i < suc l → mem (s + suc i) ≢ 0 → put mem d (mem s) (s + 1 + i) ≢ 0
    moved i lt' ne z = ne (sym (there i lt') ∙ z)

    last : put mem d (mem s) (s + 1 + l) ≡ 0
    last = there l (omega arith) ∙ str.end
