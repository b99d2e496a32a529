-- ===== src/Sched/Pick.antt =====
-- `pick_ready` of kernel/sched.cpp.
use cofeuos.Base.{
  ℕ, zero, suc, ◌+◌, ◌-◌, ◌%◌, ◌<◌, ◌≡◌, refl, subst, ◌⊎◌, inl, inr, Bool, true, false, not, ◌&&◌,
  List, Option, none, some, arith, ◌==◌, if◌then◌else◌, get_or, Bool-cases,
}
use cofeuos.Sched.{
  Process, zeroed, is_ready, max_proc, pick_scan, pick_ready, after_cur, is_skipped, or_else,
  fall_back,
}

abbrev pub ready_at : List Process → ℕ → Bool
ready_at t i = is_ready (get_or t i zeroed).state

-- Entry `i` is ready and not the one to be left for the end.
abbrev pub eligible : List Process → Option ℕ → ℕ → Bool
eligible t skip i = ready_at t i && not (is_skipped skip i)

abbrev ScanFound : List Process → Option ℕ → ℕ → ℕ → Option ℕ → Type 0
ScanFound t skip k j none = (d : ℕ) → d < k → eligible t skip ((j + d) % max_proc) ≡ false
ScanFound t skip k j (some i) =
    (d : ℕ) × (d < k)
    × (i ≡ (j + d) % max_proc)
    × (eligible t skip i ≡ true)
    × ((e : ℕ) → e < d → eligible t skip ((j + e) % max_proc) ≡ false)

pick_scan-ScanFound :
    (t : List Process) (skip : Option ℕ) (k j : ℕ) → ScanFound t skip k j (pick_scan t skip k j)
unfolding pick_scan
pick_scan-ScanFound t skip zero j = λ d lt. absurd (omega arith)
pick_scan-ScanFound t skip (suc k) j =
    split (Bool-cases (eligible t skip (j % max_proc))) (pick_scan-ScanFound t skip k (j + 1))
  where
    here :
        eligible t skip (j % max_proc) ≡ false
        → (d : ℕ) → d ≡ 0
        → eligible t skip ((j + d) % max_proc) ≡ false
    here miss d e = let e' : (j + d) % max_proc ≡ j % max_proc = omega arith in rw e' miss

    shift :
        (bound : ℕ)
        → eligible t skip (j % max_proc) ≡ false
        → ((d : ℕ) → d < bound → eligible t skip ((j + 1 + d) % max_proc) ≡ false)
        → (d : ℕ) → d < suc bound
        → eligible t skip ((j + d) % max_proc) ≡ false
    shift bound miss later d lt = elim (Bool-cases (d == 0)) [
      | inl first ↦ here miss d (ground arith)
      | inr next ↦
          let e : (j + 1 + (d - 1)) % max_proc ≡ (j + d) % max_proc = ground arith in
          subst (λ i. eligible t skip i ≡ false) e (later (d - 1) (ground arith))
    ]

    later :
        (o : Option ℕ)
        → eligible t skip (j % max_proc) ≡ false
        → ScanFound t skip k (j + 1) o
        → ScanFound t skip (suc k) j o
    later none miss f = shift k miss f
    later (some i) miss (d, lt, e, hit, before) =
        (suc d, omega arith, omega arith, hit, shift d miss before)

    split :
        (eligible t skip (j % max_proc) ≡ true) ⊎ (eligible t skip (j % max_proc) ≡ false)
        → ScanFound t skip k (j + 1) (pick_scan t skip k (j + 1))
        → ScanFound t skip (suc k) j (
            if eligible t skip (j % max_proc)
            then some (j % max_proc)
            else pick_scan t skip k (j + 1))
    split (inl hit) f = rw hit (0, omega arith, omega arith, hit, λ e lt. absurd (omega arith))
    split (inr miss) f = rw miss (later (pick_scan t skip k (j + 1)) miss f)

-- The choice is the first eligible entry behind the current one, going round, or the one that was
-- left for the end if it is ready and no entry is eligible, or none if no entry is ready.
abbrev pub RoundRobin : List Process → Option ℕ → Option ℕ → Option ℕ → Type 0
RoundRobin t cur skip none = (i : ℕ) → i < max_proc → ready_at t i ≡ false
RoundRobin t cur skip (some i) =
    ((d : ℕ) × (d < max_proc)
      × (i ≡ (after_cur cur + d) % max_proc)
      × (eligible t skip i ≡ true)
      × ((e : ℕ) → e < d → eligible t skip ((after_cur cur + e) % max_proc) ≡ false))
    ⊎ ((skip ≡ some i)
        × (ready_at t i ≡ true)
        × ((j : ℕ) → j < max_proc → eligible t skip j ≡ false))

-- Going round from `j` every entry is met.
all_round :
    (t : List Process) (skip : Option ℕ) (j : ℕ)
    → ((d : ℕ) → d < max_proc → eligible t skip ((j + d) % max_proc) ≡ false)
    → (i : ℕ) → i < max_proc
    → eligible t skip i ≡ false
all_round t skip j miss i lt =
    let d = (i + max_proc - j % max_proc) % max_proc in
    let e : (j + d) % max_proc ≡ i = omega arith in
    subst (λ k. eligible t skip k ≡ false) e (miss d (omega arith))

-- `pick_ready` chooses round robin: the first ready process behind the current one, the one to be
-- left for the end only if no other is ready, and none only if no process is ready.
pub pick_ready_lem :
    (t : List Process) (cur skip : Option ℕ) → RoundRobin t cur skip (pick_ready t cur skip)
unfolding pick_ready
pick_ready_lem t cur skip =
    go skip (pick_scan t skip max_proc (after_cur cur))
      (pick_scan-ScanFound t skip max_proc (after_cur cur))
  where
    left :
        (s : ℕ)
        → ((i : ℕ) → i < max_proc → eligible t (some s) i ≡ false)
        → (ready_at t s ≡ true) ⊎ (ready_at t s ≡ false)
        → RoundRobin t cur (some s) (fall_back t (some s))
    left s miss (inl yes') = rw yes' (inr (refl, yes', miss))
    left s miss (inr not') = rw not' λ i lt. elim (Bool-cases (s == i)) [
      | inl same ↦ let e : s ≡ i = ground arith in rw (← e) not'
      | inr other ↦ ground (arith, miss i)
    ]

    go :
        (sk : Option ℕ) (o : Option ℕ)
        → ScanFound t sk max_proc (after_cur cur) o
        → RoundRobin t cur sk (or_else o (fall_back t sk))
    go sk (some i) f = inl f
    go none none f = λ i lt. ground (arith, all_round t none (after_cur cur) f i)
    go (some s) none f = left s (all_round t (some s) (after_cur cur) f) (Bool-cases (ready_at t s))
