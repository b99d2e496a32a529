-- ===== src/Sched/Pid.antt =====
-- `pid_alloc` and `find_by_pid` of kernel/sched.cpp.
use cofeuos.Base.{
  ℕ, zero, suc, ◌+◌, ◌≤◌, ◌<◌, ◌≡◌, refl, inl, inr, true, false, not, ◌&&◌, List, [], ◌∷◌, Option,
  none, some, arith, leb, ◌==◌, if◌then◌else◌, length, Bool-cases,
}
use cofeuos.Sched.{
  Process, is_empty, has_pid, find_entry, find_by_pid, pid_used, pid_scan, pid_alloc,
}

-- How many processes have one of the PIDs from 1 to `n`.
counted : ℕ → Process → ℕ
counted n q = if not (is_empty q.state) && leb 1 q.pid && leb q.pid n then 1 else 0

pids_to : List Process → ℕ → ℕ
pids_to [] n = 0
pids_to (q ∷ qs) n = counted n q + pids_to qs n

pids_to-le : (t : List Process) (n : ℕ) → pids_to t n ≤ length t
unfolding pids_to counted
pids_to-le [] n = omega arith
pids_to-le (q ∷ qs) n = ground (arith, pids_to-le qs n)

pids_to_mono : (t : List Process) (n : ℕ) → pids_to t n ≤ pids_to t (n + 1)
unfolding pids_to counted
pids_to_mono [] n = omega arith
pids_to_mono (q ∷ qs) n = ground (arith, pids_to_mono qs n)

-- Each PID in use belongs to a process of its own.
pids_to-used :
    (t : List Process) (n : ℕ) → pid_used t (n + 1) ≡ true → pids_to t n < pids_to t (n + 1)
unfolding pids_to counted pid_used
pids_to-used [] n e = cc
pids_to-used (q ∷ qs) n e = ground (arith, pids_to-used qs n, pids_to_mono qs n)

pub find_entry-none :
    (t : List Process) (p i : ℕ) → pid_used t p ≡ false → find_entry (has_pid p) t i ≡ none
unfolding find_entry pid_used
find_entry-none [] p i e = refl
find_entry-none (q ∷ qs) p i e = ground (arith, find_entry-none qs p (i + 1))

pub record FreshPid (t : List Process) (p : ℕ) : Type 0 where
  pub positive : 0 < p
  pub small : p ≤ length t + 1
  pub unused : find_by_pid t p ≡ none
  pub least : (q : ℕ) → 0 < q → q < p → pid_used t q ≡ true

abbrev Scanned : List Process → Option ℕ → Type 0
Scanned t none = ⊥
Scanned t (some p) = FreshPid t p

pid_scan-Scanned :
    (t : List Process) (k n : ℕ)
    → length t < n + k
    → n ≤ pids_to t n
    → ((q : ℕ) → 0 < q → q < n + 1 → pid_used t q ≡ true)
    → Scanned t (pid_scan t k (n + 1))
unfolding pid_scan find_by_pid
pid_scan-Scanned t zero n room all seen = omega (arith, pids_to-le t n)
pid_scan-Scanned t (suc k) n room all seen = elim (Bool-cases (pid_used t (n + 1))) [
  | inl used ↦ rw used (
      pid_scan-Scanned t k (n + 1) (omega arith) (omega (arith, pids_to-used t n used)) (λ q lo hi.
        elim (Bool-cases (q == n + 1)) [
          | inl last ↦ let e : q ≡ n + 1 = ground arith in rw e used
          | inr before ↦ seen q lo (ground arith)
        ]))
  | inr free ↦ rw free (record {
    positive = omega arith;
    small = omega (arith, pids_to-le t n);
    unused = find_entry-none t (n + 1) 0 free;
    least = seen;
  })
]

pub pid_alloc_lem :
    (t : List Process) → length t < 0xffff → (p : ℕ) × (pid_alloc t ≡ some p) × FreshPid t p
unfolding pid_alloc
pid_alloc_lem t h =
    go (pid_scan t 0xffff 1)
      (pid_scan-Scanned t 0xffff 0 (omega arith) (omega arith) (λ q lo hi. absurd (omega arith)))
  where
    go : (o : Option ℕ) → Scanned t o → (p : ℕ) × (o ≡ some p) × FreshPid t p
    go none s = absurd s
    go (some p) s = (p, refl, s)
