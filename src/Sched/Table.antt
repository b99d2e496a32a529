-- ===== src/Sched/Table.antt =====
-- The process table of kernel/sched.cpp as a whole: whose PIDs are whose.
use cofeuos.Base.{
  ℕ, ◌<◌, ◌≡◌, sym, ap, ◌∙◌, subst, ◌≢◌, Bool, true, false, not, arith, length, get_or,
}
use cofeuos.Sched.{Process, Machine, is_running, is_empty, zeroed, max_proc, proc, put_proc}
use cofeuos.Sched.Procs.{proc-put_proc, length-put_proc}
use cofeuos.Sched.Running.{IsSched}

abbrev pub live : Machine → ℕ → Bool
live m i = not (is_empty (proc m i).state)

-- The table is in order: at most the current process is running, and the processes have positive PIDs,
-- no two the same.
pub record IsTable (m : Machine) : Type 0 where
  pub sched : IsSched m
  pub positive : (i : ℕ) → live m i ≡ true → 0 < (proc m i).pid
  pub distinct :
      (i j : ℕ) → live m i ≡ true → live m j ≡ true → (proc m i).pid ≡ (proc m j).pid → i ≡ j

-- A change that neither makes nor ends a process.
abbrev pub Keeps : Machine → Machine → Type 0
Keeps m m' =
    (i : ℕ)
    → ((proc m' i).pid ≡ (proc m i).pid) × (is_empty (proc m' i).state ≡ is_empty (proc m i).state)

pub Keeps-IsTable : (m m' : Machine) → IsTable m → Keeps m m' → IsSched m' → IsTable m'
Keeps-IsTable m m' t k s = record {
  sched = s;
  positive = λ i l. ground (arith, k i, t.positive i);
  distinct = λ i j li lj e.
      t.distinct i j (ground (arith, k i)) (ground (arith, k j)) (ground (arith, k i, k j));
}

-- A machine that differs in neither the table nor the current process.
pub alike-IsSched : (m m' : Machine) → m'.table ≡ m.table → m'.cur ≡ m.cur → IsSched m → IsSched m'
alike-IsSched m m' e c v = record {
  full = ap length e ∙ v.full;
  running_is_cur =
      λ i r. c ∙ v.running_is_cur i (subst (λ t. is_running (get_or t i zeroed).state ≡ true) e r);
  cur_in = λ i r. v.cur_in i (sym c ∙ r);
}

pub alike-IsTable : (m m' : Machine) → m'.table ≡ m.table → m'.cur ≡ m.cur → IsTable m → IsTable m'
alike-IsTable m m' e c t =
    Keeps-IsTable m m' t
      (λ i. (ap (λ t. (get_or t i zeroed).pid) e, ap (λ t. is_empty (get_or t i zeroed).state) e))
      (alike-IsSched m m' e c t.sched)

pub put-Keeps :
    (m : Machine) (i : ℕ) (p : Process)
    → i < length m.table
    → p.pid ≡ (proc m i).pid
    → is_empty p.state ≡ is_empty (proc m i).state
    → Keeps m (put_proc m i p)
put-Keeps m i p lt e s j = ground (arith, proc-put_proc m i j p lt)

pub put-IsSched :
    (m : Machine) (i : ℕ) (p : Process)
    → IsSched m
    → i < max_proc
    → is_running p.state ≡ false
    → IsSched (put_proc m i p)
put-IsSched m i p v lt idle = record {
  full = length-put_proc m i p ∙ v.full;
  running_is_cur =
      λ j r. v.running_is_cur j (ground (arith, proc-put_proc m i j p (omega (arith, v.full))));
  cur_in = v.cur_in;
}

-- A process that is no longer running, but there still.
pub put_same-IsTable :
    (m : Machine) (i : ℕ) (p : Process)
    → IsTable m
    → i < max_proc
    → is_running p.state ≡ false
    → p.pid ≡ (proc m i).pid
    → is_empty p.state ≡ is_empty (proc m i).state
    → IsTable (put_proc m i p)
put_same-IsTable m i p t lt idle e s =
    let v = t.sched in
    Keeps-IsTable m (put_proc m i p) t (put-Keeps m i p (omega (arith, v.full)) e s)
      (put-IsSched m i p v lt idle)

-- An entry that is emptied.
pub put_empty-IsTable :
    (m : Machine) (i : ℕ) (p : Process)
    → IsTable m
    → i < max_proc
    → is_empty p.state ≡ true
    → is_running p.state ≡ false
    → IsTable (put_proc m i p)
put_empty-IsTable m i p t lt gone idle =
    let v = t.sched in
    let put = λ (j : ℕ). proc-put_proc m i j p (omega (arith, v.full)) in
    record {
      sched = put-IsSched m i p v lt idle;
      positive = λ j l. ground (arith, put j, t.positive j);
      distinct = λ j k lj lk e. ground (arith, put j, put k, t.distinct j k);
    }

-- A new process.
pub put_new-IsTable :
    (m : Machine) (i : ℕ) (p : Process)
    → IsTable m
    → i < max_proc
    → is_running p.state ≡ false
    → 0 < p.pid
    → ((j : ℕ) → live m j ≡ true → (proc m j).pid ≢ p.pid)
    → IsTable (put_proc m i p)
put_new-IsTable m i p t lt idle pos fresh =
    let v = t.sched in
    let put = λ (j : ℕ). proc-put_proc m i j p (omega (arith, v.full)) in
    record {
      sched = put-IsSched m i p v lt idle;
      positive = λ j l. ground (arith, put j, t.positive j);
      distinct = λ j k lj lk e. ground (arith, put j, put k, t.distinct j k, fresh j, fresh k);
    }
