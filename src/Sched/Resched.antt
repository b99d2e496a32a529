-- ===== src/Sched/Resched.antt =====
-- `sched_reschedule` of kernel/sched.cpp as a whole.
use cofeuos.Base.{
  ℕ, ◌<◌, ◌≡◌, refl, sym, ◌∙◌, ◌⊎◌, inl, inr, Bool, true, false, Option, none, some, arith, ◌==◌,
  if◌then◌else◌, length, add64, Bool-cases,
}
use cofeuos.Sched.{
  Process, Machine, ready, is_running, max_proc, proc, put_proc, wake_sleepers, pick_ready,
}
use cofeuos.Sched.Pick.{RoundRobin, pick_ready_lem}
use cofeuos.Sched.Procs.{proc-put_proc, length-put_proc}
use cofeuos.Sched.Switch.{
  enter, start_first, from_kernel, set_aside, to_kernel, save_ctx, from_process, skip_of, dispatch,
  reschedule,
}
use cofeuos.Sched.Running.{
  IsSched, Runs, Idle, NoneRuns, enter-Runs, enter-IsSched, wake_sleepers-IsSched, picked_in,
}

-- The outcome of a call from `m`, with the machine's invariant.
abbrev pub Outcome : Machine → Machine × ℕ → Type 0
Outcome m r = IsSched r.0 × (Idle m r ⊎ ((n : ℕ) × Runs n r))

no_cur-NoneRuns : (m : Machine) → IsSched m → m.cur ≡ none → NoneRuns m
no_cur-NoneRuns m v e i = elim (Bool-cases (is_running (proc m i).state)) [
  | inl r ↦ let c : m.cur ≡ some i = v.running_is_cur i r in cc
  | inr f ↦ f
]

module _ (m : Machine) (ctx : ℕ) (v : IsSched m) where
  abbrev counted : ℕ → Machine
  counted n = record (put_proc m n (record (proc m n) { preempts = add64 (proc m n).preempts 1 })) {
    kernel_ctx = ctx;
    kernel_ctx_valid = true;
  }

  first-Outcome :
      (n : ℕ) → m.cur ≡ none → n < max_proc → Outcome m (enter (counted n) n, (proc m n).ctx)
  first-Outcome n e lt =
      let put = λ (i : ℕ).
        proc-put_proc m n i (record (proc m n) { preempts = add64 (proc m n).preempts 1 })
          (omega (arith, v.full)) in
      let len : length (counted n).table ≡ max_proc = length-put_proc m n _ ∙ v.full in
      let runs = enter-Runs (counted n) n (omega (arith, len)) in
      let quiet = no_cur-NoneRuns m v e in
      (
        enter-IsSched (counted n) n len (λ i. ground (arith, put i, quiet i, quiet n)) lt,
        inr (
          n,
          record {
            current = runs.current;
            state = runs.state;
            tables = runs.tables;
            stack = runs.stack;
            frame = ground (arith, runs.frame, put n);
          },
        ),
      )

  start_first-Outcome :
      (go : Bool) (o : Option ℕ)
      → m.cur ≡ none
      → RoundRobin m.table none none o
      → Outcome m (start_first m ctx go o)
  unfolding start_first
  start_first-Outcome false o e f = (v, inl (e, inr (refl, e)))
  start_first-Outcome true none e f = (v, inl (e, inr (refl, e)))
  start_first-Outcome true (some n) e f =
      first-Outcome n e (picked_in m.table none none n (λ s e'. absurd (cc)) f).0

  from_kernel-Outcome : m.cur ≡ none → Outcome m (from_kernel m ctx)
  unfolding from_kernel
  from_kernel-Outcome e =
      start_first-Outcome m.sched_ready (pick_ready m.table none none) e
        (pick_ready_lem m.table none none)

  module _ (s : ℕ) (is_cur : m.cur ≡ some s) where
    abbrev pub aside : Machine
    aside = set_aside m s

    abbrev pub set_down : Process → Process
    set_down p = record p {
      state = if is_running p.state then ready else p.state;
      preempts = add64 p.preempts 1;
    }

    pub proc-aside : (i : ℕ) → proc aside i ≡ (if s == i then set_down (proc m s) else proc m i)
    unfolding set_aside
    proc-aside i =
        proc-put_proc m s i (set_down (proc m s)) (omega (arith, v.full, v.cur_in s is_cur))

    pub length-aside : length aside.table ≡ max_proc
    unfolding set_aside
    length-aside = length-put_proc m s _ ∙ v.full

    aside-NoneRuns : NoneRuns aside
    aside-NoneRuns i = elim (Bool-cases (is_running (proc m i).state)) [
      | inl r ↦
          let c : some s ≡ some i = sym is_cur ∙ v.running_is_cur i r in
          ground (arith, proc-aside i)
      | inr f ↦ ground (arith, proc-aside i)
    ]

    abbrev pub saved : Machine
    saved = save_ctx aside s ctx

    pub proc-saved :
        (i : ℕ)
        → proc saved i ≡ (if s == i then record (proc aside s) { ctx = ctx } else proc aside i)
    unfolding save_ctx
    proc-saved i =
        proc-put_proc aside s i (record (proc aside s) { ctx = ctx })
          (omega (arith, length-aside, v.cur_in s is_cur))

    pub length-saved : length saved.table ≡ max_proc
    unfolding save_ctx
    length-saved = length-put_proc aside s _ ∙ length-aside

    saved-NoneRuns : NoneRuns saved
    saved-NoneRuns i = ground (arith, proc-saved i, aside-NoneRuns i, aside-NoneRuns s)

    pub skip_in : (i : ℕ) → skip_of m s ≡ some i → i < max_proc
    skip_in i e = v.cur_in i (ground arith)

    from_process-Outcome :
        (o : Option ℕ)
        → RoundRobin aside.table (some s) (skip_of m s) o
        → Outcome m (from_process aside s ctx o)
    unfolding from_process to_kernel
    from_process-Outcome none f = (
      record {
        full = length-aside;
        running_is_cur = λ i r. absurd (ground (arith, aside-NoneRuns i));
        cur_in = λ i e. absurd (cc);
      },
      inl (refl, inl refl),
    )
    from_process-Outcome (some n) f =
        let ok = picked_in aside.table (some s) (skip_of m s) n skip_in f in
        (
          enter-IsSched saved n length-saved saved-NoneRuns ok.0,
          inr (n, enter-Runs saved n (omega (arith, length-saved, ok))),
        )

dispatch-Outcome :
    (m : Machine) (ctx : ℕ) (c : Option ℕ) → IsSched m → m.cur ≡ c → Outcome m (dispatch m ctx c)
unfolding dispatch
dispatch-Outcome m ctx none v e = from_kernel-Outcome m ctx v e
dispatch-Outcome m ctx (some s) v e =
    from_process-Outcome m ctx v s e (pick_ready (set_aside m s).table (some s) (skip_of m s))
      (pick_ready_lem (set_aside m s).table (some s) (skip_of m s))

-- `sched_reschedule` keeps the table whole with at most one running process, the current one. Either a
-- process runs, with its page tables, its kernel stack and its saved frame in place, or none does,
-- with the kernel's page tables in place (those of before, if none ran before).
pub reschedule_lem : (m : Machine) (ctx : ℕ) → IsSched m → Outcome m (reschedule m ctx)
unfolding reschedule wake_sleepers
reschedule_lem m ctx v =
    dispatch-Outcome (wake_sleepers m) ctx m.cur (wake_sleepers-IsSched m v) refl
