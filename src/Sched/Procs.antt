-- ===== src/Sched/Procs.antt =====
-- The entries of the process table of kernel/sched.cpp after a write.
use cofeuos.Base.{
  ℕ, zero, suc, ◌<◌, ◌≡◌, refl, ◌&&◌, List, [], ◌∷◌, arith, ltb, ◌==◌, if◌then◌else◌, length,
  get_or, set, length-set,
}
use cofeuos.Sched.{Process, Machine, zeroed, proc, put_proc, wake, wake_all, wake_sleepers}

get_or-set {ℓ} :
    {A : Type ℓ} (xs : List A) (i j : ℕ) (v d : A)
    → get_or (set xs i v) j d ≡ (if i == j && ltb i (length xs) then v else get_or xs j d)
get_or-set [] i j v d = ground arith
get_or-set (x ∷ xs) zero zero v d = ground arith
get_or-set (x ∷ xs) zero (suc j) v d = ground arith
get_or-set (x ∷ xs) (suc i) zero v d = ground arith
get_or-set (x ∷ xs) (suc i) (suc j) v d = ground (arith, get_or-set xs i j v d)

pub proc-put_proc :
    (m : Machine) (i j : ℕ) (p : Process)
    → i < length m.table
    → proc (put_proc m i p) j ≡ (if i == j then p else proc m j)
proc-put_proc m i j p lt = ground (arith, get_or-set m.table i j p zeroed)

get_or-wake_all :
    (now i : ℕ) (t : List Process) → get_or (wake_all now t) i zeroed ≡ wake now (get_or t i zeroed)
unfolding wake_all wake
get_or-wake_all now i [] = refl
get_or-wake_all now zero (p ∷ ps) = refl
get_or-wake_all now (suc i) (p ∷ ps) = get_or-wake_all now i ps

pub proc-wake_sleepers : (m : Machine) (i : ℕ) → proc (wake_sleepers m) i ≡ wake m.ticks (proc m i)
unfolding wake_sleepers
proc-wake_sleepers m i = get_or-wake_all m.ticks i m.table

pub length-wake_all : (now : ℕ) (t : List Process) → length (wake_all now t) ≡ length t
unfolding wake_all
length-wake_all now [] = refl
length-wake_all now (p ∷ ps) = omega (arith, length-wake_all now ps)

pub length-put_proc :
    (m : Machine) (i : ℕ) (p : Process) → length (put_proc m i p).table ≡ length m.table
length-put_proc m i p = length-set m.table i p
