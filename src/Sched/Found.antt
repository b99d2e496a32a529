-- ===== src/Sched/Found.antt =====
-- The search through the process table in kernel/sched.cpp, and what a new address space leaves of a
-- process.
use cofeuos.Base.{
  ltb, ◌==◌, ◌∙◌, ℕ, zero, suc, ◌+◌, ◌*◌, ◌<◌, ◌≡◌, refl, ◌⊎◌, inl, inr, Bool, true, false, List,
  [], ◌∷◌, Option, none, some, arith, if◌then◌else◌, get_or, set, length, bit_or, Bool-cases,
}
use cofeuos.Sched.{user_code_max_pages, Process, Machine, user_stack_pages, find_entry, zeroed}
use cofeuos.Sched.Space.{
  lacks_table, alloc_zero_frame, store, map_code, map_stack, stack_index, alloc_tables, link_tables,
  map_pages, vm_build, vm_new, vm_free,
}

-- The first entry that passes, or none and no entry passes.
abbrev pub FoundEntry : (Process → Bool) → List Process → Option ℕ → Type 0
FoundEntry keep t none = (j : ℕ) → j < length t → keep (get_or t j zeroed) ≡ false
FoundEntry keep t (some i) =
    (i < length t)
    × (keep (get_or t i zeroed) ≡ true)
    × ((j : ℕ) → j < i → keep (get_or t j zeroed) ≡ false)

abbrev Ahead : (Process → Bool) → List Process → ℕ → Option ℕ → Type 0
Ahead keep t n none = FoundEntry keep t none
Ahead keep t n (some i) = (d : ℕ) × (i ≡ n + d) × FoundEntry keep t (some d)

find_entry-Ahead :
    (keep : Process → Bool) (t : List Process) (n : ℕ) → Ahead keep t n (find_entry keep t n)
unfolding find_entry
find_entry-Ahead keep [] n = λ j lt. absurd (omega arith)
find_entry-Ahead keep (p ∷ ps) n =
    go (Bool-cases (keep p)) (find_entry keep ps (n + 1)) (find_entry-Ahead keep ps (n + 1))
  where
    below_suc :
        (d : ℕ)
        → keep p ≡ false
        → ((j : ℕ) → j < d → keep (get_or ps j zeroed) ≡ false)
        → (j : ℕ) → j < suc d
        → keep (get_or (p ∷ ps) j zeroed) ≡ false
    below_suc d miss f zero lt = miss
    below_suc d miss f (suc j) lt = f j (omega arith)

    go :
        (keep p ≡ true) ⊎ (keep p ≡ false)
        → (o : Option ℕ) → Ahead keep ps (n + 1) o
        → Ahead keep (p ∷ ps) n (if keep p then some n else o)
    go (inl hit) o a = rw hit (0, omega arith, (omega arith, hit, λ j lt. absurd (omega arith)))
    go (inr miss) none a = rw miss (below_suc (length ps) miss a)
    go (inr miss) (some i) (d, e, (lt, hit, before)) =
        rw miss (suc d, omega arith, (omega arith, hit, below_suc d miss before))

pub find_entry-FoundEntry :
    (keep : Process → Bool) (t : List Process) → FoundEntry keep t (find_entry keep t 0)
find_entry-FoundEntry keep t = go (find_entry keep t 0) (find_entry-Ahead keep t 0)
  where
    go : (o : Option ℕ) → Ahead keep t 0 o → FoundEntry keep t o
    go none a = a
    go (some i) (d, e, f) = let e' : i ≡ d = omega arith in rw e' f

-- The PID, the kernel stack and the name are as before.
abbrev pub Named : Process → Process → Type 0
Named p q = (q.pid ≡ p.pid) × (q.kstack ≡ p.kstack) × (q.name ≡ p.name)

map_code-Named :
    (k i : ℕ) (fs : List ℕ) (m : Machine) (p : Process) → Named p (map_code k i fs m p).1
unfolding map_code
map_code-Named zero i fs m p = (refl, refl, refl)
map_code-Named (suc k) i fs m p =
    map_code-Named k (i + 1) fs (store m (p.pt + 8 * i) (bit_or (get_or fs i 0) 5))
      (record p { code_frames = set p.code_frames i (get_or fs i 0) })

map_stack-Named : (left k : ℕ) (m : Machine) (p : Process) → Named p (map_stack left k m p).1
unfolding map_stack
map_stack-Named zero k m p = (refl, refl, refl)
map_stack-Named (suc left) k m p =
    let rest =
      map_stack-Named left (k + 1)
        (store (alloc_zero_frame m).0 (p.pt + 8 * stack_index k) (bit_or (alloc_zero_frame m).1 7))
        (record p { stk_pages = set p.stk_pages k (alloc_zero_frame m).1 }) in
    elim (Bool-cases ((alloc_zero_frame m).1 == 0)) [
      | inl e ↦ rw e (refl, refl, refl)
      | inr e ↦ rw e rest
    ]

map_pages-Named :
    (frames : Option (List ℕ)) (n : ℕ) (m : Machine) (p : Process)
    → Named p (map_pages frames n m p).1
unfolding map_pages
map_pages-Named none n m p = (refl, refl, refl)
map_pages-Named (some fs) n m p =
    map_code-Named (if ltb n user_code_max_pages then n else user_code_max_pages) 0 fs m p

Named-trans : (p q r : Process) → Named p q → Named q r → Named p r
Named-trans p q r (a, b, c) (a', b', c') = (a' ∙ a, b' ∙ b, c' ∙ c)

pub vm_new-Named : (m : Machine) (p : Process) → Named p (vm_new m p).1
unfolding vm_new vm_build vm_free alloc_tables
vm_new-Named m p =
    let t = alloc_tables m p in
    let c = map_pages none 0 (link_tables t.0 t.1) (record t.1 { user_code_pages = 0 }) in
    let s = map_stack user_stack_pages 0 c.0 c.1 in
    let made =
      Named-trans p c.1 s.1
        (map_pages-Named none 0 (link_tables t.0 t.1) (record t.1 { user_code_pages = 0 }))
        (map_stack-Named user_stack_pages 0 c.0 c.1) in
    elim (Bool-cases (lacks_table t.1)) [ inl e ↦ rw e (refl, refl, refl) | inr e ↦ rw e made ]
