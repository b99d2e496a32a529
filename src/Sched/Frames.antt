-- ===== src/Sched/Frames.antt =====
-- The frames on kernel stacks from which kernel/sched.cpp starts processes.
use cofeuos.Base.{
  ℕ, zero, suc, ◌+◌, ◌-◌, ◌*◌, ◌<◌, ◌≤◌, ◌≡◌, refl, sym, ap, ◌∙◌, ◌||◌, List, [], ◌∷◌, arith, ◌==◌,
  if◌then◌else◌, length, get_or, replicate,
}
use cofeuos.Sched.{Machine, kstack_size}
use cofeuos.Sched.Space.{store, user_stack_top}
use cofeuos.Sched.Switch.{reg, off_rax}
use cofeuos.Sched.Life.{push_all, initial_context, fork_context, child_regs, ucs, uds}

push_all-sp : (m : Machine) (sp : ℕ) (vs : List ℕ) → (push_all m sp vs).1 ≡ sp - 8 * length vs
unfolding push_all
push_all-sp m sp [] = omega arith
push_all-sp m sp (v ∷ vs) = omega (arith, push_all-sp (store m (sp - 8) v) (sp - 8) vs)

-- Pushes write below the stack pointer.
push_all-above :
    (m : Machine) (sp a : ℕ) (vs : List ℕ)
    → 8 * length vs ≤ sp
    → sp ≤ a
    → (push_all m sp vs).0.mem a ≡ m.mem a
unfolding push_all
push_all-above m sp a [] room le = refl
push_all-above m sp a (v ∷ vs) room le =
    push_all-above (store m (sp - 8) v) (sp - 8) a vs (omega arith) (omega arith) ∙ ground arith

push_all-at :
    (m : Machine) (sp j : ℕ) (vs : List ℕ)
    → 8 * length vs ≤ sp
    → j < length vs
    → (push_all m sp vs).0.mem (sp - 8 * (j + 1)) ≡ get_or vs j 0
unfolding push_all
push_all-at m sp j [] room lt = absurd (omega arith)
push_all-at m sp zero (v ∷ vs) room lt =
    push_all-above (store m (sp - 8) v) (sp - 8) (sp - 8) vs (omega arith) (omega arith)
    ∙ ground arith
push_all-at m sp (suc j) (v ∷ vs) room lt =
    let e : sp - 8 * (suc j + 1) ≡ sp - 8 - 8 * (j + 1) = omega arith in
    ap (push_all m sp (v ∷ vs)).0.mem e
    ∙ push_all-at (store m (sp - 8) v) (sp - 8) j vs (omega arith) (omega arith)

-- A register of the frame of 22 words that is pushed from `sp` on.
frame-reg :
    (m : Machine) (sp i : ℕ) (vs : List ℕ)
    → 8 * length vs ≤ sp
    → length vs ≡ 22
    → i < 22
    → reg (push_all m sp vs).0 (push_all m sp vs).1 i ≡ get_or vs (21 - i) 0
frame-reg m sp i vs room len lt =
    let e : (push_all m sp vs).1 + 8 * i ≡ sp - 8 * (21 - i + 1) =
      omega (arith, push_all-sp m sp vs) in
    ap (push_all m sp vs).0.mem e ∙ push_all-at m sp (21 - i) vs room (omega arith)

-- The frame of a process that starts at `entry`.
abbrev pub first_reg : ℕ → ℕ → ℕ
first_reg entry i =
    if i == 17
    then entry
    else if i == 18
    then ucs
    else if i == 19
    then 0x202
    else if i == 20
    then user_stack_top
    else if i == 21
    then uds
    else 0

zeros : (n j : ℕ) → get_or {A = ℕ} (replicate n 0) j 0 ≡ 0
zeros zero j = refl
zeros (suc n) zero = refl
zeros (suc n) (suc j) = zeros n j

first_words : ℕ → List ℕ
first_words entry = uds ∷ user_stack_top ∷ 0x202 ∷ ucs ∷ entry ∷ 0 ∷ 0 ∷ replicate 15 0

first_words-at : (entry j : ℕ) → j < 22 → get_or (first_words entry) j 0 ≡ first_reg entry (21 - j)
unfolding first_words
first_words-at entry zero lt = refl
first_words-at entry (suc zero) lt = refl
first_words-at entry (suc (suc zero)) lt = refl
first_words-at entry (suc (suc (suc zero))) lt = refl
first_words-at entry (suc (suc (suc (suc zero)))) lt = refl
first_words-at entry (suc (suc (suc (suc (suc zero))))) lt = refl
first_words-at entry (suc (suc (suc (suc (suc (suc zero)))))) lt = refl
first_words-at entry (suc (suc (suc (suc (suc (suc (suc j))))))) lt = ground (arith, zeros 15 j)

-- A frame that begins at the stack's top less 22 words, and what its registers are.
abbrev pub IsFrame : ℕ → (ℕ → ℕ) → Machine × ℕ → Type 0
IsFrame k regs r = (r.1 ≡ k + kstack_size - 176) × ((i : ℕ) → i < 22 → reg r.0 r.1 i ≡ regs i)

-- `build_initial_context` puts a frame on top of the kernel stack that returns to the entry point in
-- user mode, with interrupts on, at the top of the user's stack and with all other registers 0.
pub initial_context_lem :
    (m : Machine) (k entry : ℕ) → IsFrame k (first_reg entry) (initial_context m k entry)
unfolding initial_context first_words
initial_context_lem m k entry =
    let vs = first_words entry in
    (
      push_all-sp m (k + kstack_size) vs,
      λ i lt.
          let e : 21 - (21 - i) ≡ i = omega arith in
          frame-reg m (k + kstack_size) i vs (omega arith) refl lt
          ∙ first_words-at entry (21 - i) (omega arith)
          ∙ ap (first_reg entry) e,
    )

-- The frame of a child whose parent was interrupted at the frame `pr`.
abbrev pub child_reg : Machine → ℕ → ℕ → ℕ
child_reg m pr i = if i == off_rax || i == 15 || i == 16 then 0 else reg m pr i

length-child_regs : (m : Machine) (pr n : ℕ) → length (child_regs m pr n) ≡ n
unfolding child_regs
length-child_regs m pr zero = refl
length-child_regs m pr (suc n) = omega (arith, length-child_regs m pr n)

child_regs-at :
    (m : Machine) (pr n j : ℕ)
    → n < 16
    → j < n
    → get_or (child_regs m pr n) j 0 ≡ child_reg m pr (n - 1 - j)
unfolding child_regs
child_regs-at m pr zero j small lt = absurd (omega arith)
child_regs-at m pr (suc n) zero small lt =
    let e : suc n - 1 - 0 ≡ n = omega arith in ground arith ∙ ap (child_reg m pr) (sym e)
child_regs-at m pr (suc n) (suc j) small lt =
    let e : n - 1 - j ≡ suc n - 1 - suc j = omega arith in
    child_regs-at m pr n j (omega arith) (omega arith) ∙ ap (child_reg m pr) e

fork_words : Machine → ℕ → List ℕ
fork_words m pr =
    reg m pr 21 ∷ reg m pr 20 ∷ reg m pr 19 ∷ reg m pr 18 ∷ reg m pr 17 ∷ 0 ∷ 0 ∷ child_regs m pr 15

fork_words-at :
    (m : Machine) (pr j : ℕ) → j < 22 → get_or (fork_words m pr) j 0 ≡ child_reg m pr (21 - j)
unfolding fork_words
fork_words-at m pr zero lt = refl
fork_words-at m pr (suc zero) lt = refl
fork_words-at m pr (suc (suc zero)) lt = refl
fork_words-at m pr (suc (suc (suc zero))) lt = refl
fork_words-at m pr (suc (suc (suc (suc zero)))) lt = refl
fork_words-at m pr (suc (suc (suc (suc (suc zero))))) lt = refl
fork_words-at m pr (suc (suc (suc (suc (suc (suc zero)))))) lt = refl
fork_words-at m pr (suc (suc (suc (suc (suc (suc (suc j))))))) lt =
    let e : 15 - 1 - j ≡ 21 - suc (suc (suc (suc (suc (suc (suc j)))))) = omega arith in
    child_regs-at m pr 15 j (omega arith) (omega arith) ∙ ap (child_reg m pr) e

-- `build_fork_context` puts a frame on top of the child's kernel stack that has the parent's registers,
-- but 0 in RAX, in the vector and in the error code.
pub fork_context_lem : (m : Machine) (k pr : ℕ) → IsFrame k (child_reg m pr) (fork_context m k pr)
unfolding fork_context fork_words
fork_context_lem m k pr =
    let vs = fork_words m pr in
    let len : length vs ≡ 22 = omega (arith, length-child_regs m pr 15) in
    (
      omega (arith, push_all-sp m (k + kstack_size) vs, len),
      λ i lt.
          let e : 21 - (21 - i) ≡ i = omega arith in
          frame-reg m (k + kstack_size) i vs (omega (arith, len)) len lt
          ∙ fork_words-at m pr (21 - i) (omega arith)
          ∙ ap (child_reg m pr) e,
    )
