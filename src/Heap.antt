-- ===== src/Heap.antt =====
-- kernel/memory.cpp: the kernel heap, a free list in address order with a size header per block.
pub mod Blocks
pub mod Take
pub mod Insert
pub mod Join
pub mod Inv
pub mod Calls
pub mod Setup
pub mod Leak
mod Tests
use cofeuos.Base.{
  ℕ, zero, suc, ◌+◌, ◌-◌, ◌*◌, ◌/◌, ◌%◌, ◌^◌, Bool, true, false, not, ◌&&◌, ◌||◌, List, [], ◌∷◌,
  ◌++◌, Option, none, some, ltb, leb, ◌==◌, if◌then◌else◌, add64, sub64, mul64,
}
use cofeuos.Pmm
use cofeuos.Pmm.{Pmm}

-- The file's static variables, and of the memory the `size` field at every address. The chain of
-- `next` fields from `free_list` is the list of the addresses that it goes through.
pub record Heap : Type 0 where
  pub arena_start : ℕ
  pub arena_size : ℕ
  pub heap_used : ℕ
  pub free_list : List ℕ
  pub size_at : ℕ → ℕ

abbrev pub hdr : ℕ
hdr = 16

abbrev pub min_block : ℕ
min_block = hdr + 16

abbrev pub heap_pages : ℕ
heap_pages = 256

-- A write to the `size` field at address `a`.
abbrev pub update : (ℕ → ℕ) → ℕ → ℕ → ℕ → ℕ
update f a v x = if a == x then v else f x

unfoldable pub align8 : ℕ → ℕ
align8 n = add64 n 7 / 8 * 8

-- A block taken off the free list, the list without it, and the sizes.
pub record Taken : Type 0 where
  pub block : ℕ
  pub free_list : List ℕ
  pub size_at : ℕ → ℕ

-- The walk goes on behind block `b`.
abbrev pub behind : ℕ → Option Taken → Option Taken
behind b none = none
behind b (some t) = some (record t { free_list = b ∷ t.free_list })

unfoldable pub alloc_from : (ℕ → ℕ) → ℕ → List ℕ → Option Taken
alloc_from size need [] = none
alloc_from size need (b ∷ bs) =
    let later = behind b (alloc_from size need bs) in
    if leb need (size b)
    then (if leb min_block (sub64 (size b) need)
        then some (record {
          block = b;
          free_list = add64 b need ∷ bs;
          size_at = update (update size (add64 b need) (sub64 (size b) need)) b need;
        })
        else some (record { block = b; free_list = bs; size_at = update size b need }))
    else later

pub in_arena : Heap → ℕ → Bool
in_arena h b = leb h.arena_start b && leb (add64 b (h.size_at b)) (add64 h.arena_start h.arena_size)

-- The free list's part before the first block at or above `b`, and the rest.
pub below : ℕ → List ℕ → List ℕ
below b [] = []
below b (c ∷ cs) = if ltb c b then c ∷ below b cs else []

pub from : ℕ → List ℕ → List ℕ
from b [] = []
from b (c ∷ cs) = if ltb c b then from b cs else c ∷ cs

-- A list with the sizes that its blocks have.
pub record Linked : Type 0 where
  pub chain : List ℕ
  pub size_at : ℕ → ℕ

-- `b` in front of the rest, merged with the first block of it if that begins where `b` ends.
pub merge_right : (ℕ → ℕ) → ℕ → List ℕ → Linked
merge_right size b [] = record { chain = []; size_at = size }
merge_right size b (c ∷ cs) =
    if add64 b (size b) == c
    then record { chain = cs; size_at = update size b (add64 (size b) (size c)) }
    else record { chain = c ∷ cs; size_at = size }

-- The blocks before `b`, then `b` and the rest; the last block before `b` takes `b` in if it ends
-- where `b` begins.
pub merge_left : List ℕ → ℕ → Linked → Linked
merge_left [] b r = record r { chain = b ∷ r.chain }
merge_left (prev ∷ []) b r =
    if add64 prev (r.size_at prev) == b
    then record {
      chain = prev ∷ r.chain;
      size_at = update r.size_at prev (add64 (r.size_at prev) (r.size_at b));
    }
    else record r { chain = prev ∷ b ∷ r.chain }
merge_left (a ∷ prev ∷ before) b r =
    let rest = merge_left (prev ∷ before) b r in record rest { chain = a ∷ rest.chain }

pub insert_keep_coalesced : (ℕ → ℕ) → ℕ → List ℕ → Linked
insert_keep_coalesced size b l = merge_left (below b l) b (merge_right size b (from b l))

-- The size of the block that a request for `n` bytes takes.
unfoldable pub need_of : ℕ → ℕ
unfolding align8
need_of n =
    let rounded = align8 (if n == 0 then 1 else n) in
    add64 hdr (if ltb rounded 8 then 8 else rounded)

-- The value is the address handed out, or 0.
unfoldable pub kmalloc : Heap → ℕ → Heap × ℕ
kmalloc h n = elim (alloc_from h.size_at (need_of n) h.free_list) [
  | none ↦ (h, 0)
  | some t ↦ (
    record h {
      heap_used = add64 h.heap_used (need_of n);
      free_list = t.free_list;
      size_at = t.size_at;
    },
    add64 t.block hdr,
  )
]

pub kfree : Heap → ℕ → Heap
kfree h p =
    let b = sub64 p hdr in
    let l = insert_keep_coalesced h.size_at b h.free_list in
    if p == 0 then h else if not (in_arena h b) || not (h.size_at b % 8 == 0) then h else record h {
      heap_used = sub64 h.heap_used (h.size_at b);
      free_list = l.chain;
      size_at = l.size_at;
    }

-- `operator new` and `operator new[]`, and the four forms of `operator delete`.
pub operator_new : Heap → ℕ → Heap × ℕ
operator_new h n = kmalloc h n

pub operator_delete : Heap → ℕ → Heap
operator_delete h p = kfree h p

-- The pages that `kmalloc_init` asks for: 256, or half of the free ones if fewer are free.
unfoldable pub pages_wanted : Pmm → ℕ
pages_wanted p =
    let avail = Pmm.free_frames_count p in if ltb avail heap_pages then avail / 2 else heap_pages

-- The arena is the range that the frame manager handed out, one free block.
claim_arena : Heap → ℕ → Pmm × ℕ → Heap × Pmm
claim_arena h want (q, a) = if a == 0 then (h, q) else (
  record {
    arena_start = a;
    arena_size = mul64 want 4096;
    heap_used = 0;
    free_list = a ∷ [];
    size_at = update h.size_at a (mul64 want 4096);
  },
  q,
)

-- The frame manager is the second part of the state.
pub kmalloc_init : Heap → Pmm → Heap × Pmm
unfolding claim_arena
kmalloc_init h p =
    if not (h.arena_size == 0)
    then (h, p)
    else if pages_wanted p == 0
    then (h, p)
    else claim_arena h (pages_wanted p) (Pmm.alloc_range p (pages_wanted p))

pub kmem_used : Heap → ℕ
kmem_used h = h.heap_used % 2 ^ 32

pub kmem_capacity : Heap → ℕ
kmem_capacity h = h.arena_size % 2 ^ 32
