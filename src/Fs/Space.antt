-- ===== src/Fs/Space.antt =====
-- kernel/cofeufs.cpp: the bit map of the data blocks, and the blocks of an inode.
use cofeuos.Base.{
  ℕ, zero, suc, ◌+◌, ◌-◌, ◌*◌, ◌/◌, ◌%◌, not, ◌&&◌, ◌||◌, List, [], ◌∷◌, ◌++◌, Option, none, some,
  ltb, leb, ◌==◌, if◌then◌else◌, get_or,
}
use cofeuos.Bitmap.{test, mark, clear}
use cofeuos.Fs.{
  Fs, Inode, Bytes, byte, le32, paste, write, nil, bm_lba, bm_blocks, data_lba, data_count,
  max_direct, ind_ptrs, max_indirect,
}

-- The bytes of a sector from place `i` on.
unfoldable pub sector_list : ℕ → Bytes → ℕ → List ℕ
sector_list zero f i = []
sector_list (suc n) f i = f i ∷ sector_list n f (i + 1)

-- `bm_read` from sector `i` of the map on.
unfoldable pub bm_sectors : ℕ → Fs → ℕ → List ℕ
bm_sectors zero v i = []
bm_sectors (suc k) v i = sector_list 512 (v.disk (bm_lba + i)) 0 ++ bm_sectors k v (i + 1)

unfoldable pub bm_read : Fs → Fs
bm_read v = record v { bm = bm_sectors bm_blocks v 0 }

-- `bm_flush` from sector `i` of the map on.
unfoldable pub flush_from : ℕ → Fs → ℕ → Fs
flush_from zero v i = v
flush_from (suc k) v i =
    flush_from k (write v (bm_lba + i) (λ x. get_or v.bm (i * 512 + x) 0)) (i + 1)

unfoldable pub bm_flush : Fs → Fs
bm_flush v = flush_from bm_blocks v 0

-- The loop of `block_alloc`, with the rounds left.
unfoldable pub block_scan : List ℕ → ℕ → ℕ → Option ℕ
block_scan bm zero i = none
block_scan bm (suc k) i = let rest = block_scan bm k (i + 1) in if test bm i then rest else some i

abbrev pub take_block : Fs → Option ℕ → Fs × Option ℕ
take_block v none = (v, none)
take_block v (some i) = (record v { bm = mark v.bm i }, some i)

unfoldable pub block_alloc : Fs → Fs × Option ℕ
block_alloc v = take_block v (block_scan v.bm data_count 0)

unfoldable pub block_free : Fs → ℕ → Fs
block_free v n = if leb data_count n then v else record v { bm = clear v.bm n }

abbrev pub set_block : Inode → ℕ → ℕ → Inode
set_block d i b = record d { blocks = λ j. if i == j then b else d.blocks j }

-- The first loop of `inode_free_blocks`, from block `i` on.
unfoldable pub free_direct : ℕ → ℕ → Fs → Inode → Fs × Inode
free_direct zero i v d = (v, d)
free_direct (suc k) i v d =
    let b = d.blocks i in
    let there = not (b == nil) && ltb b data_count in
    free_direct k (i + 1) (if there then block_free v b else v)
      (if there then set_block d i nil else d)

-- The blocks that a table names, from pointer `j` on.
unfoldable pub free_pointers : ℕ → ℕ → Fs → Bytes → Fs
free_pointers zero j v sec = v
free_pointers (suc k) j v sec =
    let b = le32 sec (4 * j) in
    free_pointers k (j + 1) (if not (b == nil) && ltb b data_count then block_free v b else v) sec

-- Its second loop, from table `t` on.
unfoldable pub free_tables : ℕ → ℕ → Fs → Inode → Fs × Inode
free_tables zero t v d = (v, d)
free_tables (suc k) t v d =
    let tbl = d.blocks (max_direct + t) in
    let there = not (tbl == nil) && ltb tbl data_count in
    let freed = block_free (free_pointers ind_ptrs 0 v (v.disk (data_lba + tbl))) tbl in
    free_tables k (t + 1) (if there then freed else v)
      (if there then set_block d (max_direct + t) nil else d)

unfoldable pub inode_free_blocks : Fs → Inode → Fs × Inode
inode_free_blocks v d =
    let (v', d') = free_direct max_direct 0 v d in free_tables max_indirect 0 v' d'

abbrev pub inode_reset : Inode → Inode
inode_reset d = record d { blocks = λ i. nil }

-- Logical block `i`: its number, read from the disk if a table has it.
abbrev pub in_table : Fs → ℕ → ℕ → Option ℕ
in_table v tbl j =
    let b = le32 (v.disk (data_lba + tbl)) (4 * j) in
    if b == nil || leb data_count b then none else some b

unfoldable pub inode_block_at : Fs → Inode → ℕ → Option ℕ
inode_block_at v d i =
    let t = (i - max_direct) / ind_ptrs in
    let tbl = d.blocks (max_direct + t) in
    if ltb i max_direct
    then (if d.blocks i == nil then none else some (d.blocks i))
    else if leb max_indirect t
    then none
    else if tbl == nil || leb data_count tbl
    then none
    else in_table v tbl ((i - max_direct) % ind_ptrs)

-- The first of the numbers from place `i` on that is not there.
unfoldable pub slot_scan : ℕ → (ℕ → ℕ) → ℕ → Option ℕ
slot_scan zero f i = none
slot_scan (suc k) f i = let rest = slot_scan k f (i + 1) in if f i == nil then some i else rest

-- The result of `inode_map_next`: the file system, the inode, and the new block.
abbrev pub Mapping : Type 0
Mapping = Fs × Inode × Option ℕ

-- A new block goes into direct slot `i`.
abbrev pub fill_direct : Inode → ℕ → Fs × Option ℕ → Mapping
fill_direct d i (v, none) = (v, d, none)
fill_direct d i (v, some b) = (v, set_block d i b, some b)

-- A new block goes into place `j` of table `tbl`.
abbrev pub fill_pointer : Inode → ℕ → ℕ → Fs × Option ℕ → Mapping
fill_pointer d tbl j (v, none) = (v, d, none)
fill_pointer d tbl j (v, some b) = (
  write v (data_lba + tbl) (paste (v.disk (data_lba + tbl)) (4 * j) 4 (λ x. byte x b)),
  d,
  some b,
)

-- A new table, whose pointers are all not there.
abbrev pub make_table : Inode → ℕ → Fs × Option ℕ → Mapping
make_table d t (v, none) = (v, d, none)
make_table d t (v, some b) =
    (write v (data_lba + b) (λ x. 255), set_block d (max_direct + t) b, some b)

unfoldable pub table_for : Fs → Inode → ℕ → Mapping
table_for v d t =
    let tbl = d.blocks (max_direct + t) in
    if tbl == nil then make_table d t (block_alloc v) else (v, d, some tbl)

abbrev pub fill_or : Fs → Inode → ℕ → Option ℕ → Mapping → Mapping
fill_or v d tbl none rest = rest
fill_or v d tbl (some j) rest = fill_pointer d tbl j (block_alloc v)

abbrev pub use_table : Mapping → Mapping → Mapping
use_table (v, d, none) rest = (v, d, none)
use_table (v, d, some tbl) rest =
    if leb data_count tbl
    then (v, d, none)
    else fill_or v d tbl (slot_scan ind_ptrs (λ j. le32 (v.disk (data_lba + tbl)) (4 * j)) 0) rest

-- The loop over the tables, from table `t` on.
unfoldable pub map_tables : ℕ → ℕ → Fs → Inode → Mapping
map_tables zero t v d = (v, d, none)
map_tables (suc k) t v d =
    let m = table_for v d t in let rest = map_tables k (t + 1) m.0 m.1 in use_table m rest

abbrev pub map_direct_or : Fs → Inode → Option ℕ → Mapping
map_direct_or v d (some i) = fill_direct d i (block_alloc v)
map_direct_or v d none = map_tables max_indirect 0 v d

unfoldable pub inode_map_next : Fs → Inode → Mapping
inode_map_next v d = map_direct_or v d (slot_scan max_direct d.blocks 0)
