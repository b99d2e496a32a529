-- ===== src/Fs/Examples.antt =====
-- The theorems on kernel/cofeufs.cpp at concrete inputs.
use cofeuos.Base.{
  ℕ, ◌+◌, ◌≡◌, Option, length, List, [], ◌∷◌, ◌%◌, arith, replicate, length-replicate, some,
  if◌then◌else◌, ◌==◌, true,
}
use cofeuos.Bitmap.Laws.{replicate-AllBytes}
use cofeuos.Fs.{Fs, Inode, no_bytes, zero_inode, nil, inode_read, inode_write}
use cofeuos.Fs.Space.{inode_free_blocks, block_alloc, bm_read, bm_flush}
use cofeuos.Fs.Calls.{new_super}
use cofeuos.Fs.Files.{write_inode}
use cofeuos.Fs.Paths.{resolve_from, resolve_loop}
use cofeuos.Fs.Blocks.{IsMap, block_alloc_lem, Allocated}
use cofeuos.Fs.Codec.{Alike, inode_read-write}
use cofeuos.Fs.Flush.{bm_read-flush}
use cofeuos.Fs.Pieces.{
  resolve_from_lem, resolve_loop_ends, follow, pieces, first, start_of, AllShort,
}
use cofeuos.Fs.Writing.{write_inode_lem, Outcome}

-- An empty disk that is mounted.
abbrev empty : Fs
empty = record { disk = λ l. no_bytes; super = new_super; bm = replicate 8192 0; mounted = true }

empty-IsMap : IsMap empty.bm
empty-IsMap = record { long = length-replicate {A = ℕ} 8192 0; bytes = replicate-AllBytes 8192 }

-- A file without blocks.
abbrev new_file : Inode
new_file = record zero_inode { type = 1; blocks = λ i. nil }

write_inode_lem_example :
    Outcome empty
      (inode_free_blocks empty new_file).0
      7
      (λ x. x % 251)
      20000
      (write_inode empty 7 new_file (λ x. x % 251) 20000)
write_inode_lem_example =
    write_inode_lem empty 7 new_file (λ x. x % 251) 20000 empty-IsMap (omega arith) (omega arith)
      (omega arith) (omega arith)

-- "//a/b/"
abbrev some_path : List ℕ
some_path = 47 ∷ 47 ∷ 97 ∷ 47 ∷ 98 ∷ 47 ∷ []

some_short : AllShort (pieces some_path)
unfolding pieces first
some_short = (omega arith, (omega arith, tt))

resolve_from_lem_example :
    resolve_from empty 3 (some some_path)
    ≡ follow empty (start_of empty 3 some_path) (pieces some_path)
resolve_from_lem_example = resolve_from_lem empty 3 some_path some_short

resolve_loop_ends_example :
    (o : Option ℕ) × ((j : ℕ) → resolve_loop (length some_path + 1 + j) empty 0 some_path ≡ some o)
resolve_loop_ends_example = resolve_loop_ends empty 0 some_path

inode_read-write_example :
    Alike
      (inode_read (inode_write empty 5 new_file) 6)
      (if 6 == 5 then new_file else inode_read empty 6)
inode_read-write_example = inode_read-write empty 5 6 new_file record {
  type = omega arith;
  rsv = omega arith;
  size = omega arith;
  blocks = λ i lt. omega arith;
}

block_alloc_lem_example : Allocated empty (block_alloc empty)
block_alloc_lem_example = block_alloc_lem empty

bm_read-flush_example : (bm_read (bm_flush empty)).bm ≡ empty.bm
bm_read-flush_example = bm_read-flush empty (length-replicate {A = ℕ} 8192 0)
