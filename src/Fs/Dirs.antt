-- ===== src/Fs/Dirs.antt =====
-- kernel/cofeufs.cpp: the entries of directories.
use cofeuos.Base.{
  ℕ, zero, suc, ◌+◌, ◌*◌, ◌/◌, ◌%◌, Bool, true, false, not, ◌&&◌, ◌||◌, List, [], ◌∷◌, Option, none,
  some, leb, ◌==◌, if◌then◌else◌, add32,
}
use cofeuos.Fs.{
  Fs, Inode, DirEntry, paste, no_bytes, write, nil, data_lba, max_blocks, de_size, de_per_blk,
  ft_dir, entry_of, entry_bytes, zero_entry, text_from, same_text, name_bytes, inode_read,
  inode_write,
}
use cofeuos.Fs.Space.{block_alloc, set_block, bm_flush}

abbrev pub dir_used : Inode → ℕ
dir_used d = d.size / de_size

-- The sector of a directory's block, and whether slot `s` has a block.
abbrev pub slot_lba : Inode → ℕ → ℕ
slot_lba d s = add32 data_lba (d.blocks (s / de_per_blk))

abbrev pub has_slot : Inode → ℕ → Bool
has_slot d s = not (leb max_blocks (s / de_per_blk)) && not (d.blocks (s / de_per_blk) == nil)

abbrev pub slot_place : ℕ → ℕ
slot_place s = s % de_per_blk * de_size

unfoldable pub dir_slot_read : Fs → Inode → ℕ → Option DirEntry
dir_slot_read v d s =
    if has_slot d s then some (entry_of (λ x. v.disk (slot_lba d s) (slot_place s + x))) else none

-- An entry put into slot `s`, which has a block.
abbrev pub put_slot : Fs → Inode → ℕ → DirEntry → Fs
put_slot v d s e =
    write v (slot_lba d s) (paste (v.disk (slot_lba d s)) (slot_place s) de_size (entry_bytes e))

unfoldable pub dir_slot_write : Fs → Inode → ℕ → DirEntry → Fs × Bool
dir_slot_write v d s e = if has_slot d s then (put_slot v d s e, true) else (v, false)

abbrev pub entry_text : DirEntry → List ℕ
entry_text e = text_from 32 e.name 0

abbrev pub dot : List ℕ
dot = 46 ∷ []

abbrev pub dot_dot : List ℕ
dot_dot = 46 ∷ 46 ∷ []

-- The two tests of `dir_find`, of which the second lets ".." name inode 0.
unfoldable pub is_named : List ℕ → DirEntry → Bool
is_named name e =
    not (e.ino == 0) && same_text (entry_text e) name
    || same_text name dot_dot && same_text (entry_text e) dot_dot

abbrev pub found_or : List ℕ → ℕ → Option DirEntry → Option (DirEntry × ℕ) → Option (DirEntry × ℕ)
found_or name i none rest = none
found_or name i (some e) rest = if is_named name e then some (e, i) else rest

-- The loop of `dir_find` from slot `i` on, with the rounds left.
unfoldable pub find_from : ℕ → ℕ → Fs → Inode → List ℕ → Option (DirEntry × ℕ)
find_from zero i v d name = none
find_from (suc k) i v d name =
    let rest = find_from k (i + 1) v d name in found_or name i (dir_slot_read v d i) rest

unfoldable pub dir_find : Fs → Inode → List ℕ → Option (DirEntry × ℕ)
dir_find v d name = find_from (dir_used d) 0 v d name

abbrev pub free_or : ℕ → Option DirEntry → Option (DirEntry × ℕ) → Option (DirEntry × ℕ)
free_or i none rest = none
free_or i (some e) rest = if e.ino == 0 && e.name 0 == 0 then some (e, i) else rest

-- The loop of `dir_add` for a slot that is free.
unfoldable pub free_from : ℕ → ℕ → Fs → Inode → Option (DirEntry × ℕ)
free_from zero i v d = none
free_from (suc k) i v d = let rest = free_from k (i + 1) v d in free_or i (dir_slot_read v d i) rest

abbrev pub new_entry : DirEntry → List ℕ → ℕ → ℕ → DirEntry
new_entry e name newino type = record e { ino = newino; type = type % 256; name = name_bytes name }

-- A block for the slot behind the last, if there is none.
abbrev pub grow_dir : Inode → ℕ → Fs × Option ℕ → Fs × Option Inode
grow_dir d blk (v, none) = (v, none)
grow_dir d blk (v, some b) = (write v (data_lba + b) no_bytes, some (set_block d blk b))

abbrev pub with_block : Fs → Inode → ℕ → Fs × Option Inode
with_block v d blk = if d.blocks blk == nil then grow_dir d blk (block_alloc v) else (v, some d)

-- The entry behind the last one, the directory's new size, and the bit map to the disk.
abbrev pub append_entry : ℕ → List ℕ → ℕ → ℕ → Fs × Option Inode → Fs × Bool
append_entry dirino name newino type (v, none) = (v, false)
append_entry dirino name newino type (v, some d) =
    let v1 = put_slot v d (dir_used d) (new_entry zero_entry name newino type) in
    (bm_flush (inode_write v1 dirino (record d { size = add32 d.size de_size })), true)

abbrev pub add_at : Fs → ℕ → Inode → List ℕ → ℕ → ℕ → Option (DirEntry × ℕ) → Fs × Bool
add_at v dirino d name newino type (some (e, i)) =
    dir_slot_write v d i (new_entry e name newino type)
add_at v dirino d name newino type none =
    let blk = dir_used d / de_per_blk in
    if leb max_blocks blk
    then (v, false)
    else append_entry dirino name newino type (with_block v d blk)

unfoldable pub dir_add : Fs → ℕ → List ℕ → ℕ → ℕ → Fs × Bool
dir_add v dirino name newino type =
    let d = inode_read v dirino in
    if not (d.type == ft_dir)
    then (v, false)
    else add_at v dirino d name newino type (free_from (dir_used d) 0 v d)

abbrev pub remove_at : Fs → Inode → Option (DirEntry × ℕ) → Fs × Bool
remove_at v d none = (v, false)
remove_at v d (some (e, i)) = dir_slot_write v d i zero_entry

unfoldable pub dir_remove : Fs → ℕ → List ℕ → Fs × Bool
dir_remove v dirino name =
    let d = inode_read v dirino in
    if not (d.type == ft_dir) then (v, false) else remove_at v d (dir_find v d name)
