-- ===== src/Fs/Tests.antt =====
-- Runs of kernel/cofeufs.cpp from an empty disk.
use cofeuos.Fs.Removal.{remove_children, remove_inode_by_ino, remove_inode_recursive, remove_file}
use cofeuos.Base.{Bool, ◌%◌, ℕ, ◌≡◌, refl, true, false, some, none, [], ◌∷◌, List, Option}
use cofeuos.Bitmap.{test, mark, clear, byte_test, byte_mark, byte_clear}
use cofeuos.Bitmap.{test, mark, clear, byte_test, byte_mark, byte_clear}
use cofeuos.Fs.{
  Bytes, Fs, no_bytes, text_from, same_text, inode_read, inode_write, read_super, write_super,
  same_bytes,
}
use cofeuos.Fs.Space.{
  sector_list, bm_sectors, bm_read, flush_from, bm_flush, block_scan, block_alloc, block_free,
  free_direct, free_pointers, free_tables, inode_free_blocks, inode_block_at, slot_scan, table_for,
  map_tables, inode_map_next,
}
use cofeuos.Fs.Dirs.{
  dir_slot_read, dir_slot_write, is_named, find_from, dir_find, free_from, dir_add, dir_remove,
}
use cofeuos.Fs.Paths.{
  take_comp, skip_slashes, walk, resolve_loop, resolve_from, at_last_slash, split_last,
}
use cofeuos.Fs.Files.{write_file_abort, map_all, store_all, write_inode, read_all, read_inode}
use cofeuos.Fs.Calls.{
  clear_inodes, format, resolve, mount, new_super, ensure_dirs, free_inode, create_inode,
  create_file, mkdir, write_file, append_file, read_file,
}

abbrev raw : Fs
raw = record { disk = λ l. no_bytes; super = new_super; bm = []; mounted = false }

abbrev fresh : Fs
fresh = (mount raw).0

-- "/uspc"
abbrev uspc : List ℕ
uspc = 47 ∷ 117 ∷ 115 ∷ 112 ∷ 99 ∷ []

mount_runs : ((mount raw).1 ≡ true) × (resolve fresh 0 (some uspc) ≡ some 3)
unfolding same_bytes read_super write_super inode_read inode_write text_from same_text sector_list
    bm_sectors bm_read flush_from bm_flush block_scan block_alloc block_free free_direct
    free_pointers free_tables inode_free_blocks inode_block_at slot_scan table_for map_tables
    inode_map_next dir_slot_read dir_slot_write is_named find_from dir_find free_from dir_add
    dir_remove take_comp skip_slashes walk resolve_loop resolve_from at_last_slash split_last
    write_file_abort map_all store_all write_inode read_all read_inode clear_inodes format resolve
    mount ensure_dirs free_inode create_inode create_file mkdir write_file append_file read_file
    test mark byte_test byte_mark
mount_runs = (refl, refl)

-- 600 bytes written to "/uspc/a", two of them read back, and removed.
abbrev file : List ℕ
file = 47 ∷ 117 ∷ 115 ∷ 112 ∷ 99 ∷ 47 ∷ 97 ∷ []

abbrev written : Fs × Bool
written = write_file fresh 0 (some file) (λ x. x % 251) 600

abbrev byte_read : ℕ → Option (Bytes × ℕ) → Option (ℕ × ℕ)
byte_read i none = none
byte_read i (some (buf, n)) = some (buf i, n)

write_runs :
    (written.1 ≡ true)
    × (byte_read 520 (read_file written.0 0 (some file) no_bytes 1000) ≡ some (18, 600))
unfolding same_bytes read_super write_super inode_read inode_write text_from same_text sector_list
    bm_sectors bm_read flush_from bm_flush block_scan block_alloc block_free free_direct
    free_pointers free_tables inode_free_blocks inode_block_at slot_scan table_for map_tables
    inode_map_next dir_slot_read dir_slot_write is_named find_from dir_find free_from dir_add
    dir_remove take_comp skip_slashes walk resolve_loop resolve_from at_last_slash split_last
    write_file_abort map_all store_all write_inode read_all read_inode clear_inodes format resolve
    mount ensure_dirs free_inode create_inode create_file mkdir write_file append_file read_file
    test mark byte_test byte_mark
write_runs = (refl, refl)

removed : Fs × Bool
removed = remove_file written.0 0 (some uspc) true

remove_runs :
    (removed.1 ≡ true) × (resolve removed.0 0 (some file) ≡ none) × (test removed.0.bm 5 ≡ false)
unfolding removed same_bytes read_super write_super inode_read inode_write text_from same_text
    sector_list bm_sectors bm_read flush_from bm_flush block_scan block_alloc block_free free_direct
    free_pointers free_tables inode_free_blocks inode_block_at slot_scan table_for map_tables
    inode_map_next dir_slot_read dir_slot_write is_named find_from dir_find free_from dir_add
    dir_remove take_comp skip_slashes walk resolve_loop resolve_from at_last_slash split_last
    write_file_abort map_all store_all write_inode read_all read_inode clear_inodes format resolve
    mount ensure_dirs free_inode create_inode create_file mkdir write_file append_file read_file
    test mark byte_test byte_mark remove_children remove_inode_by_ino remove_inode_recursive
    remove_file clear byte_clear
remove_runs = (refl, refl, refl)
