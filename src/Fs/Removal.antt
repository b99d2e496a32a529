-- ===== src/Fs/Removal.antt =====
-- kernel/cofeufs.cpp: removing files and whole directories.
use cofeuos.Base.{
  ℕ, zero, suc, ◌+◌, Bool, true, false, not, ◌&&◌, ◌||◌, List, Option, none, some, ◌==◌,
  if◌then◌else◌,
}
use cofeuos.Fs.{
  Fs, Inode, DirEntry, ft_dir, ino_count, same_text, zero_inode, inode_read, inode_write,
}
use cofeuos.Fs.Space.{inode_free_blocks, bm_flush}
use cofeuos.Fs.Dirs.{dir_used, dir_slot_read, dir_find, dir_remove, entry_text, dot, dot_dot}
use cofeuos.Fs.Paths.{split_last}

-- An entry that stands for no child.
abbrev pub is_no_child : DirEntry → Bool
is_no_child e = e.ino == 0 || same_text (entry_text e) dot || same_text (entry_text e) dot_dot

abbrev pub child_then : (Fs → ℕ → Fs) → Fs → Option DirEntry → (Fs → Fs) → Fs
child_then remove v none rest = v
child_then remove v (some e) rest = rest (if is_no_child e then v else remove v e.ino)

-- The loop over the children of `d` from slot `i` on, where `remove` removes one.
unfoldable pub remove_children : (Fs → ℕ → Fs) → ℕ → ℕ → Fs → Inode → Fs
remove_children remove zero i v d = v
remove_children remove (suc k) i v d =
    child_then remove v (dir_slot_read v d i) (λ v'. remove_children remove k (i + 1) v' d)

-- The blocks of an inode and the inode itself, with its children if it is a directory.
abbrev pub remove_node : (Fs → ℕ → Fs) → Fs → ℕ → Fs
remove_node remove v ino =
    let child = inode_read v ino in
    let emptied =
      if child.type == ft_dir then remove_children remove (dir_used child) 0 v child else v in
    inode_write (inode_free_blocks emptied child).0 ino zero_inode

-- `remove_inode_by_ino`, to a depth of directories.
unfoldable pub remove_inode_by_ino : ℕ → Fs → ℕ → Fs
remove_inode_by_ino zero v ino = v
remove_inode_by_ino (suc depth) v ino =
    if v.mounted then remove_node (remove_inode_by_ino depth) v ino else v

abbrev pub remove_found : Fs → ℕ → List ℕ → Bool → Option (DirEntry × ℕ) → Fs × Bool
remove_found v dirino name recursive none = (v, false)
remove_found v dirino name recursive (some (e, i)) =
    if e.type == ft_dir && not recursive then (v, false) else (
      bm_flush (dir_remove (remove_node (remove_inode_by_ino ino_count) v e.ino) dirino name).0,
      true,
    )

unfoldable pub remove_inode_recursive : Fs → ℕ → List ℕ → Bool → Fs × Bool
remove_inode_recursive v dirino name recursive =
    let d = inode_read v dirino in
    if not (d.type == ft_dir)
    then (v, false)
    else remove_found v dirino name recursive (dir_find v d name)

abbrev pub remove_split : Fs → Bool → Option (ℕ × List ℕ) → Fs × Bool
remove_split v recursive none = (v, false)
remove_split v recursive (some (parent, name)) =
    if same_text name dot || same_text name dot_dot
    then (v, false)
    else remove_inode_recursive v parent name recursive

unfoldable pub remove_file : Fs → ℕ → Option (List ℕ) → Bool → Fs × Bool
remove_file v base path recursive =
    if v.mounted then remove_split v recursive (split_last v base path) else (v, false)
