-- ===== src/Fs/Calls.antt =====
-- kernel/cofeufs.cpp: formatting, mounting, and the calls that the rest of the kernel makes.
use cofeuos.Base.{
  ℕ, zero, suc, ◌+◌, ◌-◌, ◌*◌, ◌/◌, ◌%◌, Bool, true, false, not, ◌||◌, List, [], ◌∷◌, Option, none,
  some, ltb, ◌==◌, if◌then◌else◌, replicate, get_or, add32,
}
use cofeuos.Bitmap.{mark}
use cofeuos.Fs.{
  Fs, Inode, DirEntry, SuperBlock, Bytes, no_bytes, paste, write, nil, sb_lba, bm_lba, bm_blocks,
  ino_lba, ino_blocks, data_lba, data_count, disk_blocks, ino_per_blk, ino_count, de_size, max_file,
  ft_free, ft_file, ft_dir, magic_text, text_from, name_bytes, zero_inode, zero_entry, entry_bytes,
  inode_read, inode_write, read_super, write_super,
}
use cofeuos.Fs.Space.{bm_read, bm_flush, block_alloc, set_block, inode_reset, inode_free_blocks}
use cofeuos.Fs.Dirs.{dir_used, dir_slot_read, dir_add, dot, dot_dot}
use cofeuos.Fs.Paths.{resolve_from, split_last}
use cofeuos.Fs.Files.{write_inode, read_inode, read_all}

-- The super block of a new file system.
abbrev pub new_super : SuperBlock
new_super = record {
  magic = λ i. get_or magic_text i 0;
  fs_start = sb_lba;
  fs_blocks = disk_blocks - sb_lba;
  bm_lba_at = bm_lba;
  bm_count = bm_blocks;
  ino_lba_at = ino_lba;
  ino_blocks_at = ino_blocks;
  data_lba_at = data_lba;
  data_blocks = data_count;
  inodes_per_blk = ino_per_blk;
  inodes = ino_count;
  root_ino = 0;
}

-- The first block of a directory, with the entries for it and for its parent.
abbrev pub dir_block : ℕ → ℕ → Bytes
dir_block ino parent =
    paste
      (paste no_bytes 0 de_size
        (entry_bytes (record zero_entry { ino = ino; type = ft_dir; name = name_bytes dot })))
      de_size de_size
      (entry_bytes (record zero_entry { ino = parent; type = ft_dir; name = name_bytes dot_dot }))

abbrev pub root_inode : Inode
root_inode = record zero_inode {
  name = name_bytes (47 ∷ []);
  type = ft_dir;
  size = 2 * de_size;
  blocks = λ i. if i == 0 then 0 else nil;
}

-- The sectors of the inode table, from sector `i` of it on, filled with 0.
unfoldable pub clear_inodes : ℕ → ℕ → Fs → Fs
clear_inodes zero i v = v
clear_inodes (suc k) i v = clear_inodes k (i + 1) (write v (ino_lba + i) no_bytes)

unfoldable pub format : Fs → Fs
format v =
    let v1 = clear_inodes ino_blocks 0 (record v { bm = replicate 8192 0; super = new_super }) in
    let v2 = inode_write (record v1 { bm = mark v1.bm 0 }) 0 root_inode in
    bm_flush (write_super (write v2 data_lba (dir_block 0 0)))

unfoldable pub resolve : Fs → ℕ → Option (List ℕ) → Option ℕ
resolve v base path = if v.mounted then resolve_from v base path else none

-- What `stat` and `list` tell of an entry.
pub record EntryInfo : Type 0 where
  pub type : ℕ
  pub size : ℕ
  pub name : Bytes

-- What `strncpy(to, from, 32); to[31] = 0` leaves.
abbrev pub name_copy : Bytes → Bytes
name_copy f = name_bytes (text_from 32 f 0)

abbrev pub info_of : Fs → Option ℕ → Option EntryInfo
info_of v none = none
info_of v (some ino) =
    let d = inode_read v ino in
    some (record { type = d.type % 256; size = d.size; name = name_copy d.name })

unfoldable pub stat : Fs → ℕ → Option (List ℕ) → Option EntryInfo
stat v base path = if v.mounted then info_of v (resolve_from v base path) else none

abbrev pub entry_info : Fs → DirEntry → EntryInfo
entry_info v e = record { type = e.type; size = (inode_read v e.ino).size; name = name_copy e.name }

abbrev pub info_then : Fs → Option DirEntry → List EntryInfo → List EntryInfo
info_then v none rest = []
info_then v (some e) rest = if e.ino == 0 then rest else entry_info v e ∷ rest

-- The loop of `list` from slot `i` on: what the callback is given.
unfoldable pub list_from : ℕ → ℕ → Fs → Inode → List EntryInfo
list_from zero i v d = []
list_from (suc k) i v d =
    let rest = list_from k (i + 1) v d in info_then v (dir_slot_read v d i) rest

abbrev pub list_dir : Fs → Option ℕ → List EntryInfo
list_dir v none = []
list_dir v (some ino) =
    let d = inode_read v ino in if d.type == ft_dir then list_from (dir_used d) 0 v d else []

unfoldable pub list : Fs → ℕ → Option (List ℕ) → List EntryInfo
list v base path = if v.mounted then list_dir v (resolve_from v base path) else []

-- The first inode from number `i` on that is free.
unfoldable pub free_inode : ℕ → ℕ → Fs → Option ℕ
free_inode zero i v = none
free_inode (suc k) i v =
    let rest = free_inode k (i + 1) v in if (inode_read v i).type == ft_free then some i else rest

-- A new inode, for a directory with its first block.
abbrev pub new_inode : List ℕ → ℕ → Inode
new_inode name type = inode_reset (record zero_inode { name = name_bytes name; type = type })

abbrev pub first_block : ℕ → ℕ → Inode → Fs × Option ℕ → Fs × Option Inode
first_block ino parent d (v, none) = (v, none)
first_block ino parent d (v, some b) = (
  write v (data_lba + b) (dir_block ino parent),
  some (record (set_block d 0 b) { size = 2 * de_size }),
)

abbrev pub prepare : Fs → ℕ → ℕ → List ℕ → Bool → Fs × Option Inode
prepare v ino parent name true = first_block ino parent (new_inode name ft_dir) (block_alloc v)
prepare v ino parent name false = (v, some (new_inode name ft_file))

-- An inode that could not be entered is given up.
abbrev pub enter_or_undo : ℕ → Inode → Fs × Bool → Fs × Bool
enter_or_undo ino d (v, true) = (v, true)
enter_or_undo ino d (v, false) = (inode_write (inode_free_blocks v d).0 ino zero_inode, false)

abbrev pub enter_inode : ℕ → ℕ → List ℕ → Fs × Option Inode → Fs × Bool
enter_inode ino parent name (v, none) = (v, false)
enter_inode ino parent name (v, some d) =
    enter_or_undo ino d (dir_add (inode_write v ino d) parent name ino d.type)

abbrev pub create_as : Fs → ℕ → List ℕ → Bool → Option ℕ → Fs × Bool
create_as v parent name is_dir none = (v, false)
create_as v parent name is_dir (some ino) =
    enter_inode ino parent name (prepare v ino parent name is_dir)

-- A path that leads somewhere already is refused.
abbrev pub create_new : Fs → Bool → Option (ℕ × List ℕ) → Option ℕ → Fs × Bool
create_new v is_dir none existing = (v, false)
create_new v is_dir (some (parent, name)) (some existing) = (v, false)
create_new v is_dir (some (parent, name)) none =
    create_as v parent name is_dir
      (free_inode (v.super.inodes - v.super.root_ino) v.super.root_ino v)

unfoldable pub create_inode : Fs → ℕ → Option (List ℕ) → Bool → Fs × Bool
create_inode v base path is_dir =
    if v.mounted
    then create_new v is_dir (split_last v base path) (resolve_from v base path)
    else (v, false)

unfoldable pub create_file : Fs → ℕ → Option (List ℕ) → Fs × Bool
create_file v base path = create_inode v base path false

unfoldable pub mkdir : Fs → ℕ → Option (List ℕ) → Fs × Bool
mkdir v base path = create_inode v base path true

abbrev pub system_dirs : List (List ℕ)
system_dirs =
    (116 ∷ 101 ∷ 109 ∷ 112 ∷ []) ∷ (115 ∷ 121 ∷ 115 ∷ []) ∷ (117 ∷ 115 ∷ 112 ∷ 99 ∷ []) ∷ []

abbrev pub ensure_dir : Fs → List ℕ → Option ℕ → Fs × Bool
ensure_dir v name (some ino) = (v, true)
ensure_dir v name none = mkdir v 0 (some name)

-- `ensure_system_dirs`
unfoldable pub ensure_dirs : Fs → List (List ℕ) → Fs × Bool
ensure_dirs v [] = (v, true)
ensure_dirs v (name ∷ names) =
    let made = ensure_dir v name (resolve v 0 (some name)) in
    let rest = ensure_dirs made.0 names in elim made.1 [ false ↦ (made.0, false) | true ↦ rest ]

abbrev pub mounted_at : Fs × Bool → Fs × Bool
mounted_at (v, false) = (v, false)
mounted_at (v, true) = ((ensure_dirs (record (bm_read v) { mounted = true }) system_dirs).0, true)

abbrev pub format_unless : Fs × Bool → Fs × Bool
format_unless (v, true) = (v, true)
format_unless (v, false) = read_super (format v)

unfoldable pub mount : Fs → Fs × Bool
mount v = mounted_at (format_unless (read_super v))

-- The inode that is written: the one at the path, or a new one.
abbrev pub created : ℕ → Option (List ℕ) → Fs × Bool → Fs × Option ℕ
created base path (v, false) = (v, none)
created base path (v, true) = (v, resolve_from v base path)

abbrev pub found_or_created : Fs → ℕ → Option (List ℕ) → Option ℕ → Fs × Option ℕ
found_or_created v base path (some ino) = (v, some ino)
found_or_created v base path none = created base path (create_file v base path)

abbrev pub write_found : Bytes → ℕ → Fs × Option ℕ → Fs × Bool
write_found src len (v, none) = (v, false)
write_found src len (v, some ino) =
    let d = inode_read v ino in
    if not (d.type == ft_file) || ltb max_file len then (v, false) else write_inode v ino d src len

unfoldable pub write_file : Fs → ℕ → Option (List ℕ) → Bytes → ℕ → Fs × Bool
write_file v base path src len =
    if v.mounted
    then write_found src len (found_or_created v base path (resolve_from v base path))
    else (v, false)

abbrev pub append_read : Fs → ℕ → Option (List ℕ) → Bytes → ℕ → ℕ → Option Bytes → Fs × Bool
append_read v base path src len cur none = (v, false)
append_read v base path src len cur (some tmp) =
    write_file v base path (paste tmp cur len src) (add32 cur len)

-- `tmp` is the buffer as the last call left it.
abbrev pub append_found : Fs → Bytes → ℕ → Option (List ℕ) → Bytes → ℕ → Option ℕ → Fs × Bool
append_found v tmp base path src len none = write_file v base path src len
append_found v tmp base path src len (some ino) =
    let d = inode_read v ino in
    if not (d.type == ft_file) || ltb max_file (add32 d.size len)
    then (v, false)
    else append_read v base path src len d.size (read_all ((d.size + 511) / 512) 0 v d tmp d.size)

unfoldable pub append_file : Fs → Bytes → ℕ → Option (List ℕ) → Bytes → ℕ → Fs × Bool
append_file v tmp base path src len =
    if v.mounted
    then append_found v tmp base path src len (resolve_from v base path)
    else (v, false)

abbrev pub read_found : Fs → Bytes → ℕ → Option ℕ → Option (Bytes × ℕ)
read_found v buf maxlen none = none
read_found v buf maxlen (some ino) =
    let d = inode_read v ino in if d.type == ft_file then read_inode v d buf maxlen else none

-- The buffer and the number of bytes that were read.
unfoldable pub read_file : Fs → ℕ → Option (List ℕ) → Bytes → ℕ → Option (Bytes × ℕ)
read_file v base path buf maxlen =
    if v.mounted then read_found v buf maxlen (resolve_from v base path) else none
