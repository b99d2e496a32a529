-- ===== src/Fs.antt =====
-- kernel/cofeufs.cpp: the layout of the disk, the records on it, and the file system's variables.
pub mod Space
pub mod Dirs
pub mod Paths
pub mod Files
pub mod Calls
pub mod Removal
pub mod Codec
pub mod Blocks
pub mod Layout
pub mod Growth
pub mod Contents
pub mod RoundTrip
pub mod Release
pub mod Slots
pub mod Tables
pub mod Undo
pub mod Writing
pub mod Flush
pub mod Pieces
mod Tests
mod Examples
use cofeuos.Base.{
  ℕ, zero, suc, ◌+◌, ◌-◌, ◌*◌, ◌/◌, ◌%◌, ◌^◌, Bool, true, false, not, ◌&&◌, List, [], ◌∷◌, ltb, leb,
  ◌==◌, if◌then◌else◌, get_or,
}

abbrev pub sb_lba : ℕ
sb_lba = 2048

abbrev pub bm_lba : ℕ
bm_lba = 2050

abbrev pub bm_blocks : ℕ
bm_blocks = 16

abbrev pub ino_lba : ℕ
ino_lba = 2066

abbrev pub ino_blocks : ℕ
ino_blocks = 64

abbrev pub data_lba : ℕ
data_lba = 2130

abbrev pub disk_blocks : ℕ
disk_blocks = 67584

abbrev pub data_count : ℕ
data_count = disk_blocks - data_lba

abbrev pub ft_free : ℕ
ft_free = 0

abbrev pub ft_file : ℕ
ft_file = 1

abbrev pub ft_dir : ℕ
ft_dir = 2

abbrev pub ino_size : ℕ
ino_size = 128

abbrev pub ino_per_blk : ℕ
ino_per_blk = 4

abbrev pub ino_count : ℕ
ino_count = 256

abbrev pub max_direct : ℕ
max_direct = 20

abbrev pub ind_ptrs : ℕ
ind_ptrs = 128

abbrev pub max_indirect : ℕ
max_indirect = 2

abbrev pub max_blocks : ℕ
max_blocks = 22

abbrev pub max_file : ℕ
max_file = 141312

abbrev pub de_size : ℕ
de_size = 40

abbrev pub de_per_blk : ℕ
de_per_blk = 12

-- The mark of a block number that is not there.
abbrev pub nil : ℕ
nil = 0xffffffff

-- Bytes by their places: a sector, a record in memory, the contents of a file.
abbrev pub Bytes : Type 0
Bytes = ℕ → ℕ

-- The sector at each logical block address.
abbrev pub Disk : Type 0
Disk = ℕ → Bytes

-- Byte number `k` of a number, lowest first, and the numbers of two and of four bytes at `o`.
abbrev pub byte : ℕ → ℕ → ℕ
byte k v =
    if k == 0
    then v % 256
    else if k == 1
    then v / 256 % 256
    else if k == 2
    then v / 65536 % 256
    else v / 16777216 % 256

abbrev pub le16 : Bytes → ℕ → ℕ
le16 f o = f o + 256 * f (o + 1)

abbrev pub le32 : Bytes → ℕ → ℕ
le32 f o = f o + 256 * f (o + 1) + 65536 * f (o + 2) + 16777216 * f (o + 3)

abbrev pub no_bytes : Bytes
no_bytes x = 0

-- `n` bytes of `src` over those of `dst` from place `o` on.
abbrev pub paste : Bytes → ℕ → ℕ → Bytes → Bytes
paste dst o n src x = if leb o x && ltb x (o + n) then src (x - o) else dst x

-- The text before the first 0 of at most `n` bytes from place `i` on.
pub text_from : ℕ → Bytes → ℕ → List ℕ
text_from zero f i = []
text_from (suc n) f i = let rest = text_from n f (i + 1) in if f i == 0 then [] else f i ∷ rest

-- `strcmp(a, b) == 0`
unfoldable pub same_text : List ℕ → List ℕ → Bool
same_text [] [] = true
same_text [] (b ∷ bs) = false
same_text (a ∷ as') [] = false
same_text (a ∷ as') (b ∷ bs) = a == b && same_text as' bs

-- What `strncpy(d, name, 31); d[31] = 0` leaves in 32 bytes.
abbrev pub name_bytes : List ℕ → Bytes
name_bytes name i = if ltb i 31 then get_or name i 0 else 0

pub record SuperBlock : Type 0 where
  pub magic : Bytes
  pub fs_start : ℕ
  pub fs_blocks : ℕ
  pub bm_lba_at : ℕ
  pub bm_count : ℕ
  pub ino_lba_at : ℕ
  pub ino_blocks_at : ℕ
  pub data_lba_at : ℕ
  pub data_blocks : ℕ
  pub inodes_per_blk : ℕ
  pub inodes : ℕ
  pub root_ino : ℕ

pub record Inode : Type 0 where
  pub name : Bytes
  pub type : ℕ
  pub rsv : ℕ
  pub size : ℕ
  pub blocks : ℕ → ℕ

pub record DirEntry : Type 0 where
  pub ino : ℕ
  pub name : Bytes
  pub type : ℕ
  pub pad : Bytes

-- The records as they lie in memory and on the disk.
abbrev pub words_of : SuperBlock → List ℕ
words_of s =
    s.fs_start ∷ s.fs_blocks ∷ s.bm_lba_at ∷ s.bm_count ∷ s.ino_lba_at ∷ s.ino_blocks_at
    ∷ s.data_lba_at ∷ s.data_blocks ∷ s.inodes_per_blk ∷ s.inodes ∷ s.root_ino ∷ []

abbrev pub super_bytes : SuperBlock → Bytes
super_bytes s x =
    if ltb x 8 then s.magic x else byte ((x - 8) % 4) (get_or (words_of s) ((x - 8) / 4) 0)

abbrev pub super_of : Bytes → SuperBlock
super_of f = record {
  magic = f;
  fs_start = le32 f 8;
  fs_blocks = le32 f 12;
  bm_lba_at = le32 f 16;
  bm_count = le32 f 20;
  ino_lba_at = le32 f 24;
  ino_blocks_at = le32 f 28;
  data_lba_at = le32 f 32;
  data_blocks = le32 f 36;
  inodes_per_blk = le32 f 40;
  inodes = le32 f 44;
  root_ino = le32 f 48;
}

abbrev pub inode_bytes : Inode → Bytes
inode_bytes d x =
    if ltb x 32
    then d.name x
    else if ltb x 34
    then byte (x - 32) d.type
    else if ltb x 36
    then byte (x - 34) d.rsv
    else if ltb x 40
    then byte (x - 36) d.size
    else byte ((x - 40) % 4) (d.blocks ((x - 40) / 4))

abbrev pub inode_of : Bytes → Inode
inode_of f = record {
  name = f;
  type = le16 f 32;
  rsv = le16 f 34;
  size = le32 f 36;
  blocks = λ i. le32 f (40 + 4 * i);
}

abbrev pub entry_bytes : DirEntry → Bytes
entry_bytes e x =
    if ltb x 4
    then byte x e.ino
    else if ltb x 36
    then e.name (x - 4)
    else if x == 36
    then e.type % 256
    else e.pad (x - 37)

abbrev pub entry_of : Bytes → DirEntry
entry_of f = record { ino = le32 f 0; name = λ i. f (4 + i); type = f 36; pad = λ i. f (37 + i) }

-- What `memset` leaves of an inode and of an entry.
abbrev pub zero_inode : Inode
zero_inode = record { name = no_bytes; type = 0; rsv = 0; size = 0; blocks = λ i. 0 }

abbrev pub zero_entry : DirEntry
zero_entry = record { ino = 0; name = no_bytes; type = 0; pad = no_bytes }

-- The file's variables and the disk. The buffer `sec` is left out: each use fills it first.
pub record Fs : Type 0 where
  pub disk : Disk
  pub super : SuperBlock
  pub bm : List ℕ
  pub mounted : Bool

-- A sector written.
abbrev pub write : Fs → ℕ → Bytes → Fs
write v lba f = record v { disk = λ l. if l == lba then f else v.disk l }

-- `read_super`, with whether the magic fits.
abbrev pub magic_text : List ℕ
magic_text = 67 ∷ 79 ∷ 70 ∷ 69 ∷ 85 ∷ 70 ∷ 83 ∷ 49 ∷ []

pub same_bytes : Bytes → ℕ → List ℕ → Bool
same_bytes f i [] = true
same_bytes f i (b ∷ bs) = f i == b && same_bytes f (i + 1) bs

pub read_super : Fs → Fs × Bool
read_super v =
    (record v { super = super_of (v.disk sb_lba) }, same_bytes (v.disk sb_lba) 0 magic_text)

pub write_super : Fs → Fs
write_super v = write v sb_lba (paste no_bytes 0 64 (super_bytes v.super))

pub inode_read : Fs → ℕ → Inode
inode_read v n =
    let sec = v.disk (ino_lba + n / ino_per_blk) in
    inode_of (λ x. sec (n % ino_per_blk * ino_size + x))

pub inode_write : Fs → ℕ → Inode → Fs
inode_write v n d =
    let blk = ino_lba + n / ino_per_blk in
    write v blk (paste (v.disk blk) (n % ino_per_blk * ino_size) ino_size (inode_bytes d))
