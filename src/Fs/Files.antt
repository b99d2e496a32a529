-- ===== src/Fs/Files.antt =====
-- kernel/cofeufs.cpp: the contents of a file, once its inode has been found.
use cofeuos.Base.{
  ℕ, zero, suc, ◌+◌, ◌-◌, ◌*◌, ◌/◌, Bool, true, false, Option, none, some, ltb, ◌==◌, if◌then◌else◌,
}
use cofeuos.Fs.{Fs, Inode, Bytes, no_bytes, paste, write, data_lba, inode_write}
use cofeuos.Fs.Space.{inode_free_blocks, inode_reset, inode_map_next, inode_block_at, bm_flush}

unfoldable pub write_file_abort : Fs → ℕ → Inode → Fs × Bool
write_file_abort v ino d =
    let (v', d') = inode_free_blocks v d in
    (bm_flush (inode_write v' ino (record d' { size = 0 })), false)

-- The first loop of `write_file`, with the rounds left: whether every block was found.
unfoldable pub map_all : ℕ → Fs → Inode → Fs × Inode × Bool
map_all zero v d = (v, d, true)
map_all (suc k) v d =
    let m = inode_map_next v d in
    let rest = map_all k m.0 m.1 in elim m.2 [ none ↦ (m.0, m.1, false) | some b ↦ rest ]

-- The bytes of block `i` of a file of `len` bytes that needs `need` blocks.
abbrev pub chunk : ℕ → ℕ → ℕ → ℕ
chunk i need len = if i == need - 1 then len - i * 512 else 512

abbrev pub block_of : Bytes → ℕ → ℕ → ℕ → Bytes
block_of src i need len = paste no_bytes 0 (chunk i need len) (λ x. src (i * 512 + x))

abbrev pub store_block : Fs → Bytes → ℕ → ℕ → ℕ → Option ℕ → Fs × Bool
store_block v src i need len none = (v, false)
store_block v src i need len (some b) = (write v (data_lba + b) (block_of src i need len), true)

-- The second loop, from block `i` on.
unfoldable pub store_all : ℕ → ℕ → Fs → Inode → Bytes → ℕ → ℕ → Fs × Bool
store_all zero i v d src need len = (v, true)
store_all (suc k) i v d src need len =
    let s = store_block v src i need len (inode_block_at v d i) in
    let rest = store_all k (i + 1) s.0 d src need len in
    elim s.1 [ false ↦ (s.0, false) | true ↦ rest ]

abbrev pub finish_write : ℕ → Inode → Fs × Bool → Fs × Bool
finish_write ino d (v, false) = write_file_abort v ino d
finish_write ino d (v, true) = (bm_flush (inode_write v ino d), true)

abbrev pub store_mapped : ℕ → Bytes → ℕ → ℕ → Fs × Inode × Bool → Fs × Bool
store_mapped ino src need len (v, d, false) = write_file_abort v ino d
store_mapped ino src need len (v, d, true) = finish_write ino d (store_all need 0 v d src need len)

-- `write_file` behind the tests of the path, the type and the length.
unfoldable pub write_inode : Fs → ℕ → Inode → Bytes → ℕ → Fs × Bool
write_inode v ino d src len =
    let (v', d') = inode_free_blocks v d in
    let need = (len + 511) / 512 in
    store_mapped ino src need len (map_all need v' (record (inode_reset d') { size = len }))

abbrev pub read_chunk : ℕ → ℕ → ℕ
read_chunk i to_read = if i == (to_read - 1) / 512 then to_read - i * 512 else 512

abbrev pub read_block : Fs → Bytes → ℕ → ℕ → Option ℕ → Option Bytes
read_block v buf i to_read none = none
read_block v buf i to_read (some b) =
    some (paste buf (i * 512) (read_chunk i to_read) (v.disk (data_lba + b)))

-- The loop of `read_file` and `append_file` from block `i` on, with the buffer.
unfoldable pub read_all : ℕ → ℕ → Fs → Inode → Bytes → ℕ → Option Bytes
read_all zero i v d buf to_read = some buf
read_all (suc k) i v d buf to_read = elim (read_block v buf i to_read (inode_block_at v d i)) [
  | none ↦ none
  | some buf' ↦ read_all k (i + 1) v d buf' to_read
]

-- `read_file` behind the test of the path: the buffer and the length.
unfoldable pub read_inode : Fs → Inode → Bytes → ℕ → Option (Bytes × ℕ)
read_inode v d buf maxlen =
    let to_read = if ltb d.size maxlen then d.size else maxlen in
    elim (read_all ((to_read + 511) / 512) 0 v d buf to_read) [
      | none ↦ none
      | some buf' ↦ some (buf', to_read)
    ]
