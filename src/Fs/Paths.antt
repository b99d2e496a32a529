-- ===== src/Fs/Paths.antt =====
-- kernel/cofeufs.cpp: paths, which are lists of bytes without a 0; none is the null pointer.
use cofeuos.Base.{
  ℕ, zero, suc, ◌+◌, not, List, [], ◌∷◌, Option, none, some, ltb, leb, ◌==◌, if◌then◌else◌, length,
}
use cofeuos.Fs.{Fs, DirEntry, ft_dir, inode_read, same_text}
use cofeuos.Fs.Dirs.{dir_find, dot}

abbrev pub slash : ℕ
slash = 47

-- The first component, at most `n` bytes of it, and what is behind these.
unfoldable pub take_comp : ℕ → List ℕ → List ℕ × List ℕ
take_comp zero p = ([], p)
take_comp (suc n) [] = ([], [])
take_comp (suc n) (c ∷ p) =
    let (a, r) = take_comp n p in if c == slash then ([], c ∷ p) else (c ∷ a, r)

unfoldable pub skip_slashes : List ℕ → List ℕ
skip_slashes [] = []
skip_slashes (c ∷ p) = if c == slash then skip_slashes p else c ∷ p

abbrev pub entry_ino : Option (DirEntry × ℕ) → Option ℕ
entry_ino none = none
entry_ino (some (e, i)) = some e.ino

-- From directory `cur` to the entry of the name; an empty name and "." lead nowhere else.
unfoldable pub walk : Fs → ℕ → List ℕ → Option ℕ
walk v cur [] = some cur
walk v cur (c ∷ cs) =
    let d = inode_read v cur in
    if same_text (c ∷ cs) dot
    then some cur
    else if not (d.type == ft_dir)
    then none
    else entry_ino (dir_find v d (c ∷ cs))

-- The loop of `resolve_from`, with fuel; the outer none is that it ran out, the inner one that the
-- path leads nowhere.
unfoldable pub resolve_loop : ℕ → Fs → ℕ → List ℕ → Option (Option ℕ)
resolve_loop zero v cur p = none
resolve_loop (suc k) v cur [] = some (some cur)
resolve_loop (suc k) v cur (c ∷ p) =
    let (comp, rest) = take_comp 31 (c ∷ p) in
    elim (walk v cur comp) [
      | none ↦ some none
      | some cur' ↦ resolve_loop k v cur' (skip_slashes rest)
    ]

abbrev pub found : Option (Option ℕ) → Option ℕ
found none = none
found (some o) = o

unfoldable pub resolve_from : Fs → ℕ → Option (List ℕ) → Option ℕ
resolve_from v base none = some base
resolve_from v base (some []) = some base
resolve_from v base (some (c ∷ p)) =
    if c == slash
    then found (resolve_loop (length p + 1) v v.super.root_ino p)
    else found (resolve_loop (length p + 2) v base (c ∷ p))

abbrev pub later_slash : ℕ → List ℕ → Option (List ℕ × List ℕ) → Option (List ℕ × List ℕ)
later_slash c p (some (a, b)) = some (c ∷ a, b)
later_slash c p none = if c == slash then some ([], p) else none

-- A path before and behind its last slash.
unfoldable pub at_last_slash : List ℕ → Option (List ℕ × List ℕ)
at_last_slash [] = none
at_last_slash (c ∷ p) = later_slash c p (at_last_slash p)

-- The directory before the last slash, which is the root if nothing is before it.
abbrev pub parent_of : Fs → ℕ → List ℕ → Option ℕ
parent_of v base [] = some v.super.root_ino
parent_of v base (c ∷ p) = resolve_from v base (some (c ∷ p))

abbrev pub short_name : List ℕ → Option ℕ → Option (ℕ × List ℕ)
short_name name none = none
short_name name (some parent) = if ltb 31 (length name) then none else some (parent, name)

abbrev pub split_found : Fs → ℕ → List ℕ → Option (List ℕ × List ℕ) → Option (ℕ × List ℕ)
split_found v base path none = short_name path (some base)
split_found v base path (some (before, [])) = none
split_found v base path (some (before, (c ∷ cs))) =
    if leb 95 (length before) then none else short_name (c ∷ cs) (parent_of v base before)

-- `split_last`: the parent directory and the last name.
unfoldable pub split_last : Fs → ℕ → Option (List ℕ) → Option (ℕ × List ℕ)
split_last v base none = none
split_last v base (some []) = none
split_last v base (some (c ∷ p)) = split_found v base (c ∷ p) (at_last_slash (c ∷ p))
