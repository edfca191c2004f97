-- ===== src/Fs/Keys.antt =====
-- fs.rs: the logical keys of the trees that share one physical tree. A kind byte comes first, and
-- the numbers behind it are big-endian.
pub mod Range
use rfs.Prelude.{
  ℕ, ◌+◌, ◌-◌, ◌≡◌, Bool, List, [], ◌∷◌, ◌++◌, length, take, drop, get_or, min, leb, ◌==◌,
  if◌then◌else◌,
}
use rfs.Prelude.Outcome.{Outcome, ok, panic, assert, ◌>>=◌}
use rfs.Bytes.{Bytes, to_be, of_be}
use rfs.Entry.{max_logical_key_size}

abbrev pub kind_inode : ℕ
kind_inode = 1

abbrev pub kind_dirent : ℕ
kind_dirent = 2

abbrev pub kind_extent : ℕ
kind_extent = 3

abbrev pub kind_snapshot : ℕ
kind_snapshot = 0xF0

abbrev pub kind_subvol : ℕ
kind_subvol = 0xF1

abbrev pub kind_deleted_inodes : ℕ
kind_deleted_inodes = 0xF2

abbrev pub dirent_prefix_len : ℕ
dirent_prefix_len = 9

abbrev pub extent_key_len : ℕ
extent_key_len = 17

abbrev pub snapshot_key_len : ℕ
snapshot_key_len = 5

abbrev pub subvol_key_len : ℕ
subvol_key_len = 5

abbrev pub deleted_inode_key_len : ℕ
deleted_inode_key_len = 13

-- The longest name that fits in the logical part of a key.
abbrev pub max_name_len : ℕ
max_name_len = max_logical_key_size - dirent_prefix_len

-- `u64::MAX`.
abbrev pub u64_max : ℕ
u64_max = 18446744073709551615

-- `n.saturating_add(1)` on a `u64`.
abbrev pub next_u64 : ℕ → ℕ
next_u64 n = min (n + 1) u64_max

unfoldable pub inode_key : ℕ → Bytes
inode_key ino = kind_inode ∷ to_be 8 ino

unfoldable pub dirent_key : ℕ → Bytes → Outcome Bytes
dirent_key parent_ino name = do
  _ ← assert (leb (length name) max_name_len)
  ok ((kind_dirent ∷ to_be 8 parent_ino) ++ name)

unfoldable pub dirent_range : ℕ → Bytes × Bytes
dirent_range parent_ino =
    (kind_dirent ∷ to_be 8 parent_ino, kind_dirent ∷ to_be 8 (next_u64 parent_ino))

unfoldable pub extent_key : ℕ → ℕ → Bytes
extent_key ino offset = kind_extent ∷ to_be 8 ino ++ to_be 8 offset

unfoldable pub extent_range : ℕ → Bytes × Bytes
unfolding extent_key
extent_range ino = (extent_key ino 0, extent_key (next_u64 ino) 0)

-- `key[9..17]`; a shorter key panics.
unfoldable pub extent_offset_from_key : Bytes → Outcome ℕ
extent_offset_from_key key =
    if leb extent_key_len (length key) then ok (of_be (take 8 (drop 9 key))) else panic

-- `key[9..]`.
unfoldable pub dirent_name_from_key : Bytes → Outcome Bytes
dirent_name_from_key key =
    if leb dirent_prefix_len (length key) then ok (drop dirent_prefix_len key) else panic

unfoldable pub snapshot_key : ℕ → Bytes
snapshot_key snap = kind_snapshot ∷ to_be 4 snap

unfoldable pub subvol_key : ℕ → Bytes
subvol_key subvol = kind_subvol ∷ to_be 4 subvol

unfoldable pub snapshot_range : Bytes × Bytes
unfolding snapshot_key
snapshot_range = (snapshot_key 0, (kind_snapshot + 1) ∷ [])

unfoldable pub subvol_range : Bytes × Bytes
unfolding subvol_key
subvol_range = (subvol_key 0, (kind_subvol + 1) ∷ [])

-- `key[0]`, of a key whose length was asserted.
abbrev kind_of : Bytes → ℕ
kind_of key = get_or key 0 0

unfoldable pub snapshot_id_from_key : Bytes → Outcome ℕ
snapshot_id_from_key key = do
  _ ← assert (length key == snapshot_key_len)
  _ ← assert (kind_of key == kind_snapshot)
  ok (of_be (drop 1 key))

unfoldable pub subvol_id_from_key : Bytes → Outcome ℕ
subvol_id_from_key key = do
  _ ← assert (length key == subvol_key_len)
  _ ← assert (kind_of key == kind_subvol)
  ok (of_be (drop 1 key))

unfoldable pub deleted_inode_key : ℕ → ℕ → Bytes
deleted_inode_key ino snap = kind_deleted_inodes ∷ to_be 8 ino ++ to_be 4 snap

unfoldable pub deleted_inode_range : Bytes × Bytes
unfolding deleted_inode_key
deleted_inode_range = (deleted_inode_key 0 0, (kind_deleted_inodes + 1) ∷ [])

unfoldable pub deleted_inode_from_key : Bytes → Outcome (ℕ × ℕ)
deleted_inode_from_key key = do
  _ ← assert (length key == deleted_inode_key_len)
  _ ← assert (kind_of key == kind_deleted_inodes)
  ok (of_be (take 8 (drop 1 key)), of_be (drop 9 key))
