-- ===== src/Fs/Keys/Range.antt =====
-- fs.rs: keys read back, keys sort as the numbers in them, and a range selects the keys of one
-- inode or one directory.
use rfs.Prelude.{
  ℕ, ◌^◌, ◌<◌, ◌≤◌, ◌≡◌, ◌↔◌, compare, refl, true, false, Bool, ◌&&◌, not, arith, length, take,
  drop, [], ◌∷◌, ◌++◌, append-nil, sym, length-append, take-length, drop-length, take_all, leb,
  ◌==◌,
}
use rfs.Prelude.Outcome.{ok, assert, ◌>>=◌}
use rfs.Bytes.{Bytes, to_be, compare_bytes, is_lt, then_cmp}
use rfs.Bytes.Order.{compare-append}
use rfs.Bytes.Codec.{length-to_be, of_be-to_be, compare-to_be}
use rfs.Fs.Keys.{
  dirent_key, dirent_range, dirent_name_from_key, extent_key, extent_range, extent_offset_from_key,
  snapshot_key, snapshot_id_from_key, snapshot_range, subvol_key, subvol_id_from_key, subvol_range,
  deleted_inode_key, deleted_inode_from_key, u64_max, next_u64, max_name_len,
}

-- `start <= key && key < end`, as the range scans test it.
abbrev pub in_range : Bytes × Bytes → Bytes → Bool
in_range (start, end) key = not (is_lt (compare_bytes key start)) && is_lt (compare_bytes key end)

-- Extent keys sort by the inode, then by the offset.
pub compare-extent_key :
    (ino off ino' off' : ℕ)
    → ino < 256 ^ 8
    → off < 256 ^ 8
    → ino' < 256 ^ 8
    → off' < 256 ^ 8
    → compare_bytes (extent_key ino off) (extent_key ino' off')
      ≡ then_cmp (compare ino ino') (compare off off')
unfolding extent_key compare_bytes
compare-extent_key ino off ino' off' h k h' k' =
    rw
      (
        compare-append (to_be 8 ino) (to_be 8 ino') (to_be 8 off) (to_be 8 off')
            (omega (arith, length-to_be 8 ino, length-to_be 8 ino')),
        compare-to_be 8 ino ino' h h',
        compare-to_be 8 off off' k k',
      )
      refl

-- The range of an inode other than the last selects the extent keys of that inode and no others.
pub extent_range_iff :
    (ino ino' off' : ℕ)
    → ino < u64_max
    → ino' < 256 ^ 8
    → off' < 256 ^ 8
    → (in_range (extent_range ino) (extent_key ino' off') ≡ true) ↔ (ino' ≡ ino)
unfolding extent_range
extent_range_iff ino ino' off' h h' k' =
    let low = compare-extent_key ino' off' ino 0 h' k' (omega arith) (omega arith) in
    let high = compare-extent_key ino' off' (next_u64 ino) 0 h' k' (omega arith) (omega arith) in
    rw (low, high) (ground arith)

take-to_be : (w v : ℕ) (r : Bytes) → take w (to_be w v ++ r) ≡ to_be w v
take-to_be w v r = rw (length-to_be w v) at (take-length (to_be w v) r)

drop-to_be : (w v : ℕ) (r : Bytes) → drop w (to_be w v ++ r) ≡ r
drop-to_be w v r = rw (length-to_be w v) at (drop-length (to_be w v) r)

-- The offset reads back from an extent key.
pub extent_offset-extent_key :
    (ino off : ℕ) → off < 256 ^ 8 → extent_offset_from_key (extent_key ino off) ≡ ok off
unfolding extent_offset_from_key extent_key
extent_offset-extent_key ino off h =
    let l = length-append (to_be 8 ino) (to_be 8 off) in
    let long : leb 17 (length (3 ∷ to_be 8 ino ++ to_be 8 off)) ≡ true =
      ground (arith, length-to_be 8 ino, length-to_be 8 off) in
    rw (
      long,
      drop-to_be 8 ino (to_be 8 off),
      take_all 8 (to_be 8 off) (omega (arith, length-to_be 8 off)),
      of_be-to_be 8 off h,
    )

-- The name reads back from the key that `dirent_key` makes of it.
pub dirent_name-dirent_key :
    (parent : ℕ) (name : Bytes)
    → length name ≤ max_name_len
    → (dirent_key parent name >>= dirent_name_from_key) ≡ ok name
unfolding dirent_key dirent_name_from_key
dirent_name-dirent_key parent name h =
    let l = length-append (to_be 8 parent) name in
    let short : leb (length name) max_name_len ≡ true = ground arith in
    let long : leb 9 (length (2 ∷ to_be 8 parent ++ name)) ≡ true =
      ground (arith, length-to_be 8 parent) in
    rw (short, assert) (rw (long, drop-to_be 8 parent name))

-- The two numbers read back from a deleted-inode key.
pub deleted_inode_from_key-deleted_inode_key :
    (ino snap : ℕ)
    → ino < 256 ^ 8
    → snap < 256 ^ 4
    → deleted_inode_from_key (deleted_inode_key ino snap) ≡ ok (ino, snap)
unfolding deleted_inode_from_key deleted_inode_key
deleted_inode_from_key-deleted_inode_key ino snap h k =
    let l = length-append (to_be 8 ino) (to_be 4 snap) in
    let size : (length (0xF2 ∷ to_be 8 ino ++ to_be 4 snap) == 13) ≡ true =
      ground (arith, length-to_be 8 ino, length-to_be 4 snap) in
    rw (size, assert)
      (rw (
        take-to_be 8 ino (to_be 4 snap),
        drop-to_be 8 ino (to_be 4 snap),
        of_be-to_be 8 ino h,
        of_be-to_be 4 snap k,
      ))

-- Nothing comes before the empty key.
nil_least : (a : Bytes) → is_lt (compare_bytes a []) ≡ false
unfolding compare_bytes
nil_least [] = refl
nil_least (x ∷ a) = refl

-- A snapshot key gives back its id and lies in the snapshots' range; a subvolume key gives back
-- its id and lies in the subvolumes' range, and neither lies in the other's.
id_keys_lem :
    (id : ℕ)
    → id < 256 ^ 4
    → (snapshot_id_from_key (snapshot_key id) ≡ ok id)
      × (subvol_id_from_key (subvol_key id) ≡ ok id)
      × (in_range snapshot_range (snapshot_key id) ≡ true)
      × (in_range subvol_range (subvol_key id) ≡ true)
      × (in_range snapshot_range (subvol_key id) ≡ false)
      × (in_range subvol_range (snapshot_key id) ≡ false)
unfolding snapshot_id_from_key snapshot_key subvol_id_from_key subvol_key snapshot_range
    subvol_range compare_bytes
id_keys_lem id h =
    let l = length-to_be 4 id in
    let size : (length (0xF0 ∷ to_be 4 id) == 5) ≡ true = ground (arith, length-to_be 4 id) in
    let back = of_be-to_be 4 id h in
    let c = compare-to_be 4 id 0 h (omega arith) in
    (
      rw (size, assert) (rw back),
      rw (size, assert) (rw back),
      rw c (ground arith),
      rw c (ground arith),
      ground (arith, nil_least (to_be 4 id)),
      ground arith,
    )

dirent_key_bytes :
    (parent : ℕ) (name key : Bytes)
    → dirent_key parent name ≡ ok key
    → 2 ∷ to_be 8 parent ++ name ≡ key
unfolding dirent_key
dirent_key_bytes parent name key e = ground arith

-- A prefix of a directory's keys, against one of its keys.
compare-prefix :
    (p q : ℕ) (name : Bytes)
    → p < 256 ^ 8
    → q < 256 ^ 8
    → compare_bytes (2 ∷ to_be 8 p ++ name) (2 ∷ to_be 8 q)
      ≡ then_cmp (compare p q) (compare_bytes name [])
unfolding compare_bytes
compare-prefix p q name h k =
    let c =
      compare-append (to_be 8 p) (to_be 8 q) name []
        (omega (arith, length-to_be 8 p, length-to_be 8 q)) in
    rw (append-nil (to_be 8 q)) at (rw (compare-to_be 8 p q h k) at c)

-- The directory entries' range of a parent other than the last inode selects the keys of that
-- parent, with any name, and no others.
pub dirent_range_iff :
    (parent parent' : ℕ) (name key : Bytes)
    → parent < u64_max
    → parent' < 256 ^ 8
    → dirent_key parent' name ≡ ok key
    → (in_range (dirent_range parent) key ≡ true) ↔ (parent' ≡ parent)
unfolding dirent_range
dirent_range_iff parent parent' name key h h' e =
    let low = compare-prefix parent' parent name h' (omega arith) in
    let high = compare-prefix parent' (next_u64 parent) name h' (omega arith) in
    rw (sym (dirent_key_bytes parent' name key e)) (rw (low, high) (ground (arith, nil_least name)))
