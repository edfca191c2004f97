-- ===== src/Entry.antt =====
-- block_btree.rs: `EntryKind` and `DiskEntry`, a fixed-size slot with a key buffer of 32 bytes (the
-- logical key, then the snapshot id in big-endian) and a payload of 96 bytes (a leaf's value, or an
-- internal node's child in the first 8).
pub mod Kind
pub mod Image
use Kind.{EntryKind, kind_of_u8, kind_byte}
use rfs.Prelude.{
  ℕ, ◌+◌, ◌-◌, ◌≡◌, Bool, List, [], ◌∷◌, ◌++◌, length, take, drop, replicate, min, leb, ltb,
  if◌then◌else◌,
}
use rfs.Prelude.Outcome.{Outcome, ok, panic, ◌>>=◌}
use rfs.Bytes.{Bytes, to_be, of_be, to_le, of_le}

abbrev pub max_key_size : ℕ
max_key_size = 32

abbrev pub snap_id_bytes : ℕ
snap_id_bytes = 4

-- `MAX_KEY_SIZE - 4`.
abbrev pub max_logical_key_size : ℕ
max_logical_key_size = 28

abbrev pub max_value_size : ℕ
max_value_size = 96

-- `u32::MAX`: the root of the snapshot tree.
abbrev pub root_snap : ℕ
root_snap = 4294967295

pub record DiskEntry : Type 0 where
  pub key : Bytes
  pub key_len : ℕ
  pub value_len : ℕ
  pub kind : ℕ
  pub payload : Bytes

-- `buf[..src.len()].copy_from_slice(src); buf[src.len()..].fill(0)` on a buffer of `n` bytes.
unfoldable pub filled : ℕ → Bytes → Bytes
filled n src = src ++ replicate (n - length src) 0

abbrev pub empty : DiskEntry
empty = record {
  key = replicate max_key_size 0;
  key_len = 0;
  value_len = 0;
  kind = 0;
  payload = replicate max_value_size 0;
}

unfoldable pub logical_key_bytes : DiskEntry → Bytes
logical_key_bytes e = take e.key_len e.key

unfoldable pub key_bytes : DiskEntry → Bytes
key_bytes e = take (e.key_len + snap_id_bytes) e.key

unfoldable pub snap_id : DiskEntry → ℕ
snap_id e = of_be (take snap_id_bytes (drop e.key_len e.key))

unfoldable pub set_snap_id : DiskEntry → ℕ → DiskEntry
set_snap_id e snap = record e {
  key = take e.key_len e.key ++ to_be snap_id_bytes snap ++ drop (e.key_len + snap_id_bytes) e.key;
}

unfoldable pub kind_enum : DiskEntry → EntryKind
unfolding kind_of_u8
kind_enum e = kind_of_u8 e.kind

unfoldable pub set_kind : DiskEntry → EntryKind → DiskEntry
set_kind e k = record e { kind = kind_byte k }

-- The key from its sortable form, whose last 4 bytes are the snapshot id; a shorter slice fails
-- the assertion, and what does not fit the buffer is cut off.
unfoldable pub set_key : DiskEntry → Bytes → Outcome DiskEntry
unfolding filled
set_key e sortable =
    if leb snap_id_bytes (length sortable)
    then (let total : ℕ = min (length sortable) max_key_size in
        ok (record e {
          key = filled max_key_size (take total sortable);
          key_len = total - snap_id_bytes;
        }))
    else panic

unfoldable pub set_key_with_snap : DiskEntry → Bytes → ℕ → DiskEntry
unfolding filled
set_key_with_snap e logical snap =
    let n : ℕ = min (length logical) max_logical_key_size in
    record e { key = filled max_key_size (take n logical ++ to_be snap_id_bytes snap); key_len = n }

-- A leaf's value: `payload[..value_len]`.
unfoldable pub value_bytes : DiskEntry → Bytes
value_bytes e = take e.value_len e.payload

-- `set_value_at`, and the value of `build_leaf_entry`: what does not fit is cut off.
unfoldable pub set_value : DiskEntry → Bytes → DiskEntry
unfolding filled
set_value e val =
    let len : ℕ = min (length val) max_value_size in
    record e { payload = filled max_value_size (take len val); value_len = len }

-- An internal node's child pointer, in native byte order.
unfoldable pub child : DiskEntry → ℕ
child e = of_le (take 8 e.payload)

unfoldable pub set_child : DiskEntry → ℕ → DiskEntry
set_child e nr = record e { payload = to_le 8 nr ++ drop 8 e.payload }

-- btree.rs: the sortable form of a logical key at a snapshot.
unfoldable pub sortable_key : Bytes → ℕ → Outcome Bytes
sortable_key logical snap =
    if leb (length logical) max_logical_key_size
    then ok (logical ++ to_be snap_id_bytes snap)
    else panic

-- btree.rs: the slot of a leaf write.
unfoldable pub build_leaf_entry : Bytes → EntryKind → Bytes → Outcome DiskEntry
unfolding set_key set_kind set_value
build_leaf_entry sortable k value =
    set_key empty sortable >>= λ e. ok (set_value (set_kind e k) value)
