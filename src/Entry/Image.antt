-- ===== src/Entry/Image.antt =====
-- A slot built for a leaf write holds the key, the kind and the value that it was built from.
use rfs.Prelude.{
  ℕ, ◌+◌, ◌-◌, ◌≤◌, ◌<◌, ◌^◌, ◌≡◌, refl, ap, ◌∙◌, ◌++◌, arith, length, take, replicate, min, leb,
  true, append_assoc, compare, length-append, take-length, drop-length, take_all,
}
use rfs.Prelude.Outcome.{ok}
use rfs.Bytes.{Bytes, to_be, compare_bytes, then_cmp}
use rfs.Bytes.Codec.{length-to_be, of_be-to_be, compare-to_be}
use rfs.Bytes.Order.{compare-append}
use rfs.Entry.Kind.{EntryKind, kind_byte, kind_of_u8-kind_byte}
use rfs.Entry.{
  DiskEntry, filled, key_bytes, logical_key_bytes, snap_id, kind_enum, value_bytes, sortable_key,
  build_leaf_entry, max_key_size, max_value_size, max_logical_key_size,
}

take-filled : (n : ℕ) (src : Bytes) → take (length src) (filled n src) ≡ src
unfolding filled
take-filled n src = take-length src (replicate (n - length src) 0)

-- The slot that `build_leaf_entry` makes of a key that fits.
abbrev pub leaf_entry : Bytes → EntryKind → Bytes → DiskEntry
leaf_entry sortable k value = record {
  key = filled max_key_size sortable;
  key_len = length sortable - 4;
  value_len = min (length value) max_value_size;
  kind = kind_byte k;
  payload = filled max_value_size (take (min (length value) max_value_size) value);
}

module _ (sortable : Bytes) (long : 4 ≤ length sortable)
    (short : length sortable ≤ max_key_size) where
  -- A key of 4 to 32 bytes is accepted.
  pub build_leaf_entry_lem :
      (k : EntryKind) (value : Bytes)
      → build_leaf_entry sortable k value ≡ ok (leaf_entry sortable k value)
  unfolding build_leaf_entry
  build_leaf_entry_lem k value =
      let e : min (length sortable) max_key_size ≡ length sortable = omega arith in
      let t : take (length sortable) sortable ≡ sortable =
        take_all (length sortable) sortable (omega arith) in
      let l : leb 4 (length sortable) ≡ true = ground arith in rw (l, e, t) refl

  pub key_bytes-leaf_entry :
      (k : EntryKind) (value : Bytes) → key_bytes (leaf_entry sortable k value) ≡ sortable
  unfolding key_bytes
  key_bytes-leaf_entry k value =
      let e : length sortable - 4 + 4 ≡ length sortable = omega arith in
      rw e (take-filled max_key_size sortable)

pub kind_enum-leaf_entry :
    (sortable : Bytes) (k : EntryKind) (value : Bytes) → kind_enum (leaf_entry sortable k value) ≡ k
unfolding kind_enum
kind_enum-leaf_entry sortable k value = kind_of_u8-kind_byte k

-- A value of at most 96 bytes is kept whole.
pub value_bytes-leaf_entry :
    (sortable : Bytes) (k : EntryKind) (value : Bytes)
    → length value ≤ max_value_size
    → value_bytes (leaf_entry sortable k value) ≡ value
unfolding value_bytes
value_bytes-leaf_entry sortable k value h =
    let e : min (length value) max_value_size ≡ length value = omega arith in
    let t : take (length value) value ≡ value = take_all (length value) value (omega arith) in
    rw (e, t) (take-filled max_value_size value)

-- A logical key of at most 28 bytes has a sortable form of 4 to 32 bytes.
pub sortable_key_lem :
    (logical : Bytes) (snap : ℕ)
    → length logical ≤ max_logical_key_size
    → (sortable_key logical snap ≡ ok (logical ++ to_be 4 snap))
      × (length (logical ++ to_be 4 snap) ≡ length logical + 4)
unfolding sortable_key
sortable_key_lem logical snap h =
    let l : leb (length logical) max_logical_key_size ≡ true = ground arith in
    (rw l, omega (arith, length-append logical (to_be 4 snap), length-to_be 4 snap))

-- The slot of a leaf write at (logical, snap) gives back both parts of its key.
module _ (logical : Bytes) (snap : ℕ) (short : length logical ≤ max_logical_key_size) where
  key_len_lem : length (logical ++ to_be 4 snap) - 4 ≡ length logical
  key_len_lem = omega (arith, length-append logical (to_be 4 snap), length-to_be 4 snap)

  pub logical_key_bytes-leaf_entry :
      (k : EntryKind) (value : Bytes)
      → logical_key_bytes (leaf_entry (logical ++ to_be 4 snap) k value) ≡ logical
  unfolding logical_key_bytes filled
  logical_key_bytes-leaf_entry k value =
      rw (key_len_lem, append_assoc logical (to_be 4 snap) _) (take-length logical _)

  pub snap_id-leaf_entry :
      (k : EntryKind) (value : Bytes)
      → snap < 256 ^ 4
      → snap_id (leaf_entry (logical ++ to_be 4 snap) k value) ≡ snap
  unfolding snap_id filled
  snap_id-leaf_entry k value h =
      let tail = replicate {A = ℕ} (max_key_size - length (logical ++ to_be 4 snap)) 0 in
      let t : take 4 (to_be 4 snap ++ tail) ≡ to_be 4 snap =
        rw (length-to_be 4 snap) at (take-length (to_be 4 snap) tail) in
      rw
        (
          key_len_lem,
          append_assoc logical (to_be 4 snap) tail,
          drop-length logical (to_be 4 snap ++ tail),
          t,
        )
        (of_be-to_be 4 snap h)

-- Sortable keys of logical keys of one length are ordered by the logical key, then by the snapshot.
pub compare-sortable :
    (l l' : Bytes) (s s' : ℕ)
    → length l ≡ length l'
    → s < 256 ^ 4
    → s' < 256 ^ 4
    → compare_bytes (l ++ to_be 4 s) (l' ++ to_be 4 s')
      ≡ then_cmp (compare_bytes l l') (compare s s')
compare-sortable l l' s s' e h h' =
    compare-append l l' (to_be 4 s) (to_be 4 s') e
    ∙ ap (then_cmp (compare_bytes l l')) (compare-to_be 4 s s' h h')
