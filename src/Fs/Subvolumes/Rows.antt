-- ===== src/Fs/Subvolumes/Rows.antt =====
-- The rows of snapshots and subvolumes in the tree: their keys, and get_snapshot and get_subvol of
-- fs.rs on them.
use rfs.Prelude.{
  ℕ, ◌^◌, ◌≤◌, ◌<◌, ◌≡◌, ◌≢◌, refl, ap, ◌∙◌, sym, some, ◌∷◌, ◌++◌, arith, length, take, Ordering,
  lt, eq, gt,
}
use rfs.Prelude.Outcome.{Outcome}
use rfs.Bytes.{Bytes, compare_bytes, to_be, of_be}
use rfs.Bytes.Codec.{length-to_be, of_be-to_be}
use rfs.Bytes.Order.{eq_of_compare, compare_refl}
use rfs.Layout.{Fit, take_front}
use rfs.Entry.{root_snap}
use rfs.Entry.Kind.{live}
use rfs.Entry.Image.{sortable_key_lem}
use rfs.Btree.Read as Read
use rfs.Btree.Read.{find_raw}
use rfs.Btree.Handle as Btree
use rfs.Btree.Handle.{edit}
use rfs.Btree.Update.Held.{Row, RowMap, sortable, set_row}
use rfs.Fs.Keys.{snapshot_key, subvol_key}
use rfs.Fs.Values.{
  SnapshotV1, snapshot_fields, snapshot_to_bytes, SubvolV1, subvol_fields, subvol_to_bytes,
}
use rfs.Fs.Values.Image.{snapshot_image, subvol_image}
use rfs.Fs.State.{Fs, get_snapshot, get_subvol}

-- The key in the tree of a snapshot's metadata, and of a subvolume's.
abbrev pub snapshot_row_key : ℕ → Bytes
snapshot_row_key id = snapshot_key id ++ to_be 4 root_snap

abbrev pub subvol_row_key : ℕ → Bytes
subvol_row_key id = subvol_key id ++ to_be 4 root_snap

tagged : ℕ → ℕ → Bytes
tagged tag id = (tag ∷ to_be 4 id) ++ to_be 4 root_snap

tagged_inj : (t u a b : ℕ) → a < 256 ^ 4 → b < 256 ^ 4 → tagged t a ≡ tagged u b → (t ≡ u) × (a ≡ b)
unfolding tagged
tagged_inj t u a b ha hb p =
    let tag : t ≡ u = cc in
    let rest : to_be 4 a ++ to_be 4 root_snap ≡ to_be 4 b ++ to_be 4 root_snap = cc in
    (
      tag,
      sym (of_be-to_be 4 a ha)
          ∙ ap of_be (
              sym (take_front 4 (to_be 4 a) (to_be 4 root_snap) (length-to_be 4 a))
              ∙ ap (λ x. take 4 x) rest
              ∙ take_front 4 (to_be 4 b) (to_be 4 root_snap) (length-to_be 4 b))
          ∙ of_be-to_be 4 b hb,
    )

pub snapshot_keys_apart :
    (a b : ℕ) → a < 256 ^ 4 → b < 256 ^ 4 → a ≢ b → snapshot_row_key a ≢ snapshot_row_key b
unfolding snapshot_key tagged
snapshot_keys_apart a b ha hb d p = d (tagged_inj 0xF0 0xF0 a b ha hb p).1

pub subvol_keys_apart :
    (a b : ℕ) → a < 256 ^ 4 → b < 256 ^ 4 → a ≢ b → subvol_row_key a ≢ subvol_row_key b
unfolding subvol_key tagged
subvol_keys_apart a b ha hb d p = d (tagged_inj 0xF1 0xF1 a b ha hb p).1

pub kinds_apart : (a b : ℕ) → subvol_row_key a ≢ snapshot_row_key b
unfolding snapshot_key subvol_key
kinds_apart a b p = let q : ◌≡◌ {A = ℕ} 0xF1 0xF0 = cc in absurd (omega arith)

pub set_row_self : (w : Row) (m : RowMap) → set_row w m (sortable w) ≡ some (w.value, w.kind)
set_row_self w m = rw (compare_refl (sortable w), set_row) refl

pub set_row_other : (w : Row) (m : RowMap) (j : Bytes) → sortable w ≢ j → set_row w m j ≡ m j
set_row_other w m j d = by (compare_bytes (sortable w) j) refl
  where
    by : (o : Ordering) → compare_bytes (sortable w) j ≡ o → set_row w m j ≡ m j
    by lt p = rw (p, set_row) refl
    by gt p = rw (p, set_row) refl
    by eq p = absurd (d (eq_of_compare (sortable w) j p))

-- Metadata that the tree holds under its key is read.
pub get_snapshot-of_row :
    (fuel : ℕ) (f : Fs) (id : ℕ) (v : SnapshotV1)
    → Fit (snapshot_fields v)
    → find_raw fuel f.tree.store f.tree.root_block (snapshot_row_key id)
      ≡ Outcome.ok (some (snapshot_to_bytes v, live))
    → get_snapshot fuel f id ≡ Outcome.ok (some v)
unfolding get_snapshot Btree.find_at Read.find snapshot_key
get_snapshot-of_row fuel f id v fit h =
    let short : length (snapshot_key id) ≤ 28 = omega (arith, length-to_be 4 id) in
    let k = (sortable_key_lem (snapshot_key id) root_snap short).0 in
    rw k (rw h (rw ((snapshot_image v fit).0) refl))

pub get_subvol-of_row :
    (fuel : ℕ) (f : Fs) (id : ℕ) (v : SubvolV1)
    → Fit (subvol_fields v)
    → find_raw fuel f.tree.store f.tree.root_block (subvol_row_key id)
      ≡ Outcome.ok (some (subvol_to_bytes v, live))
    → get_subvol fuel f id ≡ Outcome.ok (some v)
unfolding get_subvol Btree.find_at Read.find subvol_key
get_subvol-of_row fuel f id v fit h =
    let short : length (subvol_key id) ≤ 28 = omega (arith, length-to_be 4 id) in
    let k = (sortable_key_lem (subvol_key id) root_snap short).0 in
    rw k (rw h (rw ((subvol_image v fit).0) refl))
