-- ===== src/Fs/Subvolumes/Taken.antt =====
-- A snapshot of a subvolume, as it is read back from the tree behind it.
use rfs.Prelude.{
  ℕ, ◌+◌, ◌-◌, ◌*◌, ◌^◌, ◌≤◌, ◌<◌, ◌≡◌, ◌≢◌, refl, ap, ◌∙◌, sym, true, false, none, some, List, [],
  ◌∷◌, arith, ltb, map,
}
use rfs.Prelude.Outcome.{Outcome}
use rfs.Bytes.{Bytes}
use rfs.Bytes.Codec.{length-to_be}
use rfs.Layout.{Fit}
use rfs.Entry.{root_snap}
use rfs.Entry.Kind.{live}
use rfs.Btree.Read.{find_raw}
use rfs.Btree.Lookup.{find_raw_lem}
use rfs.Btree.Handle.{edit}
use rfs.Btree.Tx.{transaction}
use rfs.Btree.Sound.{Clean, Sound, Sound-IsTree}
use rfs.Btree.Update.Held.{Row, RowMap, Holds, call_of, set_row, set_rows, held, AllShort}
use rfs.Btree.Update.Writes.{transaction-set_rows}
use rfs.Fs.Keys.{snapshot_key, subvol_key}
use rfs.Fs.Values.{
  SnapshotV1, snapshot_fields, snapshot_to_bytes, SubvolV1, subvol_fields, subvol_to_bytes,
}
use rfs.Fs.Values.Image.{snapshot_image, subvol_image}
use rfs.Fs.Result.{ok}
use rfs.Fs.State.{Fs, get_snapshot, get_subvol, transact}
use rfs.Fs.Subvolumes.{snapshot_subvol, checked_sub, checked_add, snapshot_calls}
use rfs.Fs.Subvolumes.Rows.{
  snapshot_row_key, subvol_row_key, snapshot_keys_apart, subvol_keys_apart, kinds_apart,
  set_row_self, set_row_other, get_snapshot-of_row, get_subvol-of_row,
}

-- The metadata of the two snapshots, and of the subvolumes at them.
abbrev pub below_snap : ℕ → ℕ → SnapshotV1
below_snap parent flags = record { parent_id = parent; flags = flags; reserved = 0 }

abbrev pub frozen : SubvolV1 → ℕ → ℕ → SubvolV1
frozen sv src snap = record {
  snap_id = snap;
  flags = 1;
  root_inode = sv.root_inode;
  parent_subvol = src;
  reserved = 0;
}

-- What a snapshot of `src` leaves, where `sv` was its metadata: the source is at the next snapshot id
-- and the new subvolume, which is read-only, is at the one below, and both are children of the
-- snapshot that the source was at.
pub record Snapped (fuel src : ℕ) (sv : SubvolV1) (f f' : Fs) : Type 0 where
  pub writable : get_snapshot fuel f' f.next_snap_id ≡ Outcome.ok (some (below_snap sv.snap_id 0))
  pub readonly :
      get_snapshot fuel f' (f.next_snap_id - 1) ≡ Outcome.ok (some (below_snap sv.snap_id 1))
  pub source : get_subvol fuel f' src ≡ Outcome.ok (some (record sv { snap_id = f.next_snap_id }))
  pub snapshot :
      get_subvol fuel f' f.next_subvol_id ≡ Outcome.ok (some (frozen sv src (f.next_snap_id - 1)))
  pub others :
      (j : Bytes)
      → snapshot_row_key f.next_snap_id ≢ j
      → snapshot_row_key (f.next_snap_id - 1) ≢ j
      → subvol_row_key src ≢ j
      → subvol_row_key f.next_subvol_id ≢ j
      → find_raw fuel f'.tree.store f'.tree.root_block j
        ≡ find_raw fuel f.tree.store f.tree.root_block j
  pub next_snap : f'.next_snap_id ≡ f.next_snap_id - 2
  pub next_subvol : f'.next_subvol_id ≡ f.next_subvol_id + 1
  pub current : f'.current_subvol ≡ f.current_subvol
  pub data_kept : f'.data_blocks ≡ f.data_blocks

module _ (fuel src : ℕ) (sv : SubvolV1) (f : Fs) where
  abbrev s_w : ℕ
  s_w = f.next_snap_id

  abbrev s_ro : ℕ
  s_ro = f.next_snap_id - 1

  abbrev row_w : Row
  row_w = record {
    key = snapshot_key s_w;
    snap = root_snap;
    kind = live;
    value = snapshot_to_bytes (below_snap sv.snap_id 0);
  }

  abbrev row_ro : Row
  row_ro = record {
    key = snapshot_key s_ro;
    snap = root_snap;
    kind = live;
    value = snapshot_to_bytes (below_snap sv.snap_id 1);
  }

  abbrev row_src : Row
  row_src = record {
    key = subvol_key src;
    snap = root_snap;
    kind = live;
    value = subvol_to_bytes (record sv { snap_id = s_w });
  }

  abbrev row_new : Row
  row_new = record {
    key = subvol_key f.next_subvol_id;
    snap = root_snap;
    kind = live;
    value = subvol_to_bytes (frozen sv src s_ro);
  }

  abbrev rows : List Row
  rows = row_w ∷ row_ro ∷ row_src ∷ row_new ∷ []

  calls_are : snapshot_calls sv src s_w s_ro f.next_subvol_id ≡ map call_of rows
  unfolding snapshot_calls
  calls_are = refl

  module _ (fit : Fit (subvol_fields sv)) (src_small : src < 256 ^ 4) (low : 2 ≤ f.next_snap_id)
      (high : f.next_snap_id < 256 ^ 4) (ids : f.next_subvol_id + 1 < 4294967296) where
    row_w_small : Fit (subvol_fields (record sv { snap_id = s_w }))
    row_w_small = (high, fit.1)

    frozen-Fit : Fit (subvol_fields (frozen sv src s_ro))
    frozen-Fit = (omega arith, (omega arith, (fit.1.1.0, (src_small, (omega arith, tt)))))

    below_snap-Fit : (flags : ℕ) → flags ≤ 1 → Fit (snapshot_fields (below_snap sv.snap_id flags))
    below_snap-Fit flags h = (fit.0, (omega arith, (omega arith, tt)))

    rows-AllShort : AllShort rows
    unfolding snapshot_key subvol_key
    rows-AllShort =
        let a = (snapshot_image (below_snap sv.snap_id 0) (below_snap-Fit 0 (omega arith))).1 in
        let b = (snapshot_image (below_snap sv.snap_id 1) (below_snap-Fit 1 (omega arith))).1 in
        let c = (subvol_image (record sv { snap_id = s_w }) row_w_small).1 in
        let d = (subvol_image (frozen sv src s_ro) frozen-Fit).1 in
        (
          (omega (arith, length-to_be 4 s_w), omega arith),
          (
            (omega (arith, length-to_be 4 s_ro), omega arith),
            (
              (omega (arith, length-to_be 4 src), omega arith),
              ((omega (arith, length-to_be 4 f.next_subvol_id), omega arith), tt),
            ),
          ),
        )

    module _ (m : RowMap) (other : src ≢ f.next_subvol_id) where
      abbrev m1 : RowMap
      m1 = set_row row_w m

      abbrev m2 : RowMap
      m2 = set_row row_ro m1

      abbrev m3 : RowMap
      m3 = set_row row_src m2

      row_w_lem : set_rows rows m (snapshot_row_key s_w) ≡ some (row_w.value, live)
      row_w_lem =
          set_row_other row_new m3 (snapshot_row_key s_w) (kinds_apart f.next_subvol_id s_w)
          ∙ set_row_other row_src m2 (snapshot_row_key s_w) (kinds_apart src s_w)
          ∙ set_row_other row_ro m1 (snapshot_row_key s_w)
              (snapshot_keys_apart s_ro s_w (omega arith) high (λ p. (omega arith)))
          ∙ set_row_self row_w m

      row_ro_lem : set_rows rows m (snapshot_row_key s_ro) ≡ some (row_ro.value, live)
      row_ro_lem =
          set_row_other row_new m3 (snapshot_row_key s_ro) (kinds_apart f.next_subvol_id s_ro)
          ∙ set_row_other row_src m2 (snapshot_row_key s_ro) (kinds_apart src s_ro)
          ∙ set_row_self row_ro m1

      row_src_lem : set_rows rows m (subvol_row_key src) ≡ some (row_src.value, live)
      row_src_lem =
          set_row_other row_new m3 (subvol_row_key src)
            (subvol_keys_apart f.next_subvol_id src (omega arith) src_small (λ p. other (sym p)))
          ∙ set_row_self row_src m2

      others_lem :
          (j : Bytes)
          → snapshot_row_key s_w ≢ j
          → snapshot_row_key s_ro ≢ j
          → subvol_row_key src ≢ j
          → subvol_row_key f.next_subvol_id ≢ j
          → set_rows rows m j ≡ m j
      others_lem j a b c d =
          set_row_other row_new m3 j d
          ∙ set_row_other row_src m2 j c
          ∙ set_row_other row_ro m1 j b
          ∙ set_row_other row_w m j a

    -- Over a sound tree in a store with a clean allocator, with fuel above the level and the four
    -- writes together, blocks and ids left, and a source with an id of 32 bits that is there with
    -- metadata in range and is not the next subvolume id, taking a snapshot succeeds with the next
    -- subvolume id: behind it, the source is read at the next snapshot id and the new subvolume,
    -- read-only and a child of the source with the same root inode, at the id below, both
    -- snapshots are read as children of the one that the source was at, a lookup of any other key
    -- returns what it did, the next snapshot id is lower by two and the next subvolume id higher
    -- by one, and the current subvolume and the data blocks are as before.
    pub snapshot_subvol-Snapped :
        (l : ℕ)
        → Sound l f.tree.next_bset_seq f.tree.store none none f.tree.root_block
        → Clean f.tree.store
        → f.tree.store.next_block_nr + 28 * fuel < 2 ^ 64
        → l + 4 < fuel
        → get_subvol fuel f src ≡ Outcome.ok (some sv)
        → src ≢ f.next_subvol_id
        → (f' : Fs) × (snapshot_subvol fuel src f ≡ ok (f.next_subvol_id, f'))
          × Snapped fuel src sv f f'
    unfolding snapshot_subvol transact checked_sub checked_add
    snapshot_subvol-Snapped l sound clean room deep found other =
        let m = held l f.tree.store f.tree.root_block in
        let holds : Holds l m (edit f.tree) f.tree.root_block = record {
          sound = sound;
          clean = clean;
          rows = λ j. refl;
        } in
        let (t, h, done, bound, after_rows, finds) =
          transaction-set_rows fuel rows l m f.tree rows-AllShort holds (omega arith)
            (omega arith) in
        let g : Fs = record f {
          tree = t;
          next_snap_id = f.next_snap_id - 2;
          next_subvol_id = f.next_subvol_id + 1;
        } in
        let one : ltb f.next_snap_id 1 ≡ false = ground arith in
        let two : ltb f.next_snap_id 2 ≡ false = ground arith in
        let three : ltb (f.next_subvol_id + 1) 4294967296 ≡ true = ground arith in
        let ran : transaction fuel (snapshot_calls sv src s_w s_ro f.next_subvol_id) f.tree
            ≡ (t, Outcome.ok tt) =
          ap (λ cs. transaction fuel cs f.tree) calls_are ∙ done in
        let old = λ (j : Bytes).
          find_raw_lem l fuel f.tree.store none none f.tree.root_block j
            (Sound-IsTree l f.tree.next_bset_seq f.tree.store none none f.tree.root_block sound) tt
            tt (omega arith) in
        (
          g,
          rw found (rw (one, two, three) (rw ran refl)),
          record {
            writable =
                get_snapshot-of_row fuel g s_w (below_snap sv.snap_id 0)
                  (below_snap-Fit 0 (omega arith))
                  (finds (snapshot_row_key s_w) ∙ ap Outcome.ok (row_w_lem m other));
            readonly =
                get_snapshot-of_row fuel g s_ro (below_snap sv.snap_id 1)
                  (below_snap-Fit 1 (omega arith))
                  (finds (snapshot_row_key s_ro) ∙ ap Outcome.ok (row_ro_lem m other));
            source =
                get_subvol-of_row fuel g src (record sv { snap_id = s_w }) row_w_small
                  (finds (subvol_row_key src) ∙ ap Outcome.ok (row_src_lem m other));
            snapshot = get_subvol-of_row fuel g f.next_subvol_id (frozen sv src s_ro) frozen-Fit (
                finds (subvol_row_key f.next_subvol_id)
                ∙ ap Outcome.ok (set_row_self row_new (m3 m other)));
            others =
                λ j a b c d. finds j ∙ ap Outcome.ok (others_lem m other j a b c d) ∙ sym (old j);
            next_snap = refl;
            next_subvol = refl;
            current = refl;
            data_kept = refl;
          },
        )
