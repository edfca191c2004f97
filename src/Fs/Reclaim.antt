-- ===== src/Fs/Reclaim.antt =====
-- fs.rs: `reclaim_deleted_inodes`, which works off the inodes that were unlinked, within a budget of
-- deletes.
pub mod Budget
pub mod Removals
use rfs.Prelude.{
  ℕ, zero, suc, ◌+◌, ◌-◌, Bool, true, false, Option, none, some, List, [], ◌∷◌, ◌==◌, if◌then◌else◌,
}
use rfs.Prelude.Outcome.{Outcome, ok, panic, ◌>>=◌, or_panic}
use rfs.Bytes.{Bytes}
use rfs.Entry.{root_snap}
use rfs.Visible.{Row}
use rfs.Btree.{free}
use rfs.Btree.Handle as Btree
use rfs.Fs.Keys.{
  extent_key, extent_range, extent_offset_from_key, deleted_inode_key, deleted_inode_range,
  deleted_inode_from_key, next_u64,
}
use rfs.Fs.Values.{
  extent_of_bytes, SnapshotV1, DeletedInodeV1, deleted_inode_to_bytes, deleted_inode_of_bytes,
}
use rfs.Fs.Snapshots.{ancestor_chain}
use rfs.Fs.State.{Fs, decoded_rows, put_at, get_snapshot}
use rfs.Fs.Files.{free_data_block}

-- What a pass has left, and what it has done.
pub record Pass : Type 0 where
  pub fs : Fs
  pub budget : ℕ
  pub issued : ℕ

-- One delete.
abbrev pub spend : Fs → Pass → Pass
spend f p = record { fs = f; budget = p.budget - 1; issued = p.issued + 1 }

-- The end of the loop over the extents of one inode.
pub record Extents : Type 0 where
  pub pass : Pass
  pub finished : Bool
  pub last_offset : ℕ

module _ (fuel : ℕ) where
  unfoldable pub put_deleted_inode : ℕ → ℕ → ℕ → Fs → Outcome Fs
  unfolding put_at deleted_inode_key deleted_inode_to_bytes
  put_deleted_inode ino snap next_offset f =
      put_at fuel (deleted_inode_key ino snap) root_snap
        (deleted_inode_to_bytes (record { next_offset = next_offset; pad = 0 })) f

  unfoldable pub delete_deleted_inode : ℕ → ℕ → Fs → Outcome Fs
  unfolding Btree.delete_at deleted_inode_key
  delete_deleted_inode ino snap f =
      Btree.delete_at fuel (deleted_inode_key ino snap) root_snap (root_snap ∷ []) f.tree >>= λ r.
      ok (record f { tree = r.1 })

  unfoldable pub list_deleted_inodes : Fs → Outcome (List ((ℕ × ℕ) × DeletedInodeV1))
  unfolding Btree.range_scan_visible deleted_inode_range deleted_inode_from_key
      deleted_inode_of_bytes
  list_deleted_inodes f =
      Btree.range_scan_visible fuel deleted_inode_range.0 deleted_inode_range.1 (root_snap ∷ [])
        f.tree
      >>= λ rows. decoded_rows (λ k. deleted_inode_from_key k) (λ v. deleted_inode_of_bytes v) rows

  -- A data block is freed only where the extent lives at the inode's own snapshot.
  unfoldable pub reclaim_extents : ℕ → ℕ → List ℕ → List Row → ℕ → Pass → Outcome Extents
  unfolding extent_of_bytes extent_offset_from_key Btree.delete_at extent_key free_data_block
  reclaim_extents ino snap chain [] last_offset p =
      ok (record { pass = p; finished = true; last_offset = last_offset })
  reclaim_extents ino snap chain (r ∷ rows) last_offset p =
      if p.budget == 0
      then ok (record { pass = p; finished = false; last_offset = last_offset })
      else (or_panic (extent_of_bytes r.value) >>= λ ext.
          extent_offset_from_key r.logical >>= λ offset.
          Btree.delete_at fuel (extent_key ino offset) snap chain p.fs.tree >>= λ d.
          let deleted : Fs = record p.fs { tree = d.1 } in
          reclaim_extents ino snap chain rows offset
            (spend (if r.snap == snap then free_data_block ext.data_block deleted else deleted) p))

  -- The end of one inode: its work item goes, if there is budget for it, or its progress is kept.
  unfoldable pub finish_inode : ℕ → ℕ → ℕ → Extents → Outcome Pass
  unfolding delete_deleted_inode put_deleted_inode
  finish_inode ino snap next_offset x =
      if x.finished
      then (if x.pass.budget == 0
          then ok x.pass
          else (delete_deleted_inode ino snap x.pass.fs >>= λ f. ok (spend f x.pass)))
      else if next_u64 x.last_offset == next_offset
      then ok x.pass
      else (put_deleted_inode ino snap (next_u64 x.last_offset) x.pass.fs >>= λ f.
          ok (record x.pass { fs = f }))

  -- One inode, by its snapshot's metadata: where the snapshot is gone, the work item is obsolete.
  unfoldable pub reclaim_found : ℕ → ℕ → ℕ → Pass → Option SnapshotV1 → Outcome Pass
  unfolding delete_deleted_inode ancestor_chain get_snapshot extent_range extent_key
      Btree.range_scan_visible_with_snap reclaim_extents finish_inode
  reclaim_found ino snap next_offset p none =
      delete_deleted_inode ino snap p.fs >>= λ f. ok (spend f p)
  reclaim_found ino snap next_offset p (some meta) = do
    chain ← ancestor_chain (λ s. get_snapshot fuel p.fs s) snap
    rows ←
        Btree.range_scan_visible_with_snap fuel (extent_key ino next_offset) (extent_range ino).1
          chain p.fs.tree
    x ← reclaim_extents ino snap chain rows next_offset p
    finish_inode ino snap next_offset x

  unfoldable pub reclaim_inode : ℕ → ℕ → ℕ → Pass → Outcome Pass
  unfolding get_snapshot reclaim_found
  reclaim_inode ino snap next_offset p =
      get_snapshot fuel p.fs snap >>= λ found. reclaim_found ino snap next_offset p found

  unfoldable pub reclaim_each : List ((ℕ × ℕ) × DeletedInodeV1) → Pass → Outcome Pass
  unfolding reclaim_inode
  reclaim_each [] p = ok p
  reclaim_each (((ino, snap), progress) ∷ orphans) p =
      if p.budget == 0
      then ok p
      else (reclaim_inode ino snap progress.next_offset p >>= λ q. reclaim_each orphans q)

  -- The number of deletes issued, and the file system.
  unfoldable pub reclaim_deleted_inodes : ℕ → Fs → Outcome (ℕ × Fs)
  unfolding list_deleted_inodes reclaim_each
  reclaim_deleted_inodes op_budget f = do
    orphans ← list_deleted_inodes f
    p ← reclaim_each orphans (record { fs = f; budget = op_budget; issued = 0 })
    ok (p.issued, p.fs)
