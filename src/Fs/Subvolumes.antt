-- ===== src/Fs/Subvolumes.antt =====
-- fs.rs: `snapshot_subvol`, `switch_subvol`, `delete_snapshot` and `sweep_unreferenced_snapshots`.
pub mod Rows
pub mod Taken
use rfs.Prelude.{
  ℕ, zero, suc, ◌+◌, ◌-◌, ◌%◌, Bool, true, false, not, ◌&&◌, ◌||◌, Option, none, some, List, [],
  ◌∷◌, map, ltb, ◌==◌, if◌then◌else◌,
}
use rfs.Prelude.Outcome.{Outcome}
use rfs.Entry.{root_snap}
use rfs.Entry.Kind.{live}
use rfs.Leaf.{contains}
use rfs.Btree.Handle.{Btree}
use rfs.Btree.Split.{Edit}
use rfs.Btree.Handle as Btree
use rfs.Btree.Sweep.{drop_snapshot_keys}
use rfs.Btree.Tx.{Call, write, delete}
use rfs.Fs.Keys.{snapshot_key, subvol_key}
use rfs.Fs.Values.{SnapshotV1, snapshot_to_bytes, SubvolV1, subvol_to_bytes}
use rfs.Fs.Snapshots.{is_ancestor, no_parent_snap}
use rfs.Fs.Result.{FsResult, FsError, ok, err, panic, ◌>>=◌, lift, or_not_found, refuse}
use rfs.Fs.State.{Fs, get_snapshot, get_subvol, list_snapshots, list_subvols, transact}

abbrev pub root_subvol : ℕ
root_subvol = 1

-- `1 << 0`.
abbrev pub subvol_flag_readonly : ℕ
subvol_flag_readonly = 1

-- `flags & SUBVOL_FLAG_READONLY != 0`.
abbrev pub is_readonly : SubvolV1 → Bool
is_readonly sv = sv.flags % 2 == 1

-- `checked_sub` and `checked_add` on a `u32`.
unfoldable pub checked_sub : ℕ → ℕ → FsResult ℕ
checked_sub a b = if ltb a b then err FsError.exhausted else ok (a - b)

unfoldable pub checked_add : ℕ → ℕ → FsResult ℕ
checked_add a b = if ltb (a + b) 4294967296 then ok (a + b) else err FsError.exhausted

abbrev pub child_of : ℕ → ℕ → SnapshotV1
child_of parent flags = record { parent_id = parent; flags = flags; reserved = 0 }

-- The calls of the transaction of `snapshot_subvol`.
unfoldable pub snapshot_calls : SubvolV1 → ℕ → ℕ → ℕ → ℕ → List Call
unfolding snapshot_key snapshot_to_bytes subvol_key subvol_to_bytes
snapshot_calls sv src s_w s_ro new_subvol_id =
    write (snapshot_key s_w) root_snap live (snapshot_to_bytes (child_of sv.snap_id 0))
    ∷ write (snapshot_key s_ro) root_snap live (snapshot_to_bytes (child_of sv.snap_id 1))
    ∷ write (subvol_key src) root_snap live (subvol_to_bytes (record sv { snap_id = s_w }))
    ∷ write (subvol_key new_subvol_id) root_snap live (
        subvol_to_bytes (record {
          snap_id = s_ro;
          flags = subvol_flag_readonly;
          root_inode = sv.root_inode;
          parent_subvol = src;
          reserved = 0;
        }))
    ∷ []

-- The parents that have a child, in a round of `sweep_unreferenced_snapshots`.
abbrev pub parent_ids : List (ℕ × SnapshotV1) → List ℕ
parent_ids [] = []
parent_ids ((snap, meta) ∷ rows) =
    let rest : List ℕ = parent_ids rows in
    if meta.parent_id == no_parent_snap then rest else meta.parent_id ∷ rest

-- The deletes of a round's transaction.
unfoldable pub deletes : List ℕ → List Call
unfolding snapshot_key
deletes [] = []
deletes (snap ∷ snaps) = delete (snapshot_key snap) root_snap (root_snap ∷ []) ∷ deletes snaps

-- The snapshots that a round deletes.
abbrev pub candidates : List ℕ → List ℕ → List (ℕ × SnapshotV1) → List ℕ
candidates subvol_snaps parent_ids [] = []
candidates subvol_snaps parent_ids ((snap, meta) ∷ rows) =
    let rest : List ℕ = candidates subvol_snaps parent_ids rows in
    if not (snap == root_snap) && not (contains subvol_snaps snap) && not (contains parent_ids snap)
    then snap ∷ rest
    else rest

abbrev pub has_child : ℕ → List (ℕ × SnapshotV1) → Bool
has_child dead_snap [] = false
has_child dead_snap ((snap, meta) ∷ rows) = meta.parent_id == dead_snap || has_child dead_snap rows

module _ (fuel : ℕ) where
  -- The new subvolume's id, and the file system.
  unfoldable pub snapshot_subvol : ℕ → Fs → FsResult (ℕ × Fs)
  unfolding get_subvol checked_sub checked_add snapshot_calls transact
  snapshot_subvol src f = do
    found ← lift (get_subvol fuel f src)
    sv ← or_not_found found
    s_ro ← checked_sub f.next_snap_id 1
    next_snap_id ← checked_sub f.next_snap_id 2
    next_subvol_id ← checked_add f.next_subvol_id 1
    f' ← transact fuel (snapshot_calls sv src f.next_snap_id s_ro f.next_subvol_id) f
    ok (
      f.next_subvol_id,
      record f' { next_snap_id = next_snap_id; next_subvol_id = next_subvol_id },
    )

  unfoldable pub switch_subvol : ℕ → Fs → FsResult Fs
  unfolding get_subvol
  switch_subvol id f = do
    found ← lift (get_subvol fuel f id)
    sv ← or_not_found found
    ok (record f { current_subvol = id })

  unfoldable pub drop_keys : ℕ → Fs → FsResult Fs
  unfolding drop_snapshot_keys
  drop_keys dead_snap f =
      lift (drop_snapshot_keys fuel dead_snap (Btree.edit f.tree) f.tree.root_block) >>= λ r.
      ok
        (record f { tree = record f.tree { store = r.1.store; next_bset_seq = r.1.next_bset_seq } })

  unfoldable pub drop_all_keys : List ℕ → Fs → FsResult Fs
  unfolding drop_keys
  drop_all_keys [] f = ok f
  drop_all_keys (snap ∷ snaps) f = drop_keys snap f >>= λ f'. drop_all_keys snaps f'

  -- The refusals over the other subvolumes.
  unfoldable pub none_depends : Fs → ℕ → ℕ → List (ℕ × SubvolV1) → FsResult (Unit {0})
  unfolding get_snapshot is_ancestor
  none_depends f subvol dead_snap [] = ok tt
  none_depends f subvol dead_snap ((id, meta) ∷ rows) =
      let rest = none_depends f subvol dead_snap rows in
      if id == subvol
      then rest
      else (refuse (meta.parent_subvol == subvol) FsError.busy >>= λ u.
          lift (is_ancestor (λ s. get_snapshot fuel f s) dead_snap meta.snap_id) >>= λ hit.
          refuse hit FsError.busy >>= λ v. rest)

  -- One round deletes every candidate; without candidates the loop ends.
  unfoldable pub sweep_unreferenced_snapshots : ℕ → Fs → FsResult Fs
  unfolding list_subvols list_snapshots transact drop_all_keys deletes
  sweep_unreferenced_snapshots zero f = panic
  sweep_unreferenced_snapshots (suc rounds) f = do
    subvols ← lift (list_subvols fuel f)
    snapshots ← lift (list_snapshots fuel f)
    elim (candidates (map (λ r. r.1.snap_id) subvols) (parent_ids snapshots) snapshots) [
      | [] ↦ ok f
      | c ∷ cs ↦
          (transact fuel (deletes (c ∷ cs)) f >>= λ f'.
          drop_all_keys (c ∷ cs) f' >>= λ f''. sweep_unreferenced_snapshots rounds f'')
    ]

  unfoldable pub delete_snapshot : ℕ → ℕ → Fs → FsResult Fs
  unfolding get_subvol list_snapshots list_subvols none_depends transact drop_keys
      sweep_unreferenced_snapshots snapshot_key subvol_key
  delete_snapshot rounds subvol f = do
    _ ← refuse (subvol == root_subvol) FsError.invalid
    found ← lift (get_subvol fuel f subvol)
    target ← or_not_found found
    _ ← refuse (not (is_readonly target)) FsError.invalid
    _ ← refuse (f.current_subvol == subvol) FsError.busy
    _ ← refuse (target.snap_id == root_snap) FsError.invalid
    snapshots ← lift (list_snapshots fuel f)
    _ ← refuse (has_child target.snap_id snapshots) FsError.busy
    subvols ← lift (list_subvols fuel f)
    _ ← none_depends f subvol target.snap_id subvols
    f1 ←
        transact fuel
          (delete (snapshot_key target.snap_id) root_snap (root_snap ∷ [])
            ∷ delete (subvol_key subvol) root_snap (root_snap ∷ [])
            ∷ [])
          f
    f2 ← drop_keys target.snap_id f1
    sweep_unreferenced_snapshots rounds f2
