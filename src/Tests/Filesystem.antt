-- ===== src/Tests/Filesystem.antt =====
-- File systems of one leaf: a snapshot, a deleted inode, and data blocks that nothing refers to.
use rfs.Prelude.{
  ◌+◌, ℕ, ◌≤◌, inr, ◌++◌, ◌≡◌, ◌<◌, refl, true, false, Option, none, some, List, [], ◌∷◌, arith,
  ◌||◌, if◌then◌else◌, ◌==◌,
}
use rfs.Prelude.Outcome as Outcome
use rfs.Prelude.Outcome.{Outcome, ◌>>=◌}
use rfs.Bytes.{Bytes, to_be, to_le, of_le, compare_bytes}
use rfs.Layout.{pack, unpack}
use rfs.Entry.{build_leaf_entry, key_bytes, kind_enum, value_bytes, snap_id, logical_key_bytes}
use rfs.Node.Merged.{merged}
use rfs.Btree.Read.{row_of}
use rfs.Node.{sort_insert_into_last_bset}
use rfs.Leaf.{contains}
use rfs.Fs.Keys.{dirent_key, kind_dirent}
use rfs.Fs.Values.{SnapshotV1, extent_to_bytes}
use rfs.Fs.Gc.{mark_and_sweep}
use rfs.Fs.Gc.Sweep.{Swept, mark_and_sweep-Swept}
use rfs.Entry.{DiskEntry}
use rfs.Entry.Image.{leaf_entry}
use rfs.Entry.Kind.{live}
use rfs.Node.{Node}
use rfs.Btree.{with_node}
use rfs.Btree.Split.{one_bset}
use rfs.Btree.Shape.{IsTree}
use rfs.Fs.Gc.Live.{AllExtents, extent_rows, is_referred}
use rfs.Entry.{root_snap}
use rfs.Fs.Keys.{extent_key}
use rfs.Store.{first_data_block_nr}
use rfs.Fs.Reclaim.{reclaim_deleted_inodes}
use rfs.Fs.Reclaim.Budget.{reclaim-budget}
use rfs.Fs.Reclaim.Removals.{removals}
use rfs.Fs.Keys.{subvol_key, deleted_inode_key}
use rfs.Fs.Values.{SubvolV1, subvol_to_bytes, deleted_inode_to_bytes}
use rfs.Leaf.View.{IsLeaf}
use rfs.Btree.Sound.{Clean, Sound}
use rfs.Fs.State.{get_subvol}
use rfs.Fuse.{validate_name, IsName, validate_name-dirent_key}
use rfs.Fs.Snapshots.{ancestor_chain, is_ancestor}
use rfs.Fs.Snapshots.Chain.{
  get_snapshot, Ancestors, IsAscendingFrom, ancestor_chain_lem, is_ancestor-ancestor_chain,
}
use rfs.Fs.Result.{ok}
use rfs.Fs.State.{Fs}
use rfs.Fs.Subvolumes.{snapshot_subvol}
use rfs.Fs.Subvolumes.Taken.{Snapped, snapshot_subvol-Snapped}

abbrev bare : Fs
bare = record {
  tree = record {
    root_block = 0;
    store = record { nodes = []; next_block_nr = 0; free_list = [] };
    next_bset_seq = 0;
    log = [];
    logging = true;
  };
  data_blocks = [];
  next_ino = 0;
  next_snap_id = 0;
  next_subvol_id = 0;
  current_subvol = 0;
}

-- The snapshots 3 and 5 are children of 9, which is at the top.
abbrev links : ℕ → Option SnapshotV1
links snap =
    if snap == 9
    then some (record { parent_id = 0; flags = 0; reserved = 0 })
    else if snap == 3 || snap == 5
    then some (record { parent_id = 9; flags = 0; reserved = 0 })
    else none

links_small : (snap : ℕ) (m : SnapshotV1) → links snap ≡ some m → m.parent_id < 4294967296
links_small snap m h = ground arith

ancestor_chain_lem_example :
    (parents : List ℕ) × (ancestor_chain (get_snapshot links links_small) 3
      ≡ Outcome.ok (3 ∷ parents))
    × Ancestors links links_small 3 parents
    × IsAscendingFrom 3 parents
ancestor_chain_lem_example = ancestor_chain_lem links links_small 3 (omega arith)

is_ancestor-ancestor_chain_example :
    is_ancestor (get_snapshot links links_small) 9 3
    ≡ (ancestor_chain (get_snapshot links links_small) 3 >>= λ chain. Outcome.ok (contains chain 9))
is_ancestor-ancestor_chain_example = is_ancestor-ancestor_chain links links_small 9 3 (omega arith)

abbrev name_a : Bytes
name_a = 97 ∷ []

name_a-accepted : validate_name name_a ≡ inr name_a
unfolding validate_name compare_bytes
name_a-accepted = refl

validate_name-dirent_key_example :
    (name_a ≡ name_a)
    × IsName name_a
    × (dirent_key 1 name_a ≡ Outcome.ok ((kind_dirent ∷ to_be 8 1) ++ name_a))
validate_name-dirent_key_example = validate_name-dirent_key 1 name_a name_a name_a-accepted

-- A file system with an extent at the data block 67, and with the blocks 66 to 69 taken.
abbrev extent_entry : DiskEntry
extent_entry =
    leaf_entry (extent_key 1 0 ++ to_be 4 root_snap) live
      (extent_to_bytes (record { len = 5; pad = 0; data_block = 67 }))

abbrev extent_leaf : Node
extent_leaf = one_bset 0 0 (extent_entry ∷ [])

abbrev orphaned : Fs
orphaned = record bare {
  tree = record {
    root_block = 65;
    store = record {
      nodes = (65, record { node = extent_leaf; dirty = false }) ∷ [];
      next_block_nr = 70;
      free_list = [];
    };
    next_bset_seq = 1;
    log = [];
    logging = true;
  };
}

orphaned-IsTree : IsTree 0 orphaned.tree.store none none 65
unfolding with_node merged
orphaned-IsTree = (extent_leaf, refl, refl, (tt, (tt, tt), tt), (tt, tt, tt))

orphaned-AllExtents : AllExtents (extent_rows 0 orphaned.tree.store 65)
unfolding rfs.Btree.Range.between rfs.Btree.Shape.entries_of with_node merged compare_bytes
    key_bytes extent_key to_be rfs.Entry.filled rfs.Fs.Values.extent_of_bytes unpack row_of
    value_bytes extent_to_bytes pack to_le of_le
orphaned-AllExtents = ((λ q. (record { len = 5; pad = 0; data_block = 67 }, refl)), tt)

mark_and_sweep-Swept_example :
    (r : ℕ × Fs) × (mark_and_sweep 2 (68 ∷ []) orphaned ≡ Outcome.ok r)
    × Swept (is_referred 0 (68 ∷ []) orphaned.tree) first_data_block_nr 70 (0, orphaned) r
mark_and_sweep-Swept_example =
    mark_and_sweep-Swept 0 2 (68 ∷ []) orphaned orphaned-IsTree (omega arith) orphaned-AllExtents

abbrev with_leaf : Node → Fs
with_leaf node = record bare {
  tree = record {
    root_block = 65;
    store = record {
      nodes = (65, record { node = node; dirty = false }) ∷ [];
      next_block_nr = 70;
      free_list = [];
    };
    next_bset_seq = 1;
    log = [];
    logging = true;
  };
  next_snap_id = 4294967294;
  next_subvol_id = 2;
}

-- The inode 5 is deleted at the snapshot 9, of which nothing is left.
abbrev deleted_entry : DiskEntry
deleted_entry =
    leaf_entry (deleted_inode_key 5 9 ++ to_be 4 root_snap) live
      (deleted_inode_to_bytes (record { next_offset = 0; pad = 0 }))

abbrev with_deleted_inode : Fs
with_deleted_inode = with_leaf (one_bset 0 0 (deleted_entry ∷ []))

reclaim-budget_example :
    Outcome.Ends
      (λ r. (r.0 ≤ 5) × (removals r.1.tree.log ≤ removals with_deleted_inode.tree.log + r.0))
      (reclaim_deleted_inodes 2 5 with_deleted_inode)
reclaim-budget_example = reclaim-budget 2 5 with_deleted_inode

-- The subvolume 1 at the snapshot at the top.
abbrev source_meta : SubvolV1
source_meta = record {
  snap_id = 4294967295;
  flags = 0;
  root_inode = 1;
  parent_subvol = 0;
  reserved = 0;
}

abbrev source_leaf : Node
source_leaf =
    one_bset 0 0
      (leaf_entry (subvol_key 1 ++ to_be 4 root_snap) live (subvol_to_bytes source_meta) ∷ [])

abbrev source_fs : Fs
source_fs = with_leaf source_leaf

source_leaf-IsLeaf : IsLeaf source_leaf 1
source_leaf-IsLeaf = record {
  leaf = refl;
  ordered = (tt, (tt, tt), tt);
  seqs = (omega arith, tt);
  room = omega arith;
  few = omega arith;
}

source_fs-Sound : Sound 0 1 source_fs.tree.store none none 65
unfolding with_node compare_bytes key_bytes rfs.Entry.filled rfs.Node.Merged.merged subvol_key to_be
    subvol_to_bytes pack to_le
source_fs-Sound = (
  source_leaf,
  refl,
  (refl, omega arith),
  source_leaf-IsLeaf,
  ((tt, tt, (omega arith, omega arith)), tt),
)

source_fs-Clean : Clean source_fs.tree.store
source_fs-Clean = record { once = λ nr. omega arith; bound = λ nr h. omega arith }

source_fs-get_subvol : get_subvol 5 source_fs 1 ≡ Outcome.ok (some source_meta)
unfolding get_subvol with_node to_be compare_bytes key_bytes rfs.Entry.filled kind_enum unpack
    value_bytes subvol_to_bytes pack to_le of_le
source_fs-get_subvol = refl

snapshot_subvol-Snapped_example :
    (f' : Fs) × (snapshot_subvol 5 1 source_fs ≡ ok (2, f')) × Snapped 5 1 source_meta source_fs f'
snapshot_subvol-Snapped_example =
    snapshot_subvol-Snapped 5 1 source_meta source_fs
      (omega arith, (omega arith, (omega arith, (omega arith, (omega arith, tt))))) (omega arith)
      (omega arith) (omega arith) (omega arith) 0 source_fs-Sound source_fs-Clean (omega arith)
      (omega arith) source_fs-get_subvol (omega arith)
