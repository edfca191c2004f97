-- ===== src/Fs/State.antt =====
-- fs.rs: `Fs`, and what it reads and writes at single keys. Of the shared store, the tree has the lane
-- of nodes and the allocator, and the data blocks are an association list, its newest entry first;
-- the journal is in Fs/Commit. `fuel` bounds the descents of the tree.
use rfs.Prelude.{ℕ, ◌+◌, ◌-◌, ◌%◌, ◌^◌, Bool, Option, none, some, List, [], ◌∷◌}
use rfs.Prelude.Outcome.{Outcome, ok, err, panic, ◌>>=◌, or_panic}
use rfs.Bytes.{Bytes}
use rfs.Entry.{root_snap}
use rfs.Btree.Handle.{Btree}
use rfs.Btree.Handle as Btree
use rfs.Btree.Tx.{Call, transaction}
use rfs.Fs.Keys.{
  inode_key, dirent_key, dirent_range, snapshot_key, subvol_key, snapshot_range, subvol_range,
  snapshot_id_from_key, subvol_id_from_key, dirent_name_from_key,
}
use rfs.Fs.Values.{
  InodeV1, inode_to_bytes, inode_of_bytes, DirentV1, dirent_to_bytes, dirent_of_bytes, SnapshotV1,
  snapshot_to_bytes, snapshot_of_bytes, SubvolV1, subvol_to_bytes, subvol_of_bytes,
}
use rfs.Fs.Snapshots.{ancestor_chain, no_parent_snap}
use rfs.Store.{first_data_block_nr}
use rfs.Fs.Result.{FsResult, after}

pub record Fs : Type 0 where
  pub tree : Btree
  pub data_blocks : List (ℕ × Bytes)
  pub next_ino : ℕ
  pub next_snap_id : ℕ
  pub next_subvol_id : ℕ
  pub current_subvol : ℕ

-- A value that was found, decoded: `expect("… size mismatch")`.
abbrev pub decoded {ℓ} : {A : Type ℓ} → (Bytes → Option A) → Option Bytes → Outcome (Option A)
decoded decode none = ok none
decoded decode (some b) = or_panic (decode b) >>= λ v. ok (some v)

-- Rows of a scan, keys and values decoded.
abbrev pub decoded_rows :
    {K V : Type 0}
    → (Bytes → Outcome K)
    → (Bytes → Option V)
    → List (Bytes × Bytes)
    → Outcome (List (K × V))
decoded_rows key value [] = ok []
decoded_rows key value ((k, v) ∷ rows) = do
  a ← key k
  b ← or_panic (value v)
  rest ← decoded_rows key value rows
  ok ((a, b) ∷ rest)

-- `expect` on a result and on the option in it.
abbrev pub expect {ℓ} : {A : Type ℓ} → Outcome (Option A) → Outcome A
expect (ok (some a)) = ok a
expect (ok none) = panic
expect (err e) = panic
expect panic = panic

unfoldable pub alloc_ino : Fs → ℕ × Fs
alloc_ino f = (f.next_ino, record f { next_ino = (f.next_ino + 1) % 2 ^ 64 })

module _ (fuel : ℕ) where
  unfoldable pub put_at : Bytes → ℕ → Bytes → Fs → Outcome Fs
  unfolding Btree.insert_at
  put_at key snap value f =
      Btree.insert_at fuel key snap value f.tree >>= λ t. ok (record f { tree = t })

  unfoldable pub put_snapshot : ℕ → SnapshotV1 → Fs → Outcome Fs
  unfolding put_at snapshot_key snapshot_to_bytes
  put_snapshot snap sv f = put_at (snapshot_key snap) root_snap (snapshot_to_bytes sv) f

  unfoldable pub get_snapshot : Fs → ℕ → Outcome (Option SnapshotV1)
  unfolding Btree.find_at snapshot_key snapshot_of_bytes
  get_snapshot f snap = Btree.find_at fuel (snapshot_key snap) root_snap f.tree >>= λ b.
      decoded (λ x. snapshot_of_bytes x) b

  unfoldable pub list_snapshots : Fs → Outcome (List (ℕ × SnapshotV1))
  unfolding Btree.range_scan_visible snapshot_range snapshot_id_from_key snapshot_of_bytes
  list_snapshots f =
      Btree.range_scan_visible fuel snapshot_range.0 snapshot_range.1 (root_snap ∷ []) f.tree
      >>= λ rows. decoded_rows (λ k. snapshot_id_from_key k) (λ v. snapshot_of_bytes v) rows

  unfoldable pub put_subvol : ℕ → SubvolV1 → Fs → Outcome Fs
  unfolding put_at subvol_key subvol_to_bytes
  put_subvol id sv f = put_at (subvol_key id) root_snap (subvol_to_bytes sv) f

  unfoldable pub get_subvol : Fs → ℕ → Outcome (Option SubvolV1)
  unfolding Btree.find_at subvol_key subvol_of_bytes
  get_subvol f id = Btree.find_at fuel (subvol_key id) root_snap f.tree >>= λ b.
      decoded (λ x. subvol_of_bytes x) b

  unfoldable pub list_subvols : Fs → Outcome (List (ℕ × SubvolV1))
  unfolding Btree.range_scan_visible subvol_range subvol_id_from_key subvol_of_bytes
  list_subvols f =
      Btree.range_scan_visible fuel subvol_range.0 subvol_range.1 (root_snap ∷ []) f.tree
      >>= λ rows. decoded_rows (λ k. subvol_id_from_key k) (λ v. subvol_of_bytes v) rows

  unfoldable pub current_snap : Fs → Outcome ℕ
  unfolding get_subvol
  current_snap f = expect (get_subvol f f.current_subvol) >>= λ sv. ok sv.snap_id

  unfoldable pub current_chain : Fs → Outcome (List ℕ)
  unfolding current_snap ancestor_chain get_snapshot
  current_chain f = current_snap f >>= λ snap. ancestor_chain (λ s. get_snapshot f s) snap

  unfoldable pub put_inode : ℕ → InodeV1 → Fs → Outcome Fs
  unfolding current_snap put_at inode_key inode_to_bytes
  put_inode ino inode f =
      current_snap f >>= λ snap. put_at (inode_key ino) snap (inode_to_bytes inode) f

  unfoldable pub get_inode : Fs → ℕ → Outcome (Option InodeV1)
  unfolding current_chain Btree.find_visible inode_key inode_of_bytes
  get_inode f ino = do
    chain ← current_chain f
    b ← Btree.find_visible fuel (inode_key ino) chain f.tree
    decoded (λ x. inode_of_bytes x) b

  unfoldable pub delete_inode : ℕ → Fs → Outcome (Bool × Fs)
  unfolding current_snap current_chain Btree.delete_at inode_key
  delete_inode ino f = do
    snap ← current_snap f
    chain ← current_chain f
    r ← Btree.delete_at fuel (inode_key ino) snap chain f.tree
    ok (r.0, record f { tree = r.1 })

  unfoldable pub put_dirent : ℕ → Bytes → DirentV1 → Fs → Outcome Fs
  unfolding current_snap put_at dirent_key dirent_to_bytes
  put_dirent parent name d f = do
    snap ← current_snap f
    key ← dirent_key parent name
    put_at key snap (dirent_to_bytes d) f

  unfoldable pub lookup_dirent : Fs → ℕ → Bytes → Outcome (Option DirentV1)
  unfolding current_chain Btree.find_visible dirent_key dirent_of_bytes
  lookup_dirent f parent name = do
    chain ← current_chain f
    key ← dirent_key parent name
    b ← Btree.find_visible fuel key chain f.tree
    decoded (λ x. dirent_of_bytes x) b

  unfoldable pub delete_dirent : ℕ → Bytes → Fs → Outcome (Bool × Fs)
  unfolding current_snap current_chain Btree.delete_at dirent_key
  delete_dirent parent name f = do
    snap ← current_snap f
    chain ← current_chain f
    key ← dirent_key parent name
    r ← Btree.delete_at fuel key snap chain f.tree
    ok (r.0, record f { tree = r.1 })

  unfoldable pub list_dirents : Fs → ℕ → Outcome (List (Bytes × DirentV1))
  unfolding current_chain Btree.range_scan_visible dirent_range dirent_name_from_key dirent_of_bytes
  list_dirents f parent = do
    chain ← current_chain f
    rows ←
        Btree.range_scan_visible fuel (dirent_range parent).0 (dirent_range parent).1 chain f.tree
    decoded_rows (λ k. dirent_name_from_key k) (λ v. dirent_of_bytes v) rows

  -- The calls of one transaction.
  unfoldable pub transact : List Call → Fs → FsResult Fs
  unfolding transaction
  transact calls f =
      let r : Btree × Outcome (Unit {0}) = transaction fuel calls f.tree in
      after r.1 (record f { tree = r.0 })

  -- `seed`: the root snapshot and the default subvolume, which is at it. An error is returned where
  -- the source's `expect` panics.
  unfoldable pub seed : Btree → ℕ → Outcome Fs
  unfolding put_snapshot put_subvol
  seed t root_ino = do
    f ←
        put_snapshot root_snap (record { parent_id = no_parent_snap; flags = 0; reserved = 0 })
          (record {
            tree = t;
            data_blocks = [];
            next_ino = root_ino;
            next_snap_id = root_snap - 1;
            next_subvol_id = 2;
            current_subvol = 1;
          })
    put_subvol 1
        (record { snap_id = root_snap; flags = 0; root_inode = 1; parent_subvol = 0; reserved = 0 })
        f

  -- `Fs::new`: in memory.
  unfoldable pub new : Outcome Fs
  unfolding Btree.create_in seed
  new =
      seed
        (Btree.create_in
          (record { nodes = []; next_block_nr = first_data_block_nr; free_list = [] }))
        1
