-- ===== src/Fs/Names.antt =====
-- fs.rs: `unlink`, `rmdir` and `rename`.
use rfs.Prelude.{
  ℕ, ◌-◌, Bool, true, false, not, Option, none, some, List, [], ◌∷◌, leb, ◌==◌, if◌then◌else◌,
}
use rfs.Bytes.{Bytes}
use rfs.Entry.{root_snap}
use rfs.Entry.Kind.{live}
use rfs.Btree.Tx.{Call, write, delete}
use rfs.Fs.Keys.{dirent_key, inode_key, deleted_inode_key}
use rfs.Fs.Values.{
  InodeV1, inode_to_bytes, dirent_to_bytes, deleted_inode_to_bytes, new_deleted_inode,
}
use rfs.Fs.Result.{FsResult, FsError, ◌>>=◌, lift, or_not_found, refuse}
use rfs.Fs.State.{Fs, current_snap, current_chain, lookup_dirent, get_inode, list_dirents, transact}

abbrev pub file_kind_dir : ℕ
file_kind_dir = 2

abbrev pub is_some {ℓ} : {A : Type ℓ} → Option A → Bool
is_some none = false
is_some (some a) = true

abbrev pub is_empty {ℓ} : {A : Type ℓ} → List A → Bool
is_empty [] = true
is_empty (x ∷ xs) = false

-- The calls of the transaction of `unlink`: the last link takes the inode with it and leaves a work
-- item, another one counts down.
unfoldable pub unlink_calls : Bytes → ℕ → InodeV1 → ℕ → List ℕ → List Call
unfolding inode_key inode_to_bytes deleted_inode_key deleted_inode_to_bytes
unlink_calls dirent_k target_ino inode snap chain =
    delete dirent_k snap chain
    ∷ (if leb inode.nlink 1
        then delete (inode_key target_ino) snap chain
          ∷ write (deleted_inode_key target_ino snap) root_snap live
              (deleted_inode_to_bytes new_deleted_inode)
          ∷ []
        else write (inode_key target_ino) snap live
            (inode_to_bytes (record inode { nlink = inode.nlink - 1 }))
          ∷ [])

module _ (fuel : ℕ) where
  unfoldable pub unlink : ℕ → Bytes → Fs → FsResult Fs
  unfolding current_snap current_chain lookup_dirent get_inode dirent_key unlink_calls transact
  unlink parent name f = do
    snap ← lift (current_snap fuel f)
    chain ← lift (current_chain fuel f)
    found ← lift (lookup_dirent fuel f parent name)
    dirent ← or_not_found found
    node ← lift (get_inode fuel f dirent.target_ino)
    inode ← or_not_found node
    dirent_k ← lift (dirent_key parent name)
    transact fuel (unlink_calls dirent_k dirent.target_ino inode snap chain) f

  unfoldable pub rmdir : ℕ → Bytes → Fs → FsResult Fs
  unfolding current_snap current_chain lookup_dirent list_dirents dirent_key inode_key transact
  rmdir parent name f = do
    snap ← lift (current_snap fuel f)
    chain ← lift (current_chain fuel f)
    found ← lift (lookup_dirent fuel f parent name)
    dirent ← or_not_found found
    _ ← refuse (not (dirent.kind == file_kind_dir)) FsError.not_a_directory
    children ← lift (list_dirents fuel f dirent.target_ino)
    _ ← refuse (not (is_empty children)) FsError.not_empty
    dirent_k ← lift (dirent_key parent name)
    transact fuel
        (delete dirent_k snap chain ∷ delete (inode_key dirent.target_ino) snap chain ∷ []) f

  unfoldable pub rename : ℕ → Bytes → ℕ → Bytes → Fs → FsResult Fs
  unfolding current_snap current_chain lookup_dirent dirent_key dirent_to_bytes transact
  rename old_parent old_name new_parent new_name f = do
    snap ← lift (current_snap fuel f)
    chain ← lift (current_chain fuel f)
    found ← lift (lookup_dirent fuel f old_parent old_name)
    src_dirent ← or_not_found found
    target ← lift (lookup_dirent fuel f new_parent new_name)
    _ ← refuse (is_some target) FsError.already_exists
    old_k ← lift (dirent_key old_parent old_name)
    new_k ← lift (dirent_key new_parent new_name)
    transact fuel
        (write new_k snap live (dirent_to_bytes src_dirent) ∷ delete old_k snap chain ∷ []) f
