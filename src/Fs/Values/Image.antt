-- ===== src/Fs/Values/Image.antt =====
-- fs.rs: the byte images of the values have the sizes that the source asserts, and read back.
use rfs.Prelude.{◌≡◌, refl, some, length}
use rfs.Layout.{Fit, length-pack, unpack-pack}
use rfs.Fs.Values.{
  InodeV1, inode_fields, inode_to_bytes, inode_of_bytes, DirentV1, dirent_fields, dirent_to_bytes,
  dirent_of_bytes, ExtentV1, extent_fields, extent_to_bytes, extent_of_bytes, SnapshotV1,
  snapshot_fields, snapshot_to_bytes, snapshot_of_bytes, SubvolV1, subvol_fields, subvol_to_bytes,
  subvol_of_bytes, DeletedInodeV1, deleted_inode_fields, deleted_inode_to_bytes,
  deleted_inode_of_bytes,
}

-- A value in range reads back from its image of 56 bytes.
pub inode_image :
    (v : InodeV1)
    → Fit (inode_fields v)
    → (inode_of_bytes (inode_to_bytes v) ≡ some v) × (length (inode_to_bytes v) ≡ 56)
unfolding inode_of_bytes inode_to_bytes
inode_image v h = (rw (unpack-pack (inode_fields v) h) refl, length-pack (inode_fields v))

-- A value in range reads back from its image of 16 bytes.
pub dirent_image :
    (v : DirentV1)
    → Fit (dirent_fields v)
    → (dirent_of_bytes (dirent_to_bytes v) ≡ some v) × (length (dirent_to_bytes v) ≡ 16)
unfolding dirent_of_bytes dirent_to_bytes
dirent_image v h = (rw (unpack-pack (dirent_fields v) h) refl, length-pack (dirent_fields v))

-- A value in range reads back from its image of 16 bytes.
pub extent_image :
    (v : ExtentV1)
    → Fit (extent_fields v)
    → (extent_of_bytes (extent_to_bytes v) ≡ some v) × (length (extent_to_bytes v) ≡ 16)
unfolding extent_of_bytes extent_to_bytes
extent_image v h = (rw (unpack-pack (extent_fields v) h) refl, length-pack (extent_fields v))

-- A value in range reads back from its image of 24 bytes.
pub snapshot_image :
    (v : SnapshotV1)
    → Fit (snapshot_fields v)
    → (snapshot_of_bytes (snapshot_to_bytes v) ≡ some v) × (length (snapshot_to_bytes v) ≡ 24)
unfolding snapshot_of_bytes snapshot_to_bytes
snapshot_image v h = (rw (unpack-pack (snapshot_fields v) h) refl, length-pack (snapshot_fields v))

-- A value in range reads back from its image of 32 bytes.
pub subvol_image :
    (v : SubvolV1)
    → Fit (subvol_fields v)
    → (subvol_of_bytes (subvol_to_bytes v) ≡ some v) × (length (subvol_to_bytes v) ≡ 32)
unfolding subvol_of_bytes subvol_to_bytes
subvol_image v h = (rw (unpack-pack (subvol_fields v) h) refl, length-pack (subvol_fields v))

-- A value in range reads back from its image of 16 bytes.
pub deleted_inode_image :
    (v : DeletedInodeV1)
    → Fit (deleted_inode_fields v)
    → (deleted_inode_of_bytes (deleted_inode_to_bytes v) ≡ some v)
      × (length (deleted_inode_to_bytes v) ≡ 16)
unfolding deleted_inode_of_bytes deleted_inode_to_bytes
deleted_inode_image v h =
    (rw (unpack-pack (deleted_inode_fields v) h) refl, length-pack (deleted_inode_fields v))
