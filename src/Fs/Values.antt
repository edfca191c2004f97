-- ===== src/Fs/Values.antt =====
-- fs.rs: the values of the trees, `#[repr(C)]` structs with their byte images. Padding and reserved
-- bytes are numbers of their width.
pub mod Image
use mathlib.Core.Option
use rfs.Prelude.{ℕ, ◌≡◌, Option, List, [], ◌∷◌, get_or}
use rfs.Bytes.{Bytes}
use rfs.Layout.{Fields, pack, unpack}

pub record InodeV1 : Type 0 where
  pub mode : ℕ
  pub uid : ℕ
  pub gid : ℕ
  pub nlink : ℕ
  pub size : ℕ
  pub atime : ℕ
  pub mtime : ℕ
  pub ctime : ℕ
  pub parent_ino : ℕ

abbrev pub inode_fields : InodeV1 → Fields
inode_fields v =
    (4, v.mode)
    ∷ (4, v.uid)
    ∷ (4, v.gid)
    ∷ (4, v.nlink)
    ∷ (8, v.size)
    ∷ (8, v.atime)
    ∷ (8, v.mtime)
    ∷ (8, v.ctime)
    ∷ (8, v.parent_ino)
    ∷ []

unfoldable pub inode_to_bytes : InodeV1 → Bytes
inode_to_bytes v = pack (inode_fields v)

abbrev inode_of : List ℕ → InodeV1
inode_of vs = record {
  mode = get_or vs 0 0;
  uid = get_or vs 1 0;
  gid = get_or vs 2 0;
  nlink = get_or vs 3 0;
  size = get_or vs 4 0;
  atime = get_or vs 5 0;
  mtime = get_or vs 6 0;
  ctime = get_or vs 7 0;
  parent_ino = get_or vs 8 0;
}

unfoldable pub inode_of_bytes : Bytes → Option InodeV1
inode_of_bytes bs = Option.map inode_of (unpack (4 ∷ 4 ∷ 4 ∷ 4 ∷ 8 ∷ 8 ∷ 8 ∷ 8 ∷ 8 ∷ []) bs)

pub record DirentV1 : Type 0 where
  pub target_ino : ℕ
  pub kind : ℕ
  pub pad : ℕ

abbrev pub dirent_fields : DirentV1 → Fields
dirent_fields v = (8, v.target_ino) ∷ (1, v.kind) ∷ (7, v.pad) ∷ []

unfoldable pub dirent_to_bytes : DirentV1 → Bytes
dirent_to_bytes v = pack (dirent_fields v)

abbrev dirent_of : List ℕ → DirentV1
dirent_of vs = record { target_ino = get_or vs 0 0; kind = get_or vs 1 0; pad = get_or vs 2 0 }

unfoldable pub dirent_of_bytes : Bytes → Option DirentV1
dirent_of_bytes bs = Option.map dirent_of (unpack (8 ∷ 1 ∷ 7 ∷ []) bs)

pub record ExtentV1 : Type 0 where
  pub len : ℕ
  pub pad : ℕ
  pub data_block : ℕ

abbrev pub extent_fields : ExtentV1 → Fields
extent_fields v = (4, v.len) ∷ (4, v.pad) ∷ (8, v.data_block) ∷ []

unfoldable pub extent_to_bytes : ExtentV1 → Bytes
extent_to_bytes v = pack (extent_fields v)

abbrev extent_of : List ℕ → ExtentV1
extent_of vs = record { len = get_or vs 0 0; pad = get_or vs 1 0; data_block = get_or vs 2 0 }

unfoldable pub extent_of_bytes : Bytes → Option ExtentV1
extent_of_bytes bs = Option.map extent_of (unpack (4 ∷ 4 ∷ 8 ∷ []) bs)

pub record SnapshotV1 : Type 0 where
  pub parent_id : ℕ
  pub flags : ℕ
  pub reserved : ℕ

abbrev pub snapshot_fields : SnapshotV1 → Fields
snapshot_fields v = (4, v.parent_id) ∷ (4, v.flags) ∷ (16, v.reserved) ∷ []

unfoldable pub snapshot_to_bytes : SnapshotV1 → Bytes
snapshot_to_bytes v = pack (snapshot_fields v)

abbrev snapshot_of : List ℕ → SnapshotV1
snapshot_of vs = record {
  parent_id = get_or vs 0 0;
  flags = get_or vs 1 0;
  reserved = get_or vs 2 0;
}

unfoldable pub snapshot_of_bytes : Bytes → Option SnapshotV1
snapshot_of_bytes bs = Option.map snapshot_of (unpack (4 ∷ 4 ∷ 16 ∷ []) bs)

pub record SubvolV1 : Type 0 where
  pub snap_id : ℕ
  pub flags : ℕ
  pub root_inode : ℕ
  pub parent_subvol : ℕ
  pub reserved : ℕ

abbrev pub subvol_fields : SubvolV1 → Fields
subvol_fields v =
    (4, v.snap_id) ∷ (4, v.flags) ∷ (8, v.root_inode) ∷ (4, v.parent_subvol) ∷ (12, v.reserved) ∷ []

unfoldable pub subvol_to_bytes : SubvolV1 → Bytes
subvol_to_bytes v = pack (subvol_fields v)

abbrev subvol_of : List ℕ → SubvolV1
subvol_of vs = record {
  snap_id = get_or vs 0 0;
  flags = get_or vs 1 0;
  root_inode = get_or vs 2 0;
  parent_subvol = get_or vs 3 0;
  reserved = get_or vs 4 0;
}

unfoldable pub subvol_of_bytes : Bytes → Option SubvolV1
subvol_of_bytes bs = Option.map subvol_of (unpack (4 ∷ 4 ∷ 8 ∷ 4 ∷ 12 ∷ []) bs)

pub record DeletedInodeV1 : Type 0 where
  pub next_offset : ℕ
  pub pad : ℕ

abbrev pub deleted_inode_fields : DeletedInodeV1 → Fields
deleted_inode_fields v = (8, v.next_offset) ∷ (8, v.pad) ∷ []

unfoldable pub deleted_inode_to_bytes : DeletedInodeV1 → Bytes
deleted_inode_to_bytes v = pack (deleted_inode_fields v)

abbrev deleted_inode_of : List ℕ → DeletedInodeV1
deleted_inode_of vs = record { next_offset = get_or vs 0 0; pad = get_or vs 1 0 }

unfoldable pub deleted_inode_of_bytes : Bytes → Option DeletedInodeV1
deleted_inode_of_bytes bs = Option.map deleted_inode_of (unpack (8 ∷ 8 ∷ []) bs)

-- `DirentV1::new` and `DeletedInodeV1::new`.
abbrev pub new_dirent : ℕ → ℕ → DirentV1
new_dirent target k = record { target_ino = target; kind = k; pad = 0 }

abbrev pub new_deleted_inode : DeletedInodeV1
new_deleted_inode = record { next_offset = 0; pad = 0 }
