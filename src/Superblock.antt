-- ===== src/Superblock.antt =====
-- storage.rs: `Superblock`, the block that says where the live tree is.
pub mod Parse
use mathlib.Core.Option
use rfs.Prelude.{
  ℕ, ◌+◌, ◌-◌, ◌≡◌, Option, none, some, List, [], ◌∷◌, ◌++◌, length, take, drop, replicate, get_or,
  ◌==◌, if◌then◌else◌,
}
use rfs.Prelude.Outcome.{Outcome, ok, err, Error}
use rfs.Bytes.{Bytes}
use rfs.Layout.{Fields, pack, unpack}
use rfs.Journal.Frame.{Crc32}

abbrev pub superblock_block_nr : ℕ
superblock_block_nr = 0

abbrev pub superblock_magic : ℕ
superblock_magic = 0x52465342

abbrev pub superblock_version : ℕ
superblock_version = 4

-- The bytes of the named fields.
abbrev pub named_size : ℕ
named_size = 72

abbrev pub block_size : ℕ
block_size = 4096

pub record Superblock : Type 0 where
  pub magic : ℕ
  pub version : ℕ
  pub root_block : ℕ
  pub next_block_nr : ℕ
  pub next_bset_seq : ℕ
  pub next_ino : ℕ
  pub journal_seq : ℕ
  pub next_snap_id : ℕ
  pub next_subvol_id : ℕ
  pub current_subvol : ℕ
  pub checksum : ℕ
  pub free_head : ℕ
  pub reserved : Bytes

unfoldable pub fresh : ℕ → ℕ → Superblock
fresh root next = record {
  magic = superblock_magic;
  version = superblock_version;
  root_block = root;
  next_block_nr = next;
  next_bset_seq = 1;
  next_ino = 0;
  journal_seq = 0;
  next_snap_id = 4294967294;
  next_subvol_id = 1;
  current_subvol = 0;
  checksum = 0;
  free_head = 0;
  reserved = replicate (block_size - named_size) 0;
}

abbrev pub named : Superblock → Fields
named sb =
    (4, sb.magic)
    ∷ (4, sb.version)
    ∷ (8, sb.root_block)
    ∷ (8, sb.next_block_nr)
    ∷ (8, sb.next_bset_seq)
    ∷ (8, sb.next_ino)
    ∷ (8, sb.journal_seq)
    ∷ (4, sb.next_snap_id)
    ∷ (4, sb.next_subvol_id)
    ∷ (4, sb.current_subvol)
    ∷ (4, sb.checksum)
    ∷ (8, sb.free_head)
    ∷ []

abbrev pub named_widths : List ℕ
named_widths = 4 ∷ 4 ∷ 8 ∷ 8 ∷ 8 ∷ 8 ∷ 8 ∷ 4 ∷ 4 ∷ 4 ∷ 4 ∷ 8 ∷ []

-- `as_bytes`.
unfoldable pub to_bytes : Superblock → Bytes
to_bytes sb = pack (named sb) ++ sb.reserved

abbrev pub superblock_of : List ℕ → Bytes → Superblock
superblock_of vs rest = record {
  magic = get_or vs 0 0;
  version = get_or vs 1 0;
  root_block = get_or vs 2 0;
  next_block_nr = get_or vs 3 0;
  next_bset_seq = get_or vs 4 0;
  next_ino = get_or vs 5 0;
  journal_seq = get_or vs 6 0;
  next_snap_id = get_or vs 7 0;
  next_subvol_id = get_or vs 8 0;
  current_subvol = get_or vs 9 0;
  checksum = get_or vs 10 0;
  free_head = get_or vs 11 0;
  reserved = rest;
}

-- `read_from_bytes`, which wants a whole block.
unfoldable pub of_bytes : Bytes → Option Superblock
of_bytes bs =
    if length bs == block_size
    then some (
        superblock_of (Option.get_or (unpack named_widths (take named_size bs)) [])
          (drop named_size bs))
    else none

module _ (crc : Crc32) where
  unfoldable pub compute_checksum : Superblock → ℕ
  compute_checksum sb = crc.hash (to_bytes (record sb { checksum = 0 }))

  unfoldable pub stamp_checksum : Superblock → Superblock
  stamp_checksum sb = record sb { checksum = crc.hash (to_bytes (record sb { checksum = 0 })) }

  -- The magic number, the version and the checksum, in this order.
  unfoldable pub check : Superblock → Outcome Superblock
  unfolding compute_checksum
  check sb =
      if sb.magic == superblock_magic
      then (if sb.version == superblock_version
          then (if sb.checksum == compute_checksum sb
              then ok sb
              else err (Error.checksum_mismatch superblock_block_nr))
          else err Error.io)
      else err (Error.bad_magic superblock_block_nr sb.magic superblock_magic)

  unfoldable pub parse : Bytes → Outcome Superblock
  unfolding check
  parse bs = elim (of_bytes bs) [ none ↦ err Error.io | some sb ↦ check sb ]
