-- ===== src/Journal/Frame.antt =====
-- storage.rs: `FrameKind` and `JournalFrame`, the fixed 256-byte records of the journal ring.
-- `crc32fast::hash` is a parameter; the byte image is `#[repr(C)]`.
pub mod Kind
pub mod Image
use mathlib.Core.Option
use rfs.Prelude.{
  ℕ, zero, suc, ◌+◌, ◌-◌, ◌^◌, ◌<◌, ◌≤◌, ◌≡◌, Bool, true, false, ◌&&◌, Option, none, some, List, [],
  ◌∷◌, ◌++◌, length, take, drop, replicate, get_or, leb, ◌==◌, if◌then◌else◌,
}
use rfs.Prelude.Outcome.{Outcome, ok, panic}
use Kind.{FrameKind}
use rfs.Bytes.{Bytes}
use rfs.Layout.{Fields, pack, unpack, widths}

abbrev pub journal_magic : ℕ
journal_magic = 0x524A4E4C

abbrev pub journal_frame_size : ℕ
journal_frame_size = 256

abbrev pub journal_op_capacity : ℕ
journal_op_capacity = 184

-- The bytes before `op_data`.
abbrev pub header_size : ℕ
header_size = 72

abbrev pub kind_byte : FrameKind → ℕ
kind_byte FrameKind.logged_op = 1
kind_byte FrameKind.commit_end = 2

unfoldable pub kind_of_u8 : ℕ → Option FrameKind
kind_of_u8 v =
    if v == 1 then some FrameKind.logged_op else if v == 2 then some FrameKind.commit_end else none

pub record JournalFrame : Type 0 where
  pub magic : ℕ
  pub checksum : ℕ
  pub seq : ℕ
  pub frame_kind : ℕ
  pub op_kind : ℕ
  pub op_len : ℕ
  pub pad0 : ℕ
  pub root_block : ℕ
  pub next_block_nr : ℕ
  pub next_bset_seq : ℕ
  pub next_ino : ℕ
  pub next_snap_id : ℕ
  pub next_subvol_id : ℕ
  pub current_subvol : ℕ
  pub pad1 : ℕ
  pub op_data : Bytes

-- `JournalFrame::new`.
unfoldable pub new_frame : ℕ → FrameKind → JournalFrame
new_frame s k = record {
  magic = journal_magic;
  checksum = 0;
  seq = s;
  frame_kind = kind_byte k;
  op_kind = 0;
  op_len = 0;
  pad0 = 0;
  root_block = 0;
  next_block_nr = 0;
  next_bset_seq = 0;
  next_ino = 0;
  next_snap_id = 0;
  next_subvol_id = 0;
  current_subvol = 0;
  pad1 = 0;
  op_data = replicate journal_op_capacity 0;
}

-- A payload over the capacity fails the assertion.
unfoldable pub logged_op : ℕ → ℕ → Bytes → Outcome JournalFrame
unfolding new_frame
logged_op s kind payload =
    if leb (length payload) journal_op_capacity
    then ok (record (new_frame s FrameKind.logged_op) {
      op_kind = kind;
      op_len = length payload;
      op_data = payload ++ drop (length payload) (replicate journal_op_capacity 0);
    })
    else panic

-- The counters of the file system that a commit group ends with.
pub record State : Type 0 where
  pub root_block : ℕ
  pub next_block_nr : ℕ
  pub next_bset_seq : ℕ
  pub next_ino : ℕ
  pub next_snap_id : ℕ
  pub next_subvol_id : ℕ
  pub current_subvol : ℕ

unfoldable pub commit_end : ℕ → State → JournalFrame
unfolding new_frame
commit_end s st = record (new_frame s FrameKind.commit_end) {
  root_block = st.root_block;
  next_block_nr = st.next_block_nr;
  next_bset_seq = st.next_bset_seq;
  next_ino = st.next_ino;
  next_snap_id = st.next_snap_id;
  next_subvol_id = st.next_subvol_id;
  current_subvol = st.current_subvol;
}

unfoldable pub kind : JournalFrame → Option FrameKind
unfolding kind_of_u8
kind f = kind_of_u8 f.frame_kind

abbrev pub op_payload : JournalFrame → Bytes
op_payload f = take f.op_len f.op_data

-- The fields before `op_data`, in the order of the struct.
abbrev pub header : JournalFrame → Fields
header f =
    (4, f.magic)
    ∷ (4, f.checksum)
    ∷ (8, f.seq)
    ∷ (1, f.frame_kind)
    ∷ (1, f.op_kind)
    ∷ (2, f.op_len)
    ∷ (4, f.pad0)
    ∷ (8, f.root_block)
    ∷ (8, f.next_block_nr)
    ∷ (8, f.next_bset_seq)
    ∷ (8, f.next_ino)
    ∷ (4, f.next_snap_id)
    ∷ (4, f.next_subvol_id)
    ∷ (4, f.current_subvol)
    ∷ (4, f.pad1)
    ∷ []

-- `as_bytes`.
unfoldable pub to_bytes : JournalFrame → Bytes
to_bytes f = pack (header f) ++ f.op_data

abbrev pub header_widths : List ℕ
header_widths = 4 ∷ 4 ∷ 8 ∷ 1 ∷ 1 ∷ 2 ∷ 4 ∷ 8 ∷ 8 ∷ 8 ∷ 8 ∷ 4 ∷ 4 ∷ 4 ∷ 4 ∷ []

-- The struct with the given values of the header's fields, in order.
abbrev pub frame_of : List ℕ → Bytes → JournalFrame
frame_of vs payload = record {
  magic = get_or vs 0 0;
  checksum = get_or vs 1 0;
  seq = get_or vs 2 0;
  frame_kind = get_or vs 3 0;
  op_kind = get_or vs 4 0;
  op_len = get_or vs 5 0;
  pad0 = get_or vs 6 0;
  root_block = get_or vs 7 0;
  next_block_nr = get_or vs 8 0;
  next_bset_seq = get_or vs 9 0;
  next_ino = get_or vs 10 0;
  next_snap_id = get_or vs 11 0;
  next_subvol_id = get_or vs 12 0;
  current_subvol = get_or vs 13 0;
  pad1 = get_or vs 14 0;
  op_data = payload;
}

-- The frame in a buffer of 256 bytes (`as_mut_bytes`, filled by a read).
unfoldable pub of_bytes : Bytes → JournalFrame
of_bytes bs =
    frame_of (Option.get_or (unpack header_widths (take header_size bs)) []) (drop header_size bs)

abbrev is_some : Option FrameKind → Bool
is_some none = false
is_some (some k) = true

-- `crc32fast::hash`: some function of the bytes into `u32`.
pub record Crc32 : Type 0 where
  pub hash : Bytes → ℕ
  pub hash_lt : (bs : Bytes) → hash bs < 256 ^ 4

module _ (crc : Crc32) where
  unfoldable pub compute_checksum : JournalFrame → ℕ
  compute_checksum f = crc.hash (to_bytes (record f { checksum = 0 }))

  unfoldable pub stamp_checksum : JournalFrame → JournalFrame
  stamp_checksum f = record f { checksum = crc.hash (to_bytes (record f { checksum = 0 })) }

  unfoldable pub is_valid : JournalFrame → ℕ → Bool
  unfolding compute_checksum kind
  is_valid f expected_seq =
      f.magic == journal_magic
      && f.seq == expected_seq
      && is_some (kind f)
      && f.checksum == compute_checksum f
