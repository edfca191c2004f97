-- ===== src/Fs/Commit.antt =====
-- fs.rs: the journal's side of `Fs::journal_commit`: the log records of the tree, their form in a
-- frame, and the frames of a commit group. The checkpoint and the reclaim that come first are not
-- part of it.
pub mod Group
pub mod Frames
pub mod Ring
pub mod Recovery
use rfs.Prelude.{
  ℕ, ◌+◌, ◌-◌, ◌%◌, ◌≡◌, Bool, List, [], ◌∷◌, ◌++◌, length, take, drop, ltb, leb, if◌then◌else◌,
}
use rfs.Prelude.Outcome.{Outcome, Error, ok, err, panic, ◌>>=◌}
use rfs.Bytes.{Bytes}
use rfs.Device.{BlockDevice}
use rfs.Entry.Kind.{EntryKind, kind_byte, kind_of_u8}
use rfs.Btree.Record.{LogRecord}
use rfs.Journal.{append, journal_capacity}
use rfs.Journal.Frame.{Crc32, State, logged_op, commit_end, stamp_checksum}

-- `len as u8` wraps around.
unfoldable pub encode_log_record : LogRecord → Bytes
encode_log_record r = length r.sortable_key % 256 ∷ r.sortable_key ++ r.value

unfoldable pub decode_log_record : ℕ → Bytes → Outcome LogRecord
unfolding kind_of_u8
decode_log_record op_kind [] = err Error.io
decode_log_record op_kind (key_len ∷ rest) =
    if ltb (length rest) key_len
    then err Error.io
    else ok (record {
      sortable_key = take key_len rest;
      kind = kind_of_u8 op_kind;
      value = drop key_len rest;
    })

-- The frames that a commit may add to the ring before a checkpoint is forced.
abbrev pub journal_reclaim_soft_limit : ℕ
journal_reclaim_soft_limit = journal_capacity - 64

abbrev pub reclaim_commit_reserved_frames : ℕ
reclaim_commit_reserved_frames = 3

-- The test in `journal_commit` for a ring that is near full.
unfoldable pub ring_near_full : ℕ → ℕ → Bool
ring_near_full next_journal_seq last_checkpoint_seq =
    leb journal_reclaim_soft_limit (next_journal_seq - last_checkpoint_seq)

-- `saturating_sub` is subtraction on ℕ.
unfoldable pub reclaim_budget_for_commit : ℕ → ℕ → ℕ → ℕ
reclaim_budget_for_commit next_journal_seq last_checkpoint_seq pending_log_len =
    let outstanding : ℕ = next_journal_seq - last_checkpoint_seq in
    let headroom : ℕ = journal_reclaim_soft_limit - outstanding in
    let already_spoken_for : ℕ = pending_log_len + reclaim_commit_reserved_frames in
    headroom - already_spoken_for

module _ (crc : Crc32) (dev : BlockDevice) where
  open dev use {Device, sync}

  -- The loop over the drained records: the device and the next number after it.
  unfoldable pub append_ops : Device → ℕ → List LogRecord → Outcome (Device × ℕ)
  unfolding encode_log_record
  append_ops d seq [] = ok (d, seq)
  append_ops d seq (r ∷ rs) = do
    frame ← logged_op seq (kind_byte r.kind) (encode_log_record r)
    d1 ← append crc dev d (stamp_checksum crc frame)
    append_ops d1 (seq + 1) rs

  -- The group of the records, its closing frame, and the flush.
  unfoldable pub commit : Device → ℕ → List LogRecord → State → Outcome (Device × ℕ)
  unfolding append_ops
  commit d seq rs st = append_ops d seq rs >>= λ (d1, end). do
    d2 ← append crc dev d1 (stamp_checksum crc (commit_end end st))
    d3 ← sync d2
    ok (d3, end + 1)

-- `Fs::open`: the records of a group, for the replay.
unfoldable pub decode_ops : List (ℕ × Bytes) → Outcome (List LogRecord)
unfolding decode_log_record
decode_ops [] = ok []
decode_ops ((op_kind, payload) ∷ ops) = do
  r ← decode_log_record op_kind payload
  rs ← decode_ops ops
  ok (r ∷ rs)
