-- ===== src/Journal.antt =====
-- journal.rs: the ring of frames on the device.
pub mod Frame
pub mod Ring
pub mod Scan
use rfs.Prelude.{
  ℕ, zero, suc, ◌+◌, ◌*◌, ◌/◌, ◌%◌, Option, none, some, List, [], ◌∷◌, ◌++◌, if◌then◌else◌,
}
use rfs.Prelude.Outcome.{Outcome, ok, ◌>>=◌}
use rfs.Bytes.{Bytes}
use rfs.Device.{BlockDevice}
use Frame.Kind.{FrameKind}
use Frame.{Crc32, JournalFrame, journal_frame_size, kind, op_payload, to_bytes, of_bytes, is_valid}

abbrev pub block_size : ℕ
block_size = 4096

abbrev pub entries_per_block : ℕ
entries_per_block = 16

abbrev pub first_journal_block : ℕ
first_journal_block = 1

abbrev pub journal_blocks : ℕ
journal_blocks = 64

-- `JOURNAL_BLOCKS * ENTRIES_PER_BLOCK`.
abbrev pub journal_capacity : ℕ
journal_capacity = 1024

-- The byte offset of the slot of a frame number.
unfoldable pub frame_offset : ℕ → ℕ
frame_offset seq =
    let ring_pos : ℕ = seq % journal_capacity in
    let block_index : ℕ = ring_pos / entries_per_block + first_journal_block in
    let slot_index : ℕ = ring_pos % entries_per_block in
    block_index * block_size + slot_index * journal_frame_size

-- A recovered commit group: the kind and payload of each logged operation, and the closing frame.
pub record CommitGroup : Type 0 where
  pub ops : List (ℕ × Bytes)
  pub end : JournalFrame

module _ (crc : Crc32) (dev : BlockDevice) where
  open dev use {Device, read_at, write_at}

  unfoldable pub append : Device → JournalFrame → Outcome Device
  append d frame = write_at d (to_bytes frame) (frame_offset frame.seq)

  unfoldable pub read_frame : Device → ℕ → Outcome (Option JournalFrame)
  read_frame d seq = do
    buf ← read_at d journal_frame_size (frame_offset seq)
    ok (if is_valid crc (of_bytes buf) seq then some (of_bytes buf) else none)

  -- The loop of `scan_groups`, over the rounds left before the wraparound bound: the groups that
  -- are pushed from here on.
  unfoldable pub scan_from : Device → ℕ → ℕ → List (ℕ × Bytes) → Outcome (List CommitGroup)
  scan_from d zero seq pending = ok []
  scan_from d (suc rounds) seq pending = read_frame d seq >>= λ found. elim found [
    | none ↦ ok []
    | some frame ↦ elim (kind frame) [
      | none ↦ ok []
      | some k ↦ elim k [
        | FrameKind.logged_op ↦
            scan_from d rounds (seq + 1) (pending ++ (frame.op_kind, op_payload frame) ∷ [])
        | FrameKind.commit_end ↦ scan_from d rounds (seq + 1) [] >>= λ rest.
            ok (record { ops = pending; end = frame } ∷ rest)
      ]
    ]
  ]

  unfoldable pub scan_groups : Device → ℕ → Outcome (List CommitGroup)
  unfolding scan_from
  scan_groups d start_seq = scan_from d journal_capacity start_seq []

  -- The loop of `next_seq_after_scan`.
  unfoldable pub next_from : Device → ℕ → ℕ → ℕ → Outcome ℕ
  next_from d zero seq last_group_end = ok last_group_end
  next_from d (suc rounds) seq last_group_end = read_frame d seq >>= λ found. elim found [
    | none ↦ ok last_group_end
    | some frame ↦ elim (kind frame) [
      | none ↦ ok last_group_end
      | some k ↦ elim k [
        | FrameKind.logged_op ↦ next_from d rounds (seq + 1) last_group_end
        | FrameKind.commit_end ↦ next_from d rounds (seq + 1) (seq + 1)
      ]
    ]
  ]

  unfoldable pub next_seq_after_scan : Device → ℕ → Outcome ℕ
  unfolding next_from
  next_seq_after_scan d start_seq = next_from d journal_capacity start_seq start_seq
