-- ===== src/Journal/Scan.antt =====
-- What a scan of the ring finds: `scan_groups` and `next_seq_after_scan` against the groups of a
-- list of frames.
use rfs.Prelude.{ℕ, zero, suc, ◌+◌, ◌≡◌, refl, none, some, List, [], ◌∷◌, ◌++◌, arith}
use rfs.Prelude.Outcome.{ok}
use rfs.Bytes.{Bytes}
use rfs.Device.{BlockDevice}
use rfs.Journal.Frame.Kind.{FrameKind}
use rfs.Journal.Frame.{Crc32, JournalFrame, kind, op_payload}
use rfs.Journal.{
  CommitGroup, read_frame, scan_from, scan_groups, next_from, next_seq_after_scan, journal_capacity,
}

-- The commit groups of a list of frames: operations up to a closing frame make a group, and
-- operations behind the last closing frame are dropped.
unfoldable pub groups_of : List (ℕ × Bytes) → List JournalFrame → List CommitGroup
groups_of pending [] = []
groups_of pending (f ∷ fs) = elim (kind f) [
  | none ↦ []
  | some k ↦ elim k [
    | FrameKind.logged_op ↦ groups_of (pending ++ (f.op_kind, op_payload f) ∷ []) fs
    | FrameKind.commit_end ↦ record { ops = pending; end = f } ∷ groups_of [] fs
  ]
]

-- The number behind the last closing frame, where the list begins at `seq`.
unfoldable pub end_of : ℕ → ℕ → List JournalFrame → ℕ
end_of seq last [] = last
end_of seq last (f ∷ fs) = elim (kind f) [
  | none ↦ last
  | some k ↦ elim k [
    | FrameKind.logged_op ↦ end_of (seq + 1) last fs
    | FrameKind.commit_end ↦ end_of (seq + 1) (seq + 1) fs
  ]
]

module _ (crc : Crc32) (dev : BlockDevice) where
  open dev use {Device}

  -- The frames that stand at consecutive numbers from `seq` on.
  abbrev pub Holds : Device → ℕ → List JournalFrame → Type 0
  Holds d seq [] = Unit
  Holds d seq (f ∷ fs) = (read_frame crc dev d seq ≡ ok (some f)) × Holds d (seq + 1) fs

  -- No frame follows, or the scan has gone once round the ring.
  abbrev pub Stops : Device → ℕ → ℕ → List JournalFrame → Type 0
  Stops d zero seq [] = Unit
  Stops d (suc rounds) seq [] = read_frame crc dev d seq ≡ ok none
  Stops d zero seq (f ∷ fs) = ⊥
  Stops d (suc rounds) seq (f ∷ fs) = Stops d rounds (seq + 1) fs

  scan_from_lem :
      (d : Device) (rounds seq : ℕ) (pending : List (ℕ × Bytes)) (fs : List JournalFrame)
      → Holds d seq fs
      → Stops d rounds seq fs
      → scan_from crc dev d rounds seq pending ≡ ok (groups_of pending fs)
  unfolding scan_from groups_of
  scan_from_lem d zero seq pending [] h s = refl
  scan_from_lem d zero seq pending (f ∷ fs) h s = absurd s
  scan_from_lem d (suc rounds) seq pending [] h s = rw s
  scan_from_lem d (suc rounds) seq pending (f ∷ fs) h s = rw h.0 (
      ground (
        arith,
        scan_from_lem d rounds (seq + 1) (pending ++ (f.op_kind, op_payload f) ∷ []) fs h.1 s,
        scan_from_lem d rounds (seq + 1) [] fs h.1 s,
      ))

  next_from_lem :
      (d : Device) (rounds seq last : ℕ) (fs : List JournalFrame)
      → Holds d seq fs
      → Stops d rounds seq fs
      → next_from crc dev d rounds seq last ≡ ok (end_of seq last fs)
  unfolding next_from end_of
  next_from_lem d zero seq last [] h s = refl
  next_from_lem d zero seq last (f ∷ fs) h s = absurd s
  next_from_lem d (suc rounds) seq last [] h s = rw s
  next_from_lem d (suc rounds) seq last (f ∷ fs) h s = rw h.0 (
      ground (
        arith,
        next_from_lem d rounds (seq + 1) last fs h.1 s,
        next_from_lem d rounds (seq + 1) (seq + 1) fs h.1 s,
      ))

  -- Where the ring holds the frames `fs` from `start` on, and either none follows them or they
  -- fill the ring, `scan_groups` returns the groups of `fs`.
  pub scan_groups_lem :
      (d : Device) (start : ℕ) (fs : List JournalFrame)
      → Holds d start fs
      → Stops d journal_capacity start fs
      → scan_groups crc dev d start ≡ ok (groups_of [] fs)
  unfolding scan_groups
  scan_groups_lem d start fs h s = scan_from_lem d journal_capacity start [] fs h s

  -- Under the same hypotheses `next_seq_after_scan` returns the number behind the last closing
  -- frame, or `start` where there is none.
  pub next_seq_after_scan_lem :
      (d : Device) (start : ℕ) (fs : List JournalFrame)
      → Holds d start fs
      → Stops d journal_capacity start fs
      → next_seq_after_scan crc dev d start ≡ ok (end_of start start fs)
  unfolding next_seq_after_scan
  next_seq_after_scan_lem d start fs h s = next_from_lem d journal_capacity start start fs h s
