-- ===== src/Tests/Journals.antt =====
-- The journal on a device in memory: a commit of one record on an empty ring.
use rfs.Prelude.{◌+◌, ◌≡◌, ◌∙◌, refl, true, some, none, [], ◌∷◌, ◌++◌, map, arith}
use rfs.Prelude.Outcome.{ok}
use rfs.Bytes.{Bytes, of_le}
use rfs.Device.Mem.{MemDevice, mem_device, new, write_at, read_at}
use rfs.Layout.{unpack}
use rfs.Entry.Kind.{live}
use rfs.Journal.{append, read_frame, scan_groups, next_seq_after_scan, frame_offset}
use rfs.Journal.Frame.{
  JournalFrame, State, logged_op, stamp_checksum, commit_end, to_bytes, is_valid, of_bytes,
}
use rfs.Journal.Frame.Image.{IsFrame, stamp-IsFrame}
use rfs.Journal.Ring.{read-append_self, read-append_apart}
use rfs.Journal.Scan.{Holds, groups_of, end_of, scan_groups_lem, next_seq_after_scan_lem}
use rfs.Btree.Record.{LogRecord}
use rfs.Fs.Commit.{commit, append_ops, decode_ops}
use rfs.Fs.Commit.Group.{
  AllRecords, IsState, op_of, op_frame, op_frame_lem, op_frame-IsFrame, decode_ops-map,
  commit_end-IsFrame, commit_end_lem,
}
use rfs.Fs.Commit.Frames.{is_closed}
use rfs.Fs.Commit.Recovery.{scan-commit, scan-torn}
use rfs.Tests.Stores.{sum32}

abbrev write_a : LogRecord
write_a = record { sortable_key = 1 ∷ 0 ∷ 0 ∷ 0 ∷ 9 ∷ []; kind = live; value = 7 ∷ [] }

write_a-AllRecords : AllRecords (write_a ∷ [])
write_a-AllRecords = (record { key = omega arith; fits = omega arith }, tt)

abbrev state : State
state = record {
  root_block = 65;
  next_block_nr = 66;
  next_bset_seq = 2;
  next_ino = 2;
  next_snap_id = 4294967294;
  next_subvol_id = 2;
  current_subvol = 1;
}

state-IsState : IsState state
state-IsState = record {
  root_lt = omega arith;
  block_lt = omega arith;
  bset_lt = omega arith;
  ino_lt = omega arith;
  snap_lt = omega arith;
  subvol_lt = omega arith;
  current_lt = omega arith;
}

-- The slots of a new device hold no frame.
empty_slot_2 : read_frame sum32 mem_device new 2 ≡ ok none
unfolding read_frame is_valid of_bytes frame_offset read_at unpack of_le
empty_slot_2 = refl

empty_slot_3 : read_frame sum32 mem_device new 3 ≡ ok none
unfolding read_frame is_valid of_bytes frame_offset read_at unpack of_le
empty_slot_3 = refl

abbrev op_bytes : Bytes
op_bytes = to_bytes (stamp_checksum sum32 (op_frame 1 write_a))

abbrev end_bytes : Bytes
end_bytes = to_bytes (stamp_checksum sum32 (commit_end 2 state))

abbrev torn : MemDevice
torn = write_at new op_bytes (frame_offset 1)

abbrev committed : MemDevice
committed = write_at torn end_bytes (frame_offset 2)

closed : is_closed true [] ≡ true
unfolding is_closed
closed = refl

torn_run : append_ops sum32 mem_device new 1 (write_a ∷ []) ≡ ok (torn, 2)
unfolding append_ops append logged_op op_frame stamp_checksum
torn_run = refl

commit_run : commit sum32 mem_device new 1 (write_a ∷ []) state ≡ ok (committed, 3)
unfolding commit append_ops append logged_op op_frame stamp_checksum commit_end
commit_run = refl

scan-torn_example :
    (scan_groups sum32 mem_device torn 1 ≡ ok (groups_of [] []))
    × (next_seq_after_scan sum32 mem_device torn 1 ≡ ok (1 + 0))
scan-torn_example =
    scan-torn sum32 mem_device new torn 1 2 [] (write_a ∷ []) tt closed write_a-AllRecords
      (omega arith) (omega arith) empty_slot_2 torn_run

scan-commit_example :
    (scan_groups sum32 mem_device committed 1
      ≡ ok (
          groups_of [] []
          ++ record {
            ops = map op_of (write_a ∷ []);
            end = stamp_checksum sum32 (commit_end (1 + 0 + 1) state);
          }
            ∷ []))
    × (next_seq_after_scan sum32 mem_device committed 1 ≡ ok 3)
    × (3 ≡ 1 + 0 + 1 + 1)
scan-commit_example =
    scan-commit sum32 mem_device new committed 1 3 [] (write_a ∷ []) state tt closed
      write_a-AllRecords state-IsState (omega arith) (omega arith) empty_slot_3 commit_run

decode_ops-map_example : decode_ops (map op_of (write_a ∷ [])) ≡ ok (write_a ∷ [])
decode_ops-map_example = decode_ops-map (write_a ∷ []) write_a-AllRecords

-- The ring that the commit leaves.
abbrev op_1 : JournalFrame
op_1 = stamp_checksum sum32 (op_frame 1 write_a)

abbrev end_2 : JournalFrame
end_2 = stamp_checksum sum32 (commit_end 2 state)

end_2-IsFrame : IsFrame end_2
end_2-IsFrame =
    stamp-IsFrame sum32 (commit_end 2 state)
      (commit_end-IsFrame 2 state (omega arith) state-IsState)

op_1-IsFrame : IsFrame op_1
op_1-IsFrame =
    stamp-IsFrame sum32 (op_frame 1 write_a)
      (op_frame-IsFrame 1 write_a (omega arith) write_a-AllRecords.0)

read-append_self_example : read_frame sum32 mem_device committed 2 ≡ ok (some end_2)
unfolding append commit_end stamp_checksum
read-append_self_example =
    read-append_self sum32 mem_device torn end_2 end_2-IsFrame (commit_end_lem sum32 2 state).2 refl

committed-Holds : Holds sum32 mem_device committed 1 (op_1 ∷ end_2 ∷ [])
unfolding append commit_end op_frame stamp_checksum
committed-Holds = (
  read-append_apart sum32 mem_device torn end_2 1 end_2-IsFrame (λ e. absurd (omega arith)) refl
      ∙ read-append_self sum32 mem_device new op_1 op_1-IsFrame
          (op_frame_lem sum32 1 write_a (omega arith) write_a-AllRecords.0).3 refl,
  (
    read-append_self sum32 mem_device torn end_2 end_2-IsFrame (commit_end_lem sum32 2 state).2
        refl,
    tt,
  ),
)

committed_slot_3 : read_frame sum32 mem_device committed 3 ≡ ok none
unfolding append commit_end op_frame stamp_checksum
committed_slot_3 =
    read-append_apart sum32 mem_device torn end_2 3 end_2-IsFrame (λ e. absurd (omega arith)) refl
    ∙ read-append_apart sum32 mem_device new op_1 3 op_1-IsFrame (λ e. absurd (omega arith)) refl
    ∙ empty_slot_3

scan_groups_lem_example :
    scan_groups sum32 mem_device committed 1 ≡ ok (groups_of [] (op_1 ∷ end_2 ∷ []))
scan_groups_lem_example =
    scan_groups_lem sum32 mem_device committed 1 (op_1 ∷ end_2 ∷ []) committed-Holds
      committed_slot_3

next_seq_after_scan_lem_example :
    next_seq_after_scan sum32 mem_device committed 1 ≡ ok (end_of 1 1 (op_1 ∷ end_2 ∷ []))
next_seq_after_scan_lem_example =
    next_seq_after_scan_lem sum32 mem_device committed 1 (op_1 ∷ end_2 ∷ []) committed-Holds
      committed_slot_3
