-- ===== src/Fs/Commit/Group.antt =====
-- The frames of a commit group: records read back from them, and the budget leaves room for them.
use rfs.Prelude.{
  ℕ, ◌+◌, ◌-◌, ◌%◌, ◌^◌, ◌≤◌, ◌<◌, ◌≡◌, refl, ap, true, false, some, List, [], ◌∷◌, ◌++◌, map,
  arith, length, drop, take-length, drop-length, length-append, ltb, leb, replicate, length-drop,
  length-replicate,
}
use rfs.Prelude.Outcome.{ok}
use rfs.Bytes.{Bytes}
use rfs.Entry.Kind.{EntryKind, kind_byte, kind_of_u8-kind_byte}
use rfs.Journal.Frame.{
  Crc32, JournalFrame, State, logged_op, commit_end, new_frame, stamp_checksum, op_payload,
  journal_op_capacity, kind, is_valid,
}
use rfs.Journal.Frame.Kind.{FrameKind}
use rfs.Journal.Frame.Image.{IsFrame, is_valid-stamp}
use rfs.Btree.Record.{LogRecord}
use rfs.Fs.Commit.{
  encode_log_record, decode_log_record, decode_ops, reclaim_budget_for_commit,
  journal_reclaim_soft_limit,
}

-- A key that fits a slot, and a payload that fits a frame.
pub record IsRecord (r : LogRecord) : Type 0 where
  pub key : length r.sortable_key < 256
  pub fits : 1 + (length r.sortable_key + length r.value) ≤ journal_op_capacity

-- A record whose key is shorter than 256 bytes reads back from its payload and its kind's byte.
pub decode-encode :
    (r : LogRecord)
    → length r.sortable_key < 256
    → decode_log_record (kind_byte r.kind) (encode_log_record r) ≡ ok r
unfolding decode_log_record encode_log_record
decode-encode r h =
    let l = length-append r.sortable_key r.value in
    let n : length r.sortable_key % 256 ≡ length r.sortable_key = omega arith in
    let long : ltb (length (r.sortable_key ++ r.value)) (length r.sortable_key) ≡ false =
      ground arith in
    rw (
      n,
      long,
      take-length r.sortable_key r.value,
      drop-length r.sortable_key r.value,
      kind_of_u8-kind_byte r.kind,
    )

-- The kind and the payload of a record, as a scan returns them.
abbrev pub op_of : LogRecord → ℕ × Bytes
op_of r = (kind_byte r.kind, encode_log_record r)

abbrev pub AllRecords : List LogRecord → Type 0
AllRecords [] = Unit
AllRecords (r ∷ rs) = IsRecord r × AllRecords rs

-- The operations of a committed group decode to its records, in their order.
pub decode_ops-map : (rs : List LogRecord) → AllRecords rs → decode_ops (map op_of rs) ≡ ok rs
unfolding decode_ops
decode_ops-map [] h = refl
decode_ops-map (r ∷ rs) (hr, h) = rw (decode-encode r hr.key, decode_ops-map rs h)

-- Where the ring is not near full and reclaim is given a budget, the frames of the records that are
-- pending, of the budget and of the reserve end within the soft limit, and so within the ring.
pub budget_lem :
    (next last pending : ℕ)
    → 0 < reclaim_budget_for_commit next last pending
    → (next - last) + (pending + reclaim_budget_for_commit next last pending + 3)
      ≡ journal_reclaim_soft_limit
unfolding reclaim_budget_for_commit
budget_lem next last pending h = omega arith

-- The state's counters are in the ranges of their fields.
pub record IsState (st : State) : Type 0 where
  pub root_lt : st.root_block < 256 ^ 8
  pub block_lt : st.next_block_nr < 256 ^ 8
  pub bset_lt : st.next_bset_seq < 256 ^ 8
  pub ino_lt : st.next_ino < 256 ^ 8
  pub snap_lt : st.next_snap_id < 256 ^ 4
  pub subvol_lt : st.next_subvol_id < 256 ^ 4
  pub current_lt : st.current_subvol < 256 ^ 4

-- The frame of a record, before its checksum.
unfoldable pub op_frame : ℕ → LogRecord → JournalFrame
unfolding new_frame
op_frame s r =
    let payload : Bytes = encode_log_record r in
    record (new_frame s FrameKind.logged_op) {
      op_kind = kind_byte r.kind;
      op_len = length payload;
      op_data = payload ++ drop (length payload) (replicate journal_op_capacity 0);
    }

module _ (s : ℕ) (r : LogRecord) (hs : s < 256 ^ 8) (h : IsRecord r) where
  length-encode : length (encode_log_record r) ≤ 184
  unfolding encode_log_record
  length-encode = omega (arith, length-append r.sortable_key r.value, h.fits)

  kind_byte_lt : (k : EntryKind) → kind_byte k < 256
  kind_byte_lt EntryKind.live = omega arith
  kind_byte_lt EntryKind.deleted = omega arith
  kind_byte_lt EntryKind.whiteout = omega arith

  pub logged_op_lem : logged_op s (kind_byte r.kind) (encode_log_record r) ≡ ok (op_frame s r)
  unfolding logged_op op_frame
  logged_op_lem =
      let fits : leb (length (encode_log_record r)) journal_op_capacity ≡ true =
        ground (arith, length-encode) in
      rw fits

  pub op_frame-IsFrame : IsFrame (op_frame s r)
  unfolding op_frame
  op_frame-IsFrame = record {
    fit = (
      omega arith,
      (
        omega arith,
        (
          hs,
          (
            omega arith,
            (
              kind_byte_lt r.kind,
              (
                omega (arith, length-encode),
                (
                  omega arith,
                  (
                    omega arith,
                    (
                      omega arith,
                      (
                        omega arith,
                        (
                          omega arith,
                          (omega arith, (omega arith, (omega arith, (omega arith, tt)))),
                        ),
                      ),
                    ),
                  ),
                ),
              ),
            ),
          ),
        ),
      ),
    );
    payload = omega (
      arith,
      length-encode,
      length-append (encode_log_record r)
          (drop (length (encode_log_record r)) (replicate journal_op_capacity 0)),
      length-drop {A = ℕ} (length (encode_log_record r)) (replicate journal_op_capacity 0),
      length-replicate {A = ℕ} journal_op_capacity 0,
    );
  }

  pub op_payload-op_frame : op_payload (op_frame s r) ≡ encode_log_record r
  unfolding op_frame encode_log_record
  op_payload-op_frame =
      take-length (encode_log_record r)
        (drop (length (encode_log_record r)) (replicate journal_op_capacity 0))

pub commit_end-IsFrame : (s : ℕ) (st : State) → s < 256 ^ 8 → IsState st → IsFrame (commit_end s st)
unfolding commit_end
commit_end-IsFrame s st hs h = record {
  fit = (
    omega arith,
    (
      omega arith,
      (
        hs,
        (
          omega arith,
          (
            omega arith,
            (
              omega arith,
              (
                omega arith,
                (
                  h.root_lt,
                  (
                    h.block_lt,
                    (
                      h.bset_lt,
                      (h.ino_lt, (h.snap_lt, (h.subvol_lt, (h.current_lt, (omega arith, tt))))),
                    ),
                  ),
                ),
              ),
            ),
          ),
        ),
      ),
    ),
  );
  payload = length-replicate {A = ℕ} journal_op_capacity 0;
}

module _ (crc : Crc32) (s : ℕ) where
  -- A stamped frame of a record: its number, kind and operation.
  pub op_frame_lem :
      (r : LogRecord)
      → s < 256 ^ 8
      → IsRecord r
      → ((stamp_checksum crc (op_frame s r)).seq ≡ s)
        × (kind (stamp_checksum crc (op_frame s r)) ≡ some FrameKind.logged_op)
        × ((
          (stamp_checksum crc (op_frame s r)).op_kind,
          op_payload (stamp_checksum crc (op_frame s r)),
        )
            ≡ op_of r)
        × (is_valid crc (stamp_checksum crc (op_frame s r)) (stamp_checksum crc (op_frame s r)).seq
            ≡ true)
  unfolding op_frame kind stamp_checksum
  op_frame_lem r hs h = (
    refl,
    refl,
    ap (λ x. (kind_byte r.kind, x)) (op_payload-op_frame s r hs h),
    is_valid-stamp crc (op_frame s r) refl refl,
  )

  -- A stamped closing frame.
  pub commit_end_lem :
      (st : State)
      → ((stamp_checksum crc (commit_end s st)).seq ≡ s)
        × (kind (stamp_checksum crc (commit_end s st)) ≡ some FrameKind.commit_end)
        × (is_valid crc
              (stamp_checksum crc (commit_end s st))
              (stamp_checksum crc (commit_end s st)).seq
            ≡ true)
  unfolding commit_end kind stamp_checksum
  commit_end_lem st = (refl, refl, is_valid-stamp crc (commit_end s st) refl refl)
