-- ===== src/Fs/Commit/Recovery.antt =====
-- fs.rs: what recovery finds after a commit, whole or torn.
use rfs.Prelude.{
  ℕ, ◌+◌, ◌^◌, ◌≤◌, ◌<◌, ◌≡◌, refl, sym, ap, ◌∙◌, subst, true, none, some, List, [], ◌∷◌, ◌++◌, map,
  append_assoc, append-nil, arith, length, length-append,
}
use rfs.Prelude.Outcome.{ok, bind-ok}
use rfs.Bytes.{Bytes}
use rfs.Device.{BlockDevice}
use rfs.Journal.{append, read_frame, scan_groups, next_seq_after_scan, journal_capacity}
use rfs.Journal.Frame.{Crc32, JournalFrame, State, kind, commit_end, stamp_checksum}
use rfs.Journal.Frame.Kind.{FrameKind}
use rfs.Journal.Frame.Image.{stamp-IsFrame}
use rfs.Journal.Ring.{within_turn, read-append_apart}
use rfs.Journal.{frame_offset}
use rfs.Journal.Frame.{journal_frame_size}
use rfs.Journal.Scan.{Holds, groups_of, end_of, scan_groups_lem, next_seq_after_scan_lem}
use rfs.Btree.Record.{LogRecord}
use rfs.Fs.Commit.{append_ops, commit}
use rfs.Fs.Commit.Group.{AllRecords, IsState, op_of, commit_end_lem, commit_end-IsFrame}
use rfs.Fs.Commit.Frames.{
  op_frames, length-op_frames, groups_of-op_frames, end_of-op_frames, groups_of-end, end_of-end,
  is_closed, groups_of-append, end_of-append,
}
use rfs.Fs.Commit.Ring.{append_ops_lem, Holds-append, Stops-intro}

-- Frames of operations with no closing frame make no group.
open_groups :
    (crc : Crc32) (s : ℕ) (rs : List LogRecord) (pending : List (ℕ × Bytes))
    → s + length rs ≤ 256 ^ 8
    → AllRecords rs
    → groups_of pending (op_frames crc s rs) ≡ []
unfolding groups_of
open_groups crc s rs pending k h =
    ap (λ x. groups_of pending x) (sym (append-nil (op_frames crc s rs)))
    ∙ groups_of-op_frames crc s rs pending [] k h

open_end :
    (crc : Crc32) (s last : ℕ) (rs : List LogRecord)
    → s + length rs ≤ 256 ^ 8
    → AllRecords rs
    → end_of s last (op_frames crc s rs) ≡ last
unfolding end_of
open_end crc s last rs k h =
    ap (λ x. end_of s last x) (sym (append-nil (op_frames crc s rs)))
    ∙ end_of-op_frames crc s (s + length rs) last rs [] refl k h

-- Closed groups, then operations and their closing frame.
closed_groups :
    (crc : Crc32) (s : ℕ) (fs : List JournalFrame) (rs : List LogRecord) (g : JournalFrame)
    → is_closed true fs ≡ true
    → s + length rs ≤ 256 ^ 8
    → AllRecords rs
    → kind g ≡ some FrameKind.commit_end
    → groups_of [] ((fs ++ op_frames crc s rs) ++ g ∷ [])
      ≡ groups_of [] fs ++ record { ops = map op_of rs; end = g } ∷ []
closed_groups crc s fs rs g c k h kd =
    ap (λ x. groups_of [] x) (append_assoc fs (op_frames crc s rs) (g ∷ []))
    ∙ groups_of-append true [] fs (op_frames crc s rs ++ g ∷ []) (λ q. refl) c
    ∙ ap (λ x. groups_of [] fs ++ x)
        (groups_of-op_frames crc s rs [] (g ∷ []) k h ∙ groups_of-end g (map op_of rs) kd)

closed_end :
    (crc : Crc32) (start : ℕ) (fs : List JournalFrame) (rs : List LogRecord) (g : JournalFrame)
    → is_closed true fs ≡ true
    → start + length fs + length rs ≤ 256 ^ 8
    → AllRecords rs
    → kind g ≡ some FrameKind.commit_end
    → end_of start start ((fs ++ op_frames crc (start + length fs) rs) ++ g ∷ [])
      ≡ start + length fs + length rs + 1
closed_end crc start fs rs g c k h kd =
    let s = start + length fs in
    ap (λ x. end_of start start x) (append_assoc fs (op_frames crc s rs) (g ∷ []))
    ∙ end_of-append true start start fs (op_frames crc s rs ++ g ∷ []) (λ q. refl) c
    ∙ end_of-op_frames crc s (s + length rs) s rs (g ∷ []) refl k h
    ∙ end_of-end g (s + length rs) s kd

module _ (crc : Crc32) (dev : BlockDevice) where
  open dev use {Device, sync, read-sync}

  read_frame-sync :
      (d d' : Device) (n : ℕ) → sync d ≡ ok d' → read_frame crc dev d' n ≡ read_frame crc dev d n
  unfolding read_frame
  read_frame-sync d d' n e = rw (read-sync d journal_frame_size (frame_offset n) e)

  Holds-sync :
      (d d' : Device) (seq : ℕ) (fs : List JournalFrame)
      → sync d ≡ ok d'
      → Holds crc dev d seq fs
      → Holds crc dev d' seq fs
  Holds-sync d d' seq [] e h = tt
  Holds-sync d d' seq (f ∷ fs) e (hf, h) =
      (read_frame-sync d d' seq e ∙ hf, Holds-sync d d' (seq + 1) fs e h)

  -- The three steps of a commit that succeeds.
  commit_steps :
      (d d' : Device) (seq n : ℕ) (rs : List LogRecord) (st : State)
      → commit crc dev d seq rs st ≡ ok (d', n)
      → (d1 : Device) × (d2 : Device) × (end : ℕ) × (append_ops crc dev d seq rs ≡ ok (d1, end))
        × (append crc dev d1 (stamp_checksum crc (commit_end end st)) ≡ ok d2)
        × (sync d2 ≡ ok d')
        × (n ≡ end + 1)
  unfolding commit
  commit_steps d d' seq n rs st e =
      let (p, e1, e2) = bind-ok (append_ops crc dev d seq rs) _ (d', n) e in
      let (d2, e3, e4) =
        bind-ok (append crc dev p.0 (stamp_checksum crc (commit_end p.1 st))) _ (d', n) e2 in
      let (d3, e5, e6) = bind-ok (sync d2) _ (d', n) e4 in
      let same : d3 ≡ d' = cc in
      let count : p.1 + 1 ≡ n = cc in (p.0, d2, p.1, e1, e3, e5 ∙ ap ok same, sym count)

  -- Where frames that end with a closing frame stand in the ring from a start on, the records, the
  -- numbers of the frames and the state are in range, all frames and one slot more are within one
  -- turn of the ring, and no frame is read behind the new ones: after a commit of records that
  -- succeeds behind those frames, a scan from the start finds their groups and then one group with
  -- the records' operations in their order and the state, and the next number is behind it.
  pub scan-commit :
      (d d' : Device) (start n : ℕ) (fs : List JournalFrame) (rs : List LogRecord) (st : State)
      → Holds crc dev d start fs
      → is_closed true fs ≡ true
      → AllRecords rs
      → IsState st
      → start + length fs + length rs + 1 ≤ 256 ^ 8
      → length fs + length rs + 1 < journal_capacity
      → read_frame crc dev d (start + length fs + length rs + 1) ≡ ok none
      → commit crc dev d (start + length fs) rs st ≡ ok (d', n)
      → (scan_groups crc dev d' start
          ≡ ok (
              groups_of [] fs
              ++ record {
                ops = map op_of rs;
                end = stamp_checksum crc (commit_end (start + length fs + length rs) st);
              }
                ∷ []))
        × (next_seq_after_scan crc dev d' start ≡ ok n)
        × (n ≡ start + length fs + length rs + 1)
  scan-commit d d' start n fs rs st h c k hst small room free e =
      let (d1, d2, end, e1, e2, e3, count) = commit_steps d d' (start + length fs) n rs st e in
      let a =
        append_ops_lem crc dev d d1 start (start + length fs) end fs rs h refl k (omega arith)
          (omega arith) e1 in
      let gs = op_frames crc (start + length fs) rs in
      let g = stamp_checksum crc (commit_end end st) in
      let l = length-append fs gs in
      let m = length-op_frames crc (start + length fs) rs in
      let len = length-append (fs ++ gs) (g ∷ []) in
      let (sq, kd, v) = commit_end_lem crc end st in
      let hg =
        stamp-IsFrame crc (commit_end end st)
          (commit_end-IsFrame end st (omega (arith, a.end_lem)) hst) in
      let held = Holds-sync d2 d' start ((fs ++ gs) ++ g ∷ []) e3 (
        Holds-append crc dev d1 g start (fs ++ gs) hg v e2 (omega (arith, a.end_lem)) (omega arith)
          a.holds) in
      let at_end =
        read_frame-sync d2 d' n e3
        ∙ read-append_apart crc dev d1 g n hg
            (λ q. within_turn g.seq n (omega (arith, a.end_lem)) (omega (arith, a.end_lem)) (sym q))
            e2
        ∙ a.kept n (omega (arith, a.end_lem)) (omega (arith, a.end_lem))
        ∙ ap (λ i. read_frame crc dev d i) (omega (arith, a.end_lem))
        ∙ free in
      let stop : read_frame crc dev d' (start + length ((fs ++ gs) ++ g ∷ [])) ≡ ok none =
        subst (λ i. read_frame crc dev d' i ≡ ok none) (omega (arith, a.end_lem)) at_end in
      let stops =
        Stops-intro crc dev d' journal_capacity start ((fs ++ gs) ++ g ∷ []) (omega arith) stop in
      let frames = (fs ++ gs) ++ g ∷ [] in
      (
        scan_groups_lem crc dev d' start frames held stops
            ∙ ap ok (
                closed_groups crc (start + length fs) fs rs g c (omega arith) k kd
                ∙ ap
                    (λ i.
                      groups_of [] fs
                      ++ record { ops = map op_of rs; end = stamp_checksum crc (commit_end i st) }
                        ∷ [])
                    a.end_lem),
        next_seq_after_scan_lem crc dev d' start frames held stops
            ∙ ap ok (closed_end crc start fs rs g c (omega arith) k kd ∙ omega (arith, a.end_lem)),
        omega (arith, a.end_lem),
      )

  -- Where frames that end with a closing frame stand in the ring from a start on, the records and
  -- the numbers of the frames are in range, all frames and one slot more are within one turn of
  -- the ring, and no frame is read behind those of the records: after a commit of the records that
  -- stops before its closing frame, a scan from the start finds only the groups of those frames,
  -- and the next number is the one behind them.
  pub scan-torn :
      (d d' : Device) (start n : ℕ) (fs : List JournalFrame) (rs : List LogRecord)
      → Holds crc dev d start fs
      → is_closed true fs ≡ true
      → AllRecords rs
      → start + length fs + length rs < 256 ^ 8
      → length fs + length rs < journal_capacity
      → read_frame crc dev d (start + length fs + length rs) ≡ ok none
      → append_ops crc dev d (start + length fs) rs ≡ ok (d', n)
      → (scan_groups crc dev d' start ≡ ok (groups_of [] fs))
        × (next_seq_after_scan crc dev d' start ≡ ok (start + length fs))
  scan-torn d d' start n fs rs h c k small room free e =
      let a =
        append_ops_lem crc dev d d' start (start + length fs) n fs rs h refl k small (omega arith)
          e in
      let gs = op_frames crc (start + length fs) rs in
      let l = length-append fs gs in
      let m = length-op_frames crc (start + length fs) rs in
      let at_end = a.kept (start + length fs + length rs) (omega arith) (omega arith) ∙ free in
      let stop : read_frame crc dev d' (start + length (fs ++ gs)) ≡ ok none =
        subst (λ i. read_frame crc dev d' i ≡ ok none) (omega arith) at_end in
      let stops = Stops-intro crc dev d' journal_capacity start (fs ++ gs) (omega arith) stop in
      let none_open = groups_of-append true [] fs gs (λ q. refl) c in
      let last = end_of-append true start start fs gs (λ q. refl) c in
      (
        scan_groups_lem crc dev d' start (fs ++ gs) a.holds stops
            ∙ ap ok (
                none_open
                ∙ ap (λ x. groups_of [] fs ++ x)
                    (open_groups crc (start + length fs) rs [] (omega arith) k)
                ∙ append-nil (groups_of [] fs)),
        next_seq_after_scan_lem crc dev d' start (fs ++ gs) a.holds stops
            ∙ ap ok
                (last ∙ open_end crc (start + length fs) (start + length fs) rs (omega arith) k),
      )
