-- ===== src/Fs/Commit/Ring.antt =====
-- The ring after the frames of a commit group have been appended.
use rfs.Prelude.{
  ℕ, zero, suc, ◌+◌, ◌^◌, ◌≤◌, ◌<◌, ◌≡◌, sym, ap, ◌∙◌, subst, true, Option, none, some, List, [],
  ◌∷◌, ◌++◌, append_assoc, append-nil, arith, length, length-append,
}
use rfs.Prelude.Outcome.{Outcome, ok, bind-ok}
use rfs.Device.{BlockDevice}
use rfs.Journal.{append, read_frame, journal_capacity}
use rfs.Journal.Frame.{Crc32, JournalFrame, stamp_checksum, is_valid}
use rfs.Journal.Frame.Image.{IsFrame, stamp-IsFrame}
use rfs.Journal.Ring.{within_turn, read-append_self, read-append_apart}
use rfs.Journal.Scan.{Holds, Stops}
use rfs.Btree.Record.{LogRecord}
use rfs.Fs.Commit.{append_ops}
use rfs.Fs.Commit.Group.{AllRecords, op_frame, op_frame-IsFrame, logged_op_lem, op_frame_lem}
use rfs.Fs.Commit.Frames.{op_frames}

module _ (crc : Crc32) (dev : BlockDevice) where
  open dev use {Device}

  moved :
      (d : Device) (m n : ℕ) (x : Outcome (Option JournalFrame))
      → m ≡ n
      → read_frame crc dev d m ≡ x
      → read_frame crc dev d n ≡ x
  moved d m n x e r = subst (λ i. read_frame crc dev d i ≡ x) e r

  -- The stop behind frames that do not fill the ring.
  pub Stops-intro :
      (d : Device) (rounds seq : ℕ) (fs : List JournalFrame)
      → length fs < rounds
      → read_frame crc dev d (seq + length fs) ≡ ok none
      → Stops crc dev d rounds seq fs
  Stops-intro d zero seq fs h r = elim h [ ]
  Stops-intro d (suc rounds) seq [] h r = moved d (seq + 0) seq (ok none) (omega arith) r
  Stops-intro d (suc rounds) seq (f ∷ fs) h r =
      Stops-intro d rounds (seq + 1) fs (omega arith)
        (moved d (seq + suc (length fs)) (seq + 1 + length fs) (ok none) (omega arith) r)

  Holds-snoc :
      (d : Device) (seq : ℕ) (fs : List JournalFrame) (f : JournalFrame)
      → Holds crc dev d seq fs
      → read_frame crc dev d (seq + length fs) ≡ ok (some f)
      → Holds crc dev d seq (fs ++ f ∷ [])
  Holds-snoc d seq [] f h r = (moved d (seq + 0) seq (ok (some f)) (omega arith) r, tt)
  Holds-snoc d seq (g ∷ fs) f (hg, h) r = (
    hg,
    Holds-snoc d (seq + 1) fs f h
        (moved d (seq + suc (length fs)) (seq + 1 + length fs) (ok (some f)) (omega arith) r),
  )

  Holds-append_apart :
      (d : Device) (f : JournalFrame) (seq : ℕ) (fs : List JournalFrame) {d' : Device}
      → IsFrame f
      → append crc dev d f ≡ ok d'
      → seq + length fs ≤ f.seq
      → f.seq < seq + journal_capacity
      → Holds crc dev d seq fs
      → Holds crc dev d' seq fs
  Holds-append_apart d f seq [] hf e low high h = tt
  Holds-append_apart d f seq (g ∷ fs) hf e low high (hg, h) = (
    read-append_apart crc dev d f seq hf (within_turn seq f.seq (omega arith) high) e ∙ hg,
    Holds-append_apart d f (seq + 1) fs hf e (omega arith) (omega arith) h,
  )

  -- A stamped frame that is appended behind the others.
  pub Holds-append :
      (d : Device) (f : JournalFrame) (seq : ℕ) (fs : List JournalFrame) {d' : Device}
      → IsFrame f
      → is_valid crc f f.seq ≡ true
      → append crc dev d f ≡ ok d'
      → f.seq ≡ seq + length fs
      → length fs < journal_capacity
      → Holds crc dev d seq fs
      → Holds crc dev d' seq (fs ++ f ∷ [])
  Holds-append d f seq fs {d'} hf v e at_end room h =
      Holds-snoc d' seq fs f (Holds-append_apart d f seq fs hf e (omega arith) (omega arith) h) (
        moved d' f.seq (seq + length fs) (ok (some f)) at_end (read-append_self crc dev d f hf v e))

  -- What the loop over the records leaves: the frames stand behind the others, and numbers from
  -- their end to a turn on read as before.
  pub record Appended (d d1 : Device) (start seq end : ℕ) (fs : List JournalFrame)
      (rs : List LogRecord) : Type 0 where
    pub end_lem : end ≡ seq + length rs
    pub holds : Holds crc dev d1 start (fs ++ op_frames crc seq rs)
    pub kept :
        (n : ℕ)
        → seq + length rs ≤ n
        → n < seq + journal_capacity
        → read_frame crc dev d1 n ≡ read_frame crc dev d n

  pub append_ops_lem :
      (d d1 : Device) (start seq end : ℕ) (fs : List JournalFrame) (rs : List LogRecord)
      → Holds crc dev d start fs
      → seq ≡ start + length fs
      → AllRecords rs
      → seq + length rs < 256 ^ 8
      → length fs + length rs ≤ journal_capacity
      → append_ops crc dev d seq rs ≡ ok (d1, end)
      → Appended d d1 start seq end fs rs
  unfolding append_ops
  append_ops_lem d d1 start seq end fs [] h at_end k small room e =
      let same : d ≡ d1 = cc in
      let stop : seq ≡ end = cc in
      record {
        end_lem = omega arith;
        holds = rw (append-nil fs) (subst (λ x. Holds crc dev x start fs) same h);
        kept = λ n low high. ap (λ x. read_frame crc dev x n) (sym same);
      }
  append_ops_lem d d1 start seq end fs (r ∷ rs) h at_end (hr, k) small room e =
      let f = op_frame seq r in
      let g = stamp_checksum crc f in
      let lr = logged_op_lem seq r (omega arith) hr in
      let hg = stamp-IsFrame crc f (op_frame-IsFrame seq r (omega arith) hr) in
      let (d2, e2, e3) =
        bind-ok (append crc dev d g) (λ x. append_ops crc dev x (seq + 1) rs) (d1, end)
          (rw lr at e) in
      let (sq, kd, op, v) = op_frame_lem crc seq r (omega arith) hr in
      let next = Holds-append d g start fs hg v e2 (omega arith) (omega arith) h in
      let l = length-append fs (g ∷ []) in
      let ih =
        append_ops_lem d2 d1 start (seq + 1) end (fs ++ g ∷ []) rs next (omega arith) k
          (omega arith) (omega arith) e3 in
      record {
        end_lem = omega (arith, ih.end_lem);
        holds =
            subst (λ x. Holds crc dev d1 start x)
              (append_assoc fs (g ∷ []) (op_frames crc (seq + 1) rs)) ih.holds;
        kept = λ n low high.
            ih.kept n (omega arith) (omega arith)
            ∙ read-append_apart crc dev d g n hg
                (λ q. within_turn g.seq n (omega arith) (omega arith) (sym q)) e2;
      }
