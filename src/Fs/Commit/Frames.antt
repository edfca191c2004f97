-- ===== src/Fs/Commit/Frames.antt =====
-- The groups that the frames of a commit make, by the specification of a scan.
use rfs.Prelude.{
  ℕ, suc, ◌+◌, ◌^◌, ◌≤◌, ◌≡◌, refl, ap, ◌∙◌, Bool, true, false, none, some, List, [], ◌∷◌, ◌++◌,
  map, append_assoc, append-nil, arith, length,
}
use rfs.Bytes.{Bytes}
use rfs.Journal.Frame.{Crc32, JournalFrame, kind, op_payload, stamp_checksum}
use rfs.Journal.Frame.Kind.{FrameKind}
use rfs.Journal.Scan.{groups_of, end_of}
use rfs.Btree.Record.{LogRecord}
use rfs.Fs.Commit.Group.{AllRecords, op_of, op_frame, op_frame_lem}

-- The frames of the records, numbered from `s` on.
abbrev pub op_frames : Crc32 → ℕ → List LogRecord → List JournalFrame
op_frames crc s [] = []
op_frames crc s (r ∷ rs) = stamp_checksum crc (op_frame s r) ∷ op_frames crc (s + 1) rs

pub length-op_frames :
    (crc : Crc32) (s : ℕ) (rs : List LogRecord) → length (op_frames crc s rs) ≡ length rs
length-op_frames crc s [] = refl
length-op_frames crc s (r ∷ rs) = ap suc (length-op_frames crc (s + 1) rs)

-- A step of the specification at each kind of frame.
groups_of-logged :
    (f : JournalFrame) (pending : List (ℕ × Bytes)) (fs : List JournalFrame)
    → kind f ≡ some FrameKind.logged_op
    → groups_of pending (f ∷ fs) ≡ groups_of (pending ++ (f.op_kind, op_payload f) ∷ []) fs
unfolding groups_of
groups_of-logged f pending fs h = rw (h, groups_of)

end_of-logged :
    (f : JournalFrame) (s last : ℕ) (fs : List JournalFrame)
    → kind f ≡ some FrameKind.logged_op
    → end_of s last (f ∷ fs) ≡ end_of (s + 1) last fs
unfolding end_of
end_of-logged f s last fs h = rw (h, end_of)

pub groups_of-end :
    (f : JournalFrame) (pending : List (ℕ × Bytes))
    → kind f ≡ some FrameKind.commit_end
    → groups_of pending (f ∷ []) ≡ record { ops = pending; end = f } ∷ []
unfolding groups_of
groups_of-end f pending h = rw (h, groups_of)

pub end_of-end :
    (f : JournalFrame) (s last : ℕ)
    → kind f ≡ some FrameKind.commit_end
    → end_of s last (f ∷ []) ≡ s + 1
unfolding end_of
end_of-end f s last h = rw (h, end_of)

-- The operations of the frames wait for a closing frame.
pub groups_of-op_frames :
    (crc : Crc32) (s : ℕ) (rs : List LogRecord) (pending : List (ℕ × Bytes))
    (gs : List JournalFrame)
    → s + length rs ≤ 256 ^ 8
    → AllRecords rs
    → groups_of pending (op_frames crc s rs ++ gs) ≡ groups_of (pending ++ map op_of rs) gs
groups_of-op_frames crc s [] pending gs k h = rw (append-nil pending)
groups_of-op_frames crc s (r ∷ rs) pending gs k (hr, h) =
    let (sq, kd, op, v) = op_frame_lem crc s r (omega arith) hr in
    let rest = op_frames crc (s + 1) rs ++ gs in
    groups_of-logged (stamp_checksum crc (op_frame s r)) pending rest kd
    ∙ ap (λ o. groups_of (pending ++ o ∷ []) rest) op
    ∙ groups_of-op_frames crc (s + 1) rs (pending ++ op_of r ∷ []) gs (omega arith) h
    ∙ ap (λ p. groups_of p gs) (append_assoc pending (op_of r ∷ []) (map op_of rs))

pub end_of-op_frames :
    (crc : Crc32) (s n last : ℕ) (rs : List LogRecord) (gs : List JournalFrame)
    → n ≡ s + length rs
    → n ≤ 256 ^ 8
    → AllRecords rs
    → end_of s last (op_frames crc s rs ++ gs) ≡ end_of n last gs
end_of-op_frames crc s n last [] gs e k h = ap (λ m. end_of m last gs) (omega arith)
end_of-op_frames crc s n last (r ∷ rs) gs e k (hr, h) =
    let (sq, kd, op, v) = op_frame_lem crc s r (omega arith) hr in
    end_of-logged (stamp_checksum crc (op_frame s r)) s last (op_frames crc (s + 1) rs ++ gs) kd
    ∙ end_of-op_frames crc (s + 1) n last rs gs (omega arith) k h

-- Whether the frames end with a closing frame (`closed` says it of what came before them).
unfoldable pub is_closed : Bool → List JournalFrame → Bool
is_closed closed [] = closed
is_closed closed (f ∷ fs) = elim (kind f) [
  | none ↦ false
  | some k ↦ elim k [
    | FrameKind.logged_op ↦ is_closed false fs
    | FrameKind.commit_end ↦ is_closed true fs
  ]
]

-- Groups behind closed ones are groups of their own.
pub groups_of-append :
    (closed : Bool) (pending : List (ℕ × Bytes)) (fs gs : List JournalFrame)
    → (closed ≡ true → pending ≡ [])
    → is_closed closed fs ≡ true
    → groups_of pending (fs ++ gs) ≡ groups_of pending fs ++ groups_of [] gs
unfolding groups_of is_closed
groups_of-append closed pending [] gs h k = ap (λ p. groups_of p gs) (h k)
groups_of-append closed pending (f ∷ fs) gs h k = ground (
  arith,
  groups_of-append false (pending ++ (f.op_kind, op_payload f) ∷ []) fs gs (λ e. absurd (no e)),
  groups_of-append true [] fs gs (λ e. refl),
)
  where
    no : false ≡ true → ⊥
    no e = ground arith

pub end_of-append :
    (closed : Bool) (s last : ℕ) (fs gs : List JournalFrame)
    → (closed ≡ true → last ≡ s)
    → is_closed closed fs ≡ true
    → end_of s last (fs ++ gs) ≡ end_of (s + length fs) (s + length fs) gs
unfolding end_of is_closed
end_of-append closed s last [] gs h k =
    ap (λ m. end_of s m gs) (h k) ∙ ap (λ m. end_of m m gs) (omega arith)
end_of-append closed s last (f ∷ fs) gs h k = ground (
  arith,
  ap (λ m. end_of m m gs) (shift s (length fs)),
  end_of-append false (s + 1) last fs gs (λ e. absurd (no e)),
  end_of-append true (s + 1) (s + 1) fs gs (λ e. refl),
)
  where
    no : false ≡ true → ⊥
    no e = ground arith

    shift : (a b : ℕ) → a + 1 + b ≡ a + suc b
    shift a b = omega arith
