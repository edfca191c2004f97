-- ===== src/Journal/Frame/Image.antt =====
-- The byte image of a frame: its size, and that it reads back; and stamped frames are valid.
use rfs.Prelude.{
  ℕ, ◌≡◌, refl, true, arith, length, take, drop, length-append, take-length, drop-length,
}
use rfs.Layout.{Fit, pack, length-pack, unpack-pack}
use rfs.Journal.Frame.{
  JournalFrame, header, header_size, journal_op_capacity, to_bytes, of_bytes, stamp_checksum,
  is_valid, journal_magic, Crc32, is_some, kind,
}

-- Every field is in the range of its type, and the payload area has its size.
pub record IsFrame (f : JournalFrame) : Type 0 where
  pub fit : Fit (header f)
  pub payload : length f.op_data ≡ journal_op_capacity

module _ (f : JournalFrame) (h : IsFrame f) where
  pub length-to_bytes : length (to_bytes f) ≡ 256
  unfolding to_bytes
  length-to_bytes =
      omega (arith, length-append (pack (header f)) f.op_data, length-pack (header f), h.payload)

  pub of_bytes-to_bytes : of_bytes (to_bytes f) ≡ f
  unfolding of_bytes to_bytes
  of_bytes-to_bytes =
      let l : length (pack (header f)) ≡ header_size = length-pack (header f) in
      let t : take header_size (to_bytes f) ≡ pack (header f) =
        rw l at (take-length (pack (header f)) f.op_data) in
      let d : drop header_size (to_bytes f) ≡ f.op_data =
        rw l at (drop-length (pack (header f)) f.op_data) in
      rw (t, d) (rw (unpack-pack (header f) h.fit) refl)

module _ (crc : Crc32) where
  -- Stamping keeps every field in range.
  pub stamp-IsFrame : (f : JournalFrame) → IsFrame f → IsFrame (stamp_checksum crc f)
  unfolding stamp_checksum
  stamp-IsFrame f h = record { fit = (h.fit.0, (crc.hash_lt _, h.fit.1.1)); payload = h.payload }

  -- A stamped frame is valid for its own number.
  pub is_valid-stamp :
      (f : JournalFrame)
      → f.magic ≡ journal_magic
      → is_some (kind f) ≡ true
      → is_valid crc (stamp_checksum crc f) f.seq ≡ true
  unfolding is_valid stamp_checksum
  is_valid-stamp f m k = ground arith

  -- A valid frame has the magic number, the expected number, a kind and the checksum of its bytes.
  pub is_valid-kind : (f : JournalFrame) (n : ℕ) → is_valid crc f n ≡ true → is_some (kind f) ≡ true
  unfolding is_valid
  is_valid-kind f n h = ground arith
