-- ===== src/Journal/Ring.antt =====
-- The slots of the journal's ring: `Journal::frame_offset`, `append` and `read_frame`.
use rfs.Prelude.{ℕ, ◌+◌, ◌*◌, ◌%◌, ◌≤◌, ◌<◌, ◌≡◌, ◌≢◌, ◌⊎◌, inl, inr, true, some, arith, length}
use rfs.Prelude.Outcome.{ok}
use rfs.Device.{BlockDevice}
use rfs.Journal.Frame.{Crc32, JournalFrame, to_bytes, is_valid}
use rfs.Journal.Frame.Image.{IsFrame, length-to_bytes, of_bytes-to_bytes}
use rfs.Journal.{
  frame_offset, append, read_frame, journal_capacity, first_journal_block, journal_blocks,
  block_size,
}

-- A slot lies in the journal's blocks.
pub frame_offset_bounds :
    (seq : ℕ)
    → (first_journal_block * block_size ≤ frame_offset seq)
      × (frame_offset seq + 256 ≤ (first_journal_block + journal_blocks) * block_size)
unfolding frame_offset
frame_offset_bounds seq = omega arith

-- The slots are the multiples of the frame size from the first journal block on.
frame_offset_flat : (seq : ℕ) → frame_offset seq ≡ 4096 + 256 * (seq % 1024)
unfolding frame_offset
frame_offset_flat seq = omega arith

-- Numbers that differ modulo the capacity have slots that do not overlap.
pub slots_apart :
    (s t : ℕ)
    → s % journal_capacity ≢ t % journal_capacity
    → (frame_offset s + 256 ≤ frame_offset t) ⊎ (frame_offset t + 256 ≤ frame_offset s)
slots_apart s t h =
    let es = frame_offset_flat s in
    let et = frame_offset_flat t in
    elim (le_or_lt (s % 1024) (t % 1024)) [
      | inl le ↦ inl (omega arith)
      | inr gt ↦ inr (omega arith)
    ]
  where
    le_or_lt : (a b : ℕ) → (a ≤ b) ⊎ (b < a)
    le_or_lt a b = grind arith

-- Numbers less than a turn of the ring apart have different slots.
pub within_turn :
    (s t : ℕ) → s < t → t < s + journal_capacity → s % journal_capacity ≢ t % journal_capacity
within_turn s t h k e = omega arith

module _ (crc : Crc32) (dev : BlockDevice) where
  open dev use {Device, read-write_self, read-write_apart}

  -- A valid frame that was appended is read back at its number.
  pub read-append_self :
      (d : Device) (f : JournalFrame) {d' : Device}
      → IsFrame f
      → is_valid crc f f.seq ≡ true
      → append crc dev d f ≡ ok d'
      → read_frame crc dev d' f.seq ≡ ok (some f)
  unfolding append read_frame
  read-append_self d f {d'} h v e =
      let back =
        rw (length-to_bytes f h) at (read-write_self d (to_bytes f) (frame_offset f.seq) e) in
      rw back (rw (of_bytes-to_bytes f h, v))

  -- An append leaves what is read at numbers with another slot.
  pub read-append_apart :
      (d : Device) (f : JournalFrame) (n : ℕ) {d' : Device}
      → IsFrame f
      → n % journal_capacity ≢ f.seq % journal_capacity
      → append crc dev d f ≡ ok d'
      → read_frame crc dev d' n ≡ read_frame crc dev d n
  unfolding append read_frame
  read-append_apart d f n {d'} h k e =
      let l = length-to_bytes f h in
      let apart : (frame_offset n + 256 ≤ frame_offset f.seq)
          ⊎ (frame_offset f.seq + length (to_bytes f) ≤ frame_offset n) =
        rw l (slots_apart n f.seq k) in
      rw (read-write_apart d (to_bytes f) (frame_offset f.seq) 256 (frame_offset n) e apart)
