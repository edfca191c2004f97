-- ===== src/Device.antt =====
-- device.rs: the block device under the store and the journal. `BlockDevice` is the trait, with
-- what its documentation promises of a device that answers: a write is read back, and leaves what
-- it does not overlap; a flush changes nothing that is read. `MemDevice`, the simulation in memory, is an implementation.
-- `FileDevice` forwards each call to the operating system's file and is not modelled.
pub mod Mem
pub mod Positions
use rfs.Prelude.{ℕ, ◌+◌, ◌≤◌, ◌≡◌, ◌⊎◌, length}
use rfs.Prelude.Outcome.{Outcome, ok}
use rfs.Bytes.{Bytes}

-- The arguments of `read_at` are the buffer's length and the offset.
pub record BlockDevice : Type 1 where
  pub Device : Type 0
  pub read_at : Device → ℕ → ℕ → Outcome Bytes
  pub write_at : Device → Bytes → ℕ → Outcome Device
  pub sync : Device → Outcome Device
  pub set_len : Device → ℕ → Outcome Device
  pub read-write_self :
      (d : Device) (bs : Bytes) (off : ℕ) {d' : Device}
      → write_at d bs off ≡ ok d'
      → read_at d' (length bs) off ≡ ok bs
  pub read-write_apart :
      (d : Device) (bs : Bytes) (off n pos : ℕ) {d' : Device}
      → write_at d bs off ≡ ok d'
      → (pos + n ≤ off) ⊎ (off + length bs ≤ pos)
      → read_at d' n pos ≡ read_at d n pos
  pub read-sync :
      (d : Device) (n pos : ℕ) {d' : Device} → sync d ≡ ok d' → read_at d' n pos ≡ read_at d n pos
