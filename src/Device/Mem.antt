-- ===== src/Device/Mem.antt =====
-- `MemDevice`: one growable vector of bytes, which reads as zeros past its end.
use native.Mathlib.Nat.{sub-zero}
use rfs.Prelude.{
  ℕ, zero, suc, ◌+◌, ◌-◌, ◌≤◌, ◌<◌, ◌≡◌, refl, ◌⊎◌, [], ◌++◌, arith, length, take, drop, replicate,
  ltb, leb, ◌&&◌, if◌then◌else◌, length-append, length-take, length-replicate, ap, sym, ◌∙◌,
}
use rfs.Prelude.Outcome.{ok}
use rfs.Bytes.{Bytes}
use rfs.Device.{BlockDevice}
use rfs.Device.Positions.{
  byte_at, byte_at-append, byte_at-take, byte_at-drop, byte_at-drop_back, byte_at-zeros,
  byte_at-past, ext_byte,
}

pub record MemDevice : Type 0 where
  pub contents : Bytes

abbrev pub new : MemDevice
new = record { contents = [] }

-- `Vec::resize(n, 0)`.
unfoldable pub resize : Bytes → ℕ → Bytes
resize bs n = take n bs ++ replicate (n - length bs) 0

-- The buffer is zeroed, and overlaid with what the vector has of the range.
unfoldable pub read_at : MemDevice → ℕ → ℕ → Bytes
read_at d n off =
    let got : Bytes = take n (drop off d.contents) in got ++ replicate (n - length got) 0

-- The vector after `if data.len() < end { data.resize(end, 0) }`.
unfoldable pub grow : Bytes → ℕ → Bytes
unfolding resize
grow bs end = if ltb (length bs) end then resize bs end else bs

-- The vector grows to the end of the range if it is shorter, and the range is overwritten.
unfoldable pub write_at : MemDevice → Bytes → ℕ → MemDevice
write_at d bs off =
    let end : ℕ = off + length bs in
    let grown : Bytes = grow d.contents end in
    record { contents = take off grown ++ bs ++ drop end grown }

unfoldable pub set_len : MemDevice → ℕ → MemDevice
unfolding resize
set_len d n = record { contents = resize d.contents n }

length-resize : (bs : Bytes) (n : ℕ) → length (resize bs n) ≡ n
unfolding resize
length-resize bs n = omega (
  arith,
  length-append (take n bs) (replicate (n - length bs) 0),
  length-take n bs,
  length-replicate {A = ℕ} (n - length bs) 0,
)

byte_at-resize : (bs : Bytes) (n i : ℕ) → length bs ≤ n → byte_at (resize bs n) i ≡ byte_at bs i
unfolding resize
byte_at-resize bs n i h =
    let l = length-take n bs in
    rw byte_at-append (
      ground (
        arith,
        byte_at-take n bs i,
        byte_at-zeros (n - length bs) (i - length (take n bs)),
        byte_at-past bs i,
      ))

grow-length : (bs : Bytes) (end : ℕ) → end ≤ length (grow bs end)
unfolding grow
grow-length bs end = ground (arith, length-resize bs end)

grow-byte_at : (bs : Bytes) (end i : ℕ) → byte_at (grow bs end) i ≡ byte_at bs i
unfolding grow
grow-byte_at bs end i = ground (arith, byte_at-resize bs end i)

pub length-read_at : (d : MemDevice) (n off : ℕ) → length (read_at d n off) ≡ n
unfolding read_at
length-read_at d n off = omega (
  arith,
  length-append (take n (drop off d.contents))
      (replicate (n - length (take n (drop off d.contents))) 0),
  length-take n (drop off d.contents),
  length-replicate {A = ℕ} (n - length (take n (drop off d.contents))) 0,
)

-- A read returns the bytes of the range, zeros where nothing was written.
pub byte_at-read_at :
    (d : MemDevice) (n off i : ℕ)
    → i < n
    → byte_at (read_at d n off) i ≡ byte_at d.contents (off + i)
unfolding read_at
byte_at-read_at d n off i h =
    let got : Bytes = take n (drop off d.contents) in
    let l = length-take n (drop off d.contents) in
    rw (byte_at-append, ← byte_at-drop off d.contents i)
      (ground (
        arith,
        byte_at-take n (drop off d.contents) i,
        byte_at-zeros (n - length got) (i - length got),
        byte_at-past (drop off d.contents) i,
      ))

-- A write changes the bytes of its range, and no other.
pub byte_at-write_at :
    (d : MemDevice) (bs : Bytes) (off i : ℕ)
    → byte_at (write_at d bs off).contents i ≡ (
        if leb off i && ltb i (off + length bs) then byte_at bs (i - off) else byte_at d.contents i)
unfolding write_at
byte_at-write_at d bs off i =
    let end : ℕ = off + length bs in
    let g : Bytes = grow d.contents end in
    let lg = grow-length d.contents end in
    let lt_ = length-take off g in
    let la = length-append (take off g) bs in
    let outer = byte_at-append (take off g ++ bs) (drop end g) i in
    let inner = byte_at-append (take off g) bs i in
    let e : length (take off g) ≡ off = omega arith in
    let e' : length (take off g ++ bs) ≡ end = omega arith in
    outer
    ∙ rw (inner, e, e')
        (ground
          (arith, byte_at-take off g i, byte_at-drop_back end g i, grow-byte_at d.contents end i))

-- What was just written is read back.
pub read-write_self :
    (d : MemDevice) (bs : Bytes) (off : ℕ) → read_at (write_at d bs off) (length bs) off ≡ bs
read-write_self d bs off =
    ext_byte (read_at (write_at d bs off) (length bs) off) bs
      (length-read_at (write_at d bs off) (length bs) off)
      (λ i h. read_back i (omega (arith, length-read_at (write_at d bs off) (length bs) off)))
  where
    read_back :
        (i : ℕ)
        → i < length bs
        → byte_at (read_at (write_at d bs off) (length bs) off) i ≡ byte_at bs i
    read_back i h =
        let e : off + i - off ≡ i = omega arith in
        byte_at-read_at (write_at d bs off) (length bs) off i h
        ∙ byte_at-write_at d bs off (off + i)
        ∙ ground (arith, ap (byte_at bs) e)

-- A range that a write does not overlap reads as before.
pub read-write_apart :
    (d : MemDevice) (bs : Bytes) (off n pos : ℕ)
    → (pos + n ≤ off) ⊎ (off + length bs ≤ pos)
    → read_at (write_at d bs off) n pos ≡ read_at d n pos
read-write_apart d bs off n pos h =
    ext_byte (read_at (write_at d bs off) n pos) (read_at d n pos)
      (length-read_at (write_at d bs off) n pos ∙ sym (length-read_at d n pos))
      (λ i k. same i (omega (arith, length-read_at (write_at d bs off) n pos)))
  where
    same :
        (i : ℕ)
        → i < n
        → byte_at (read_at (write_at d bs off) n pos) i ≡ byte_at (read_at d n pos) i
    same i k =
        byte_at-read_at (write_at d bs off) n pos i k
        ∙ byte_at-write_at d bs off (pos + i)
        ∙ ground arith
        ∙ sym (byte_at-read_at d n pos i k)

-- Bytes that were never written are zeros.
pub read-new : (n off : ℕ) → read_at new n off ≡ replicate n 0
unfolding read_at
read-new n off = rw (drop_nil off, take_nil n, sub-zero)
  where
    drop_nil : (k : ℕ) → drop {A = ℕ} k [] ≡ []
    drop_nil zero = refl
    drop_nil (suc k) = refl

    take_nil : (k : ℕ) → take {A = ℕ} k [] ≡ []
    take_nil zero = refl
    take_nil (suc k) = refl

pub kept_self :
    (d : MemDevice) (bs : Bytes) (off : ℕ) {d' : MemDevice}
    → ok (write_at d bs off) ≡ ok d'
    → ok (read_at d' (length bs) off) ≡ ok bs
kept_self d bs off {d'} e =
    let f : write_at d bs off ≡ d' = cc in rw (← f) (ap ok (read-write_self d bs off))

pub kept_apart :
    (d : MemDevice) (bs : Bytes) (off n pos : ℕ) {d' : MemDevice}
    → ok (write_at d bs off) ≡ ok d'
    → (pos + n ≤ off) ⊎ (off + length bs ≤ pos)
    → ok (read_at d' n pos) ≡ ok (read_at d n pos)
kept_apart d bs off n pos {d'} e h =
    let f : write_at d bs off ≡ d' = cc in rw (← f) (ap ok (read-write_apart d bs off n pos h))

-- The trait's promises hold of `MemDevice`.
pub kept_sync :
    (d : MemDevice) (n pos : ℕ) {d' : MemDevice}
    → ok d ≡ ok d'
    → ok (read_at d' n pos) ≡ ok (read_at d n pos)
kept_sync d n pos {d'} e = let f : d ≡ d' = cc in rw (← f) refl

abbrev pub mem_device : BlockDevice
mem_device = record {
  Device = MemDevice;
  read_at = λ d n off. ok (read_at d n off);
  write_at = λ d bs off. ok (write_at d bs off);
  sync = λ d. ok d;
  set_len = λ d n. ok (set_len d n);
  read-write_self = λ d bs off e. kept_self d bs off e;
  read-write_apart = λ d bs off n pos e h. kept_apart d bs off n pos e h;
  read-sync = λ d n pos e. kept_sync d n pos e;
}
