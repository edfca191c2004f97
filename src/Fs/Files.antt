-- ===== src/Fs/Files.antt =====
-- fs.rs: extents, and the reads and writes of a file's bytes. A block holds one extent at most, keyed
-- by its first byte.
use rfs.Prelude.{
  ℕ, zero, suc, ◌+◌, ◌-◌, ◌*◌, ◌/◌, ◌%◌, Bool, ◌&&◌, ◌||◌, Option, none, some, List, [], ◌∷◌, ◌++◌,
  length, take, drop, replicate, min, max, ltb, leb, ◌==◌, if◌then◌else◌,
}
use rfs.Prelude.Outcome.{Outcome, ok, panic, ◌>>=◌, assert}
use rfs.Bytes.{Bytes}
use rfs.Entry.{filled}
use rfs.Store.{get, remove, block_size}
use rfs.Btree.{alloc, free}
use rfs.Btree.Handle.{Btree}
use rfs.Btree.Handle as Btree
use rfs.Fs.Keys.{extent_key, extent_range, extent_offset_from_key}
use rfs.Fs.Values.{ExtentV1, extent_to_bytes, extent_of_bytes}
use rfs.Fs.State.{Fs, decoded, decoded_rows, put_at, current_snap, current_chain, get_inode}

-- `offset & !(BLOCK_SIZE - 1)`.
abbrev pub block_start : ℕ → ℕ
block_start offset = offset / block_size * block_size

-- `dst[at..at + src.len()].copy_from_slice(src)`; a range out of bounds panics.
unfoldable pub copy_into : ℕ → Bytes → Bytes → Outcome Bytes
copy_into at src dst =
    if leb (at + length src) (length dst)
    then ok (take at dst ++ (src ++ drop (at + length src) dst))
    else panic

-- `&src[from..to]`.
unfoldable pub slice : ℕ → ℕ → Bytes → Outcome Bytes
slice from to src =
    if leb from to && leb to (length src) then ok (drop from (take to src)) else panic

-- A block that was never written reads as zeros.
unfoldable pub read_data_block : Fs → ℕ → Bytes
read_data_block f nr = elim (get f.data_blocks nr) [ none ↦ replicate block_size 0 | some b ↦ b ]

unfoldable pub free_data_block : ℕ → Fs → Fs
unfolding free
free_data_block nr f = record f {
  tree = record f.tree { store = free f.tree.store nr };
  data_blocks = remove f.data_blocks nr;
}

module _ (fuel : ℕ) where
  unfoldable pub put_extent : ℕ → ℕ → Bytes → Fs → Outcome Fs
  unfolding current_snap alloc filled put_at extent_key extent_to_bytes
  put_extent ino offset bs f = do
    _ ← assert (leb (length bs) block_size)
    snap ← current_snap fuel f
    let a = alloc f.tree.store
    put_at fuel (extent_key ino offset) snap
        (extent_to_bytes (record { len = length bs; pad = 0; data_block = a.0 }))
        (record f {
          tree = record f.tree { store = a.1 };
          data_blocks = (a.0, filled block_size bs) ∷ f.data_blocks;
        })

  unfoldable pub get_extent : Fs → ℕ → ℕ → Outcome (Option ExtentV1)
  unfolding current_chain Btree.find_visible extent_key extent_of_bytes
  get_extent f ino offset = do
    chain ← current_chain fuel f
    b ← Btree.find_visible fuel (extent_key ino offset) chain f.tree
    decoded (λ x. extent_of_bytes x) b

  unfoldable pub delete_extent : ℕ → ℕ → Fs → Outcome (Bool × Fs)
  unfolding current_snap current_chain Btree.delete_at extent_key
  delete_extent ino offset f = do
    snap ← current_snap fuel f
    chain ← current_chain fuel f
    r ← Btree.delete_at fuel (extent_key ino offset) snap chain f.tree
    ok (r.0, record f { tree = r.1 })

  unfoldable pub collect_extents : Fs → Bytes → Bytes → List ℕ → Outcome (List (ℕ × ExtentV1))
  unfolding Btree.range_scan_visible extent_offset_from_key extent_of_bytes
  collect_extents f start end chain =
      Btree.range_scan_visible fuel start end chain f.tree >>= λ rows.
      decoded_rows (λ k. extent_offset_from_key k) (λ v. extent_of_bytes v) rows

  unfoldable pub list_extents : Fs → ℕ → Outcome (List (ℕ × ExtentV1))
  unfolding current_chain extent_range collect_extents
  list_extents f ino = current_chain fuel f >>= λ chain.
      collect_extents f (extent_range ino).0 (extent_range ino).1 chain

  unfoldable pub extents_in_range : Fs → ℕ → ℕ → ℕ → Outcome (List (ℕ × ExtentV1))
  unfolding current_chain extent_key collect_extents
  extents_in_range f ino start_off end_off =
      if leb end_off start_off
      then ok []
      else (current_chain fuel f >>= λ chain.
          collect_extents f (extent_key ino start_off) (extent_key ino end_off) chain)

  -- The loop of `read_at` over the extents.
  unfoldable pub copy_extents : Fs → ℕ → ℕ → List (ℕ × ExtentV1) → Bytes → Outcome Bytes
  unfolding read_data_block slice copy_into
  copy_extents f offset end [] out = ok out
  copy_extents f offset end ((ext_off, ext) ∷ exts) out =
      if leb (ext_off + ext.len) offset || leb end ext_off
      then copy_extents f offset end exts out
      else (slice (max offset ext_off - ext_off) (min end (ext_off + ext.len) - ext_off)
            (read_data_block f ext.data_block)
          >>= λ src. copy_into (max offset ext_off - offset) src out >>= λ out'.
              copy_extents f offset end exts out')

  unfoldable pub read_at : Fs → ℕ → ℕ → ℕ → Outcome Bytes
  unfolding get_inode extents_in_range copy_extents
  read_at f ino offset size = get_inode fuel f ino >>= λ found. elim found [
    | none ↦ ok []
    | some inode ↦
        if leb inode.size offset
        then ok []
        else (let end : ℕ = min (offset + size) inode.size in
            extents_in_range f ino (block_start offset) end >>= λ exts.
            copy_extents f offset end exts (replicate (end - offset) 0))
  ]

  -- The bytes of a block before a write: its extent's, and how many there are.
  unfoldable pub existing : Fs → Option ExtentV1 → Outcome (ℕ × Bytes)
  unfolding read_data_block slice copy_into
  existing f none = ok (0, replicate block_size 0)
  existing f (some ext) = slice 0 ext.len (read_data_block f ext.data_block) >>= λ src.
      copy_into 0 src (replicate block_size 0) >>= λ buf. ok (ext.len, buf)

  -- One round of `write_at`: the part of the bytes that lies in the block at `cursor`.
  unfoldable pub write_block : ℕ → ℕ → Bytes → Fs → Outcome Fs
  unfolding get_extent existing copy_into put_extent
  write_block ino cursor part f = do
    ext ← get_extent f ino (block_start cursor)
    old ← existing f ext
    buf ← copy_into (cursor % block_size) part old.1
    put_extent ino (block_start cursor) (take (max (cursor % block_size + length part) old.0) buf) f

  -- The loop of `write_at`; a round takes one byte at least.
  unfoldable pub write_loop : ℕ → ℕ → ℕ → Bytes → Fs → Outcome Fs
  unfolding write_block
  write_loop zero ino cursor remaining f = ok f
  write_loop (suc rounds) ino cursor [] f = ok f
  write_loop (suc rounds) ino cursor (b ∷ bs) f =
      let n : ℕ = min (block_size - cursor % block_size) (length (b ∷ bs)) in
      write_block ino cursor (take n (b ∷ bs)) f >>= λ f'.
      write_loop rounds ino (cursor + n) (drop n (b ∷ bs)) f'

  -- The number of bytes written, and the file system.
  unfoldable pub write_at : ℕ → ℕ → Bytes → Fs → Outcome (ℕ × Fs)
  unfolding write_loop
  write_at ino offset bs f = write_loop (length bs) ino offset bs f >>= λ f'. ok (length bs, f')

  -- The loop of `truncate_extents`.
  unfoldable pub truncate_each : ℕ → ℕ → List (ℕ × ExtentV1) → Fs → Outcome Fs
  unfolding delete_extent free_data_block read_data_block put_extent
  truncate_each ino new_size [] f = ok f
  truncate_each ino new_size ((ext_off, ext) ∷ exts) f =
      if leb new_size ext_off
      then (delete_extent ino ext_off f >>= λ r.
          truncate_each ino new_size exts (free_data_block ext.data_block r.1))
      else if ext_off == block_start new_size
          && ltb 0 (new_size % block_size)
          && ltb (new_size - ext_off) ext.len
      then (put_extent ino ext_off (take (new_size % block_size) (read_data_block f ext.data_block))
            f
          >>= λ f'. truncate_each ino new_size exts f')
      else truncate_each ino new_size exts f

  unfoldable pub truncate_extents : ℕ → ℕ → Fs → Outcome Fs
  unfolding list_extents truncate_each
  truncate_extents ino new_size f = list_extents f ino >>= λ exts. truncate_each ino new_size exts f
