-- ===== src/Store.antt =====
-- storage.rs: `BlockStore`, the allocator of block numbers and the caches of nodes and data blocks
-- over the block device. The locks are not modelled: each operation is one step. A map is an
-- association list with its newest entry first. A call that fails returns no store: what it
-- has changed before the failing device call is at most the checksum field of a cached node.
pub mod Alloc
pub mod Image
pub mod Coherent
pub mod FreeList
use rfs.Prelude.{
  ℕ, ◌+◌, ◌*◌, ◌%◌, ◌^◌, ◌≡◌, Bool, true, false, not, Option, none, some, List, [], ◌∷◌, ◌++◌,
  length, take, drop, ◌==◌, if◌then◌else◌,
}
use rfs.Prelude.Outcome.{Outcome, Error, ok, err, ◌>>=◌}
use rfs.Bytes.{Bytes, to_le, of_le}
use rfs.Device.{BlockDevice}
use rfs.Journal.Frame.{Crc32}
use rfs.Superblock.{Superblock, to_bytes, parse, stamp_checksum, superblock_block_nr}

abbrev pub block_size : ℕ
block_size = 4096

abbrev pub magic_number : ℕ
magic_number = 0x39C5BB39

-- The first block behind the superblock and the journal.
abbrev pub first_data_block_nr : ℕ
first_data_block_nr = 65

-- A node's block, of which the store reads the magic number and the checksum: `fields` are the 20
-- bytes between them and `rest` the 4064 behind.
pub record BtreeNodeRaw : Type 0 where
  pub magic : ℕ
  pub fields : Bytes
  pub checksum : ℕ
  pub rest : Bytes

unfoldable pub node_to_bytes : BtreeNodeRaw → Bytes
node_to_bytes n = to_le 4 n.magic ++ (n.fields ++ (to_le 8 n.checksum ++ n.rest))

unfoldable pub node_of_bytes : Bytes → BtreeNodeRaw
node_of_bytes bs = record {
  magic = of_le (take 4 bs);
  fields = take 20 (drop 4 bs);
  checksum = of_le (take 8 (drop 24 bs));
  rest = drop 32 bs;
}

pub record CachedNode : Type 0 where
  pub node : BtreeNodeRaw
  pub dirty : Bool

-- `HashMap::get` and `HashMap::remove`; `insert` puts an entry in front.
abbrev pub get {ℓ} : {A : Type ℓ} → List (ℕ × A) → ℕ → Option A
get [] nr = none
get ((k, a) ∷ m) nr = if k == nr then some a else get m nr

abbrev pub remove {ℓ} : {A : Type ℓ} → List (ℕ × A) → ℕ → List (ℕ × A)
remove [] nr = []
remove ((k, a) ∷ m) nr = let rest = remove m nr in if k == nr then rest else (k, a) ∷ rest

-- `Vec::pop`.
abbrev pub pop : List ℕ → Option (ℕ × List ℕ)
pop [] = none
pop (x ∷ xs) = elim (pop xs) [ none ↦ some (x, []) | some (y, ys) ↦ some (y, x ∷ ys) ]

pub record BlockStore (Dev : Type 0) : Type 0 where
  pub node_cache : List (ℕ × CachedNode)
  pub data_cache : List (ℕ × Bytes)
  pub next_block_nr : ℕ
  pub free_list : List ℕ
  pub last_chain_blocks : List ℕ
  pub device : Dev
  pub persistent : Bool

module _ {Dev : Type 0} where
  unfoldable pub with_device : Dev → Bool → BlockStore Dev
  with_device d p = record {
    node_cache = [];
    data_cache = [];
    next_block_nr = first_data_block_nr;
    free_list = [];
    last_chain_blocks = [];
    device = d;
    persistent = p;
  }

  -- `fetch_add` wraps around.
  unfoldable pub alloc : BlockStore Dev → ℕ × BlockStore Dev
  alloc s = elim (pop s.free_list) [
    | none ↦ (s.next_block_nr, record s { next_block_nr = (s.next_block_nr + 1) % 2 ^ 64 })
    | some (nr, rest) ↦ (nr, record s { free_list = rest })
  ]

  unfoldable pub free : BlockStore Dev → ℕ → BlockStore Dev
  free s nr = record s {
    node_cache = remove s.node_cache nr;
    data_cache = remove s.data_cache nr;
    free_list = s.free_list ++ nr ∷ [];
  }

  unfoldable pub free_count : BlockStore Dev → ℕ
  free_count s = length s.free_list

  unfoldable pub set_next_block_nr : BlockStore Dev → ℕ → BlockStore Dev
  set_next_block_nr s n = record s { next_block_nr = n }

module _ (crc : Crc32) where
  unfoldable pub node_checksum : BtreeNodeRaw → ℕ
  node_checksum n = crc.hash (node_to_bytes (record n { checksum = 0 }))

  unfoldable pub stamp_node : BtreeNodeRaw → BtreeNodeRaw
  stamp_node n = record n { checksum = crc.hash (node_to_bytes (record n { checksum = 0 })) }

  unfoldable pub verify_node_in_place : ℕ → BtreeNodeRaw → Outcome (Unit {0})
  unfolding node_checksum
  verify_node_in_place nr n =
      if n.magic == magic_number
      then (if n.checksum == node_checksum n then ok tt else err (Error.checksum_mismatch nr))
      else err (Error.bad_magic nr n.magic magic_number)

module _ (crc : Crc32) (dev : BlockDevice) where
  open dev use {Device, read_at, write_at}

  -- The fault of a node that is not cached: read from the device and verified.
  unfoldable pub fault_in : Device → ℕ → Outcome BtreeNodeRaw
  fault_in d nr = do
    bs ← read_at d block_size (nr * block_size)
    _ ← verify_node_in_place crc nr (node_of_bytes bs)
    ok (node_of_bytes bs)

  unfoldable pub with_node :
      {R : Type 0} → BlockStore Device → ℕ → (BtreeNodeRaw → R) → Outcome (R × BlockStore Device)
  unfolding fault_in
  with_node s nr f = elim (get s.node_cache nr) [
    | some c ↦ ok (f c.node, s)
    | none ↦ fault_in s.device nr >>= λ n.
        ok (f n, record s { node_cache = (nr, record { node = n; dirty = false }) ∷ s.node_cache })
  ]

  -- The edited node in the cache, dirty.
  abbrev pub edited :
      {R : Type 0} → BlockStore Device → ℕ → R × BtreeNodeRaw → R × BlockStore Device
  edited s nr (r, n) =
      (r, record s { node_cache = (nr, record { node = n; dirty = true }) ∷ s.node_cache })

  unfoldable pub with_node_mut :
      {R : Type 0}
      → BlockStore Device
      → ℕ
      → (BtreeNodeRaw → R × BtreeNodeRaw)
      → Outcome (R × BlockStore Device)
  unfolding fault_in
  with_node_mut s nr f = elim (get s.node_cache nr) [
    | some c ↦ ok (edited s nr (f c.node))
    | none ↦ fault_in s.device nr >>= λ n. ok (edited s nr (f n))
  ]

  unfoldable pub with_cached_node :
      {R : Type 0} → BlockStore Device → ℕ → (BtreeNodeRaw → Bool → R) → Option R
  with_cached_node s nr f = elim (get s.node_cache nr) [
    | none ↦ none
    | some c ↦ some (f c.node c.dirty)
  ]

  unfoldable pub write_node : BlockStore Device → ℕ → BtreeNodeRaw → Outcome (BlockStore Device)
  unfolding stamp_node node_to_bytes
  write_node s nr n =
      write_at s.device (node_to_bytes (stamp_node crc n)) (nr * block_size) >>= λ d. ok (record s {
        device = d;
        node_cache = (nr, record { node = stamp_node crc n; dirty = false }) ∷ s.node_cache;
      })

  -- A dirty node in place; nothing for one that is clean or not cached.
  unfoldable pub flush_node : BlockStore Device → ℕ → Outcome (BlockStore Device)
  unfolding stamp_node node_to_bytes
  flush_node s nr = elim (get s.node_cache nr) [
    | none ↦ ok s
    | some c ↦
        if c.dirty
        then (write_at s.device (node_to_bytes (stamp_node crc c.node)) (nr * block_size) >>= λ d.
            ok (record s {
              device = d;
              node_cache =
                  (nr, record { node = stamp_node crc c.node; dirty = false }) ∷ s.node_cache;
            }))
        else ok s
  ]

  -- The blocks of the dirty nodes. The source's map has them in no order; here it is the cache's. A
  -- block is listed once for each of its entries in the list, which changes nothing, since a node that
  -- has been flushed is clean.
  abbrev dirty_blocks : List (ℕ × CachedNode) → List (ℕ × CachedNode) → List ℕ
  dirty_blocks cache [] = []
  dirty_blocks cache (x ∷ xs) =
      let rest = dirty_blocks cache xs in
      elim (get cache x.0) [ none ↦ rest | some c ↦ if c.dirty then x.0 ∷ rest else rest ]

  unfoldable pub flush_each : BlockStore Device → List ℕ → Outcome (BlockStore Device)
  unfolding flush_node
  flush_each s [] = ok s
  flush_each s (nr ∷ nrs) = flush_node s nr >>= λ t. flush_each t nrs

  unfoldable pub flush_all : BlockStore Device → Outcome (BlockStore Device)
  unfolding flush_each
  flush_all s = flush_each s (dirty_blocks s.node_cache s.node_cache)

  unfoldable pub write_superblock : BlockStore Device → Superblock → Outcome (BlockStore Device)
  write_superblock s sb =
      write_at s.device (to_bytes (stamp_checksum crc sb)) (superblock_block_nr * block_size)
      >>= λ d. ok (record s { device = d })

  unfoldable pub read_superblock : BlockStore Device → Outcome Superblock
  read_superblock s = do
    bs ← read_at s.device block_size (superblock_block_nr * block_size)
    parse crc bs

module _ (dev : BlockDevice) where
  open dev use {Device, read_at, write_at, sync}

  unfoldable pub read_data : BlockStore Device → ℕ → Outcome (Bytes × BlockStore Device)
  read_data s nr = elim (get s.data_cache nr) [
    | some b ↦ ok (b, s)
    | none ↦ read_at s.device block_size (nr * block_size) >>= λ b.
        ok (b, record s { data_cache = (nr, b) ∷ s.data_cache })
  ]

  unfoldable pub write_data : BlockStore Device → ℕ → Bytes → Outcome (BlockStore Device)
  write_data s nr bs = write_at s.device bs (nr * block_size) >>= λ d.
      ok (record s { device = d; data_cache = (nr, bs) ∷ s.data_cache })

  unfoldable pub fsync : BlockStore Device → Outcome (BlockStore Device)
  fsync s = sync s.device >>= λ d. ok (record s { device = d })
