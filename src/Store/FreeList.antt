-- ===== src/Store/FreeList.antt =====
-- storage.rs: the free list as a chain of blocks, `persist_free_list` and `load_free_list`.
pub mod Block
pub mod Chain
pub mod Persist
use rfs.Prelude.{
  ℕ, zero, suc, ◌+◌, ◌-◌, ◌*◌, ◌%◌, ◌^◌, List, [], ◌∷◌, ◌++◌, length, take, drop, replicate, min,
  ◌==◌, if◌then◌else◌,
}
use rfs.Prelude.Outcome.{Outcome, ok, panic, ◌>>=◌}
use rfs.Bytes.{Bytes, to_le, of_le}
use rfs.Device.{BlockDevice}
use rfs.Store.{BlockStore, read_data, write_data, block_size}

-- `(BLOCK_SIZE - 16) / 8`.
abbrev pub free_chain_entries : ℕ
free_chain_entries = 510

abbrev pub entries_bytes : List ℕ → Bytes
entries_bytes [] = []
entries_bytes (x ∷ xs) = to_le 8 x ++ entries_bytes xs

-- A block of the chain: the next block, the number of entries, the entries, and zeros.
unfoldable pub chain_block : ℕ → List ℕ → Bytes
chain_block next chunk =
    to_le 8 next
    ++ (to_le 8 (length chunk)
        ++ (entries_bytes chunk ++ replicate (block_size - (16 + 8 * length chunk)) 0))

-- The first `n` entries of the bytes.
abbrev pub read_entries : ℕ → Bytes → List ℕ
read_entries zero bs = []
read_entries (suc n) bs = of_le (take 8 bs) ∷ read_entries n (drop 8 bs)

unfoldable pub next_of : Bytes → ℕ
next_of buf = of_le (take 8 buf)

unfoldable pub entries_of : Bytes → List ℕ
entries_of buf = read_entries (min (of_le (take 8 (drop 8 buf))) free_chain_entries) (drop 16 buf)

-- `list.chunks(FREE_CHAIN_ENTRIES)`, on the length of the list as fuel.
unfoldable pub chunks_from : ℕ → List ℕ → List (List ℕ)
chunks_from zero xs = []
chunks_from (suc fuel) [] = []
chunks_from (suc fuel) (x ∷ xs) =
    take free_chain_entries (x ∷ xs) ∷ chunks_from fuel (drop free_chain_entries (x ∷ xs))

abbrev pub chunks : List ℕ → List (List ℕ)
chunks xs = chunks_from (length xs) xs

module _ (dev : BlockDevice) where
  open dev use {Device}

  -- The loop over the chunks: the store, the head of the chain, and its blocks in the order of
  -- writing.
  unfoldable pub persist_chunks :
      BlockStore Device → ℕ → List ℕ → List (List ℕ) → Outcome (BlockStore Device × ℕ × List ℕ)
  persist_chunks s head chain_blocks [] = ok (s, head, chain_blocks)
  persist_chunks s head chain_blocks (c ∷ cs) =
      let block_nr : ℕ = s.next_block_nr in
      let bumped : BlockStore Device = record s {
        next_block_nr = (s.next_block_nr + 1) % 2 ^ 64;
      } in
      write_data dev bumped block_nr (chain_block head c) >>= λ s1.
      persist_chunks s1 block_nr (chain_blocks ++ block_nr ∷ []) cs

  -- The blocks of the last chain go to the free list first.
  abbrev pub recycled : BlockStore Device → BlockStore Device
  recycled s = record s { free_list = s.free_list ++ s.last_chain_blocks; last_chain_blocks = [] }

  unfoldable pub persist_free_list : BlockStore Device → Outcome (BlockStore Device × ℕ)
  persist_free_list s =
      if length (recycled s).free_list == 0
      then ok (recycled s, 0)
      else (persist_chunks (recycled s) 0 [] (chunks (recycled s).free_list)
          >>= λ (s1, head, chain). ok (record s1 { last_chain_blocks = chain }, head))

  -- The loop of `load_free_list`: the store, the entries, and the blocks of the chain. Without
  -- fuel the chain has not ended.
  unfoldable pub load_from :
      ℕ → BlockStore Device → ℕ → Outcome (BlockStore Device × List ℕ × List ℕ)
  load_from zero s cur = panic
  load_from (suc fuel) s zero = ok (s, [], [])
  load_from (suc fuel) s (suc k) = read_data dev s (suc k) >>= λ (buf, s1).
      load_from fuel s1 (next_of buf) >>= λ (s2, list, chain_blocks).
      ok (s2, entries_of buf ++ list, suc k ∷ chain_blocks)

  -- The blocks of the chain follow the entries.
  unfoldable pub load_free_list : ℕ → BlockStore Device → ℕ → Outcome (BlockStore Device)
  load_free_list fuel s head = load_from fuel s head >>= λ (s1, list, chain_blocks).
      ok (record s1 { free_list = list ++ chain_blocks })
