-- ===== src/Tests/Stores.antt =====
-- A store on a device in memory.
use rfs.Prelude.{
  ℕ, ◌+◌, ◌*◌, ◌^◌, ◌%◌, ◌≤◌, ◌≡◌, ◌≢◌, ◌↔◌, refl, false, some, [], ◌∷◌, arith, replicate, take,
  drop, ◌++◌, length-replicate,
}
use rfs.Prelude.Outcome.{ok}
use rfs.Bytes.{Bytes, of_le}
use rfs.Device.Mem.{MemDevice, mem_device, new, write_at}
use rfs.Journal.Frame.{Crc32}
use rfs.Superblock.{
  Superblock, superblock_magic, superblock_version, stamp_checksum, parse, to_bytes,
}
use rfs.Superblock.Parse.{IsSuperblock, stamp-IsSuperblock, parse_iff}
use rfs.Store.{
  BlockStore, BtreeNodeRaw, alloc, free, remove, read_data, write_data, write_node, with_node,
  with_cached_node, fault_in, stamp_node, node_to_bytes, magic_number, write_superblock,
  read_superblock, first_data_block_nr,
}
use rfs.Store.FreeList.{chain_block, chunks_from, persist_chunks, persist_free_list, load_free_list}
use rfs.Store.FreeList.Persist.{load-persist}
use rfs.Store.Alloc.{IsAlloc, count, without, alloc_lem, free_lem}
use rfs.Store.Image.{IsNode, write_node_lem, read-write_superblock}
use rfs.Store.Coherent.{IsCoherent, read_data_lem, write_data_lem}

abbrev sum : Bytes → ℕ
sum [] = 0
sum (b ∷ bs) = b + sum bs

-- A checksum of 32 bits.
abbrev pub sum32 : Crc32
sum32 = record { hash = λ bs. sum bs % 2 ^ 32; hash_lt = λ bs. omega arith }

abbrev mem_store : BlockStore MemDevice
mem_store = record {
  node_cache = [];
  data_cache = [];
  next_block_nr = 67;
  free_list = 66 ∷ [];
  last_chain_blocks = [];
  device = new;
  persistent = false;
}

mem_store-IsAlloc : IsAlloc (65 ∷ []) mem_store
mem_store-IsAlloc = record { once = λ n. ground arith; bound = λ n h. ground arith }

alloc_lem_example :
    (count (65 ∷ []) (alloc mem_store).0 ≡ 0)
    × (first_data_block_nr ≤ (alloc mem_store).0)
    × IsAlloc ((alloc mem_store).0 ∷ 65 ∷ []) (alloc mem_store).1
alloc_lem_example = alloc_lem (65 ∷ []) mem_store mem_store-IsAlloc (omega arith) (omega arith)

free_lem_example :
    IsAlloc (without (65 ∷ []) 65) (free mem_store 65)
    × (alloc (free mem_store 65) ≡ (
      65,
      record mem_store {
        node_cache = remove mem_store.node_cache 65;
        data_cache = remove mem_store.data_cache 65;
      },
    ))
free_lem_example = free_lem (65 ∷ []) mem_store mem_store-IsAlloc 65 (omega arith)

mem_store-IsCoherent : IsCoherent mem_device mem_store
mem_store-IsCoherent nr b h = absurd (ground arith)

abbrev block : Bytes
block = replicate 4096 5

abbrev after_write : BlockStore MemDevice
after_write = record mem_store {
  device = write_at new block (65 * 4096);
  data_cache = (65, block) ∷ [];
}

write_data_lem_example :
    (read_data mem_device after_write 65 ≡ ok (block, after_write))
    × (mem_device.read_at after_write.device 4096 (65 * 4096) ≡ ok block)
    × ((n : ℕ)
        → n ≢ 65
        → mem_device.read_at after_write.device 4096 (n * 4096)
          ≡ mem_device.read_at mem_store.device 4096 (n * 4096))
    × IsCoherent mem_device after_write
unfolding write_data
write_data_lem_example =
    write_data_lem mem_device mem_store after_write 65 block (length-replicate {A = ℕ} 4096 5)
      mem_store-IsCoherent refl

after_write-IsCoherent : IsCoherent mem_device after_write
unfolding write_data
after_write-IsCoherent =
    (write_data_lem mem_device mem_store after_write 65 block (length-replicate {A = ℕ} 4096 5)
      mem_store-IsCoherent refl).3

read_data_lem_example :
    (mem_device.read_at after_write.device 4096 (65 * 4096) ≡ ok block)
    × (after_write.device ≡ after_write.device)
    × IsCoherent mem_device after_write
unfolding read_data
read_data_lem_example =
    read_data_lem mem_device after_write after_write 65 block after_write-IsCoherent refl

abbrev leaf_block : BtreeNodeRaw
leaf_block = record {
  magic = magic_number;
  fields = replicate 20 0;
  checksum = 0;
  rest = replicate 4064 0;
}

leaf_block-IsNode : IsNode leaf_block
leaf_block-IsNode = record {
  magic_lt = omega arith;
  checksum_lt = omega arith;
  fields_size = refl;
  rest_size = length-replicate {A = ℕ} 4064 0;
}

abbrev after_node : BlockStore MemDevice
after_node = record mem_store {
  device = write_at new (node_to_bytes (stamp_node sum32 leaf_block)) (65 * 4096);
  node_cache = (65, record { node = stamp_node sum32 leaf_block; dirty = false }) ∷ [];
}

write_node_lem_example :
    (fault_in sum32 mem_device after_node.device 65 ≡ ok (stamp_node sum32 leaf_block))
    × (with_node sum32 mem_device after_node 65 (λ x. x)
        ≡ ok (stamp_node sum32 leaf_block, after_node))
    × (with_cached_node sum32 mem_device after_node 65 (λ x dirty. dirty) ≡ some false)
unfolding write_node
write_node_lem_example =
    write_node_lem sum32 mem_device mem_store after_node 65 leaf_block leaf_block-IsNode refl refl

abbrev super : Superblock
super = record {
  magic = superblock_magic;
  version = superblock_version;
  root_block = 65;
  next_block_nr = 66;
  next_bset_seq = 1;
  next_ino = 2;
  journal_seq = 0;
  next_snap_id = 4294967294;
  next_subvol_id = 1;
  current_subvol = 1;
  checksum = 0;
  free_head = 0;
  reserved = replicate 4024 0;
}

super-IsSuperblock : IsSuperblock super
super-IsSuperblock = record {
  fit = (
    omega arith,
    (
      omega arith,
      (
        omega arith,
        (
          omega arith,
          (
            omega arith,
            (
              omega arith,
              (
                omega arith,
                (omega arith, (omega arith, (omega arith, (omega arith, (omega arith, tt))))),
              ),
            ),
          ),
        ),
      ),
    ),
  );
  size = length-replicate {A = ℕ} 4024 0;
}

abbrev after_super : BlockStore MemDevice
after_super = record mem_store { device = write_at new (to_bytes (stamp_checksum sum32 super)) 0 }

read-write_superblock_example :
    read_superblock sum32 mem_device after_super ≡ ok (stamp_checksum sum32 super)
unfolding write_superblock
read-write_superblock_example =
    read-write_superblock sum32 mem_device mem_store after_super super super-IsSuperblock refl refl
      refl

abbrev stamped : Superblock
stamped = stamp_checksum sum32 super

parse_iff_example : (parse sum32 (to_bytes stamped) ≡ ok stamped) ↔ (
    (of_le (take 4 (to_bytes stamped)) ≡ 0x52465342)
    × (of_le (take 4 (drop 4 (to_bytes stamped))) ≡ 4)
    × (of_le (take 4 (drop 60 (to_bytes stamped)))
        ≡ sum32.hash (take 60 (to_bytes stamped) ++ (replicate 4 0 ++ drop 64 (to_bytes stamped)))))
parse_iff_example = parse_iff sum32 stamped (stamp-IsSuperblock sum32 super super-IsSuperblock)

abbrev chained : MemDevice
chained = write_at new (chain_block 0 (66 ∷ [])) (67 * 4096)

abbrev after_persist : BlockStore MemDevice
after_persist = record mem_store {
  device = chained;
  data_cache = (67, chain_block 0 (66 ∷ [])) ∷ [];
  next_block_nr = 68;
  last_chain_blocks = 67 ∷ [];
}

persist_run : persist_free_list mem_device mem_store ≡ ok (after_persist, 67)
unfolding persist_free_list persist_chunks write_data chunks_from
persist_run = refl

abbrev reopened : BlockStore MemDevice
reopened = record {
  node_cache = [];
  data_cache = [];
  next_block_nr = 68;
  free_list = [];
  last_chain_blocks = [];
  device = chained;
  persistent = false;
}

reopened-IsCoherent : IsCoherent mem_device reopened
reopened-IsCoherent nr b h = absurd (ground arith)

load-persist_example :
    (t' : BlockStore MemDevice) × (load_free_list mem_device 2 reopened 67 ≡ ok t')
    × ((n : ℕ)
        → count t'.free_list n
          ≡ count after_persist.free_list n + count after_persist.last_chain_blocks n)
unfolding chunks_from
load-persist_example =
    load-persist mem_device mem_store after_persist reopened 67 2 mem_store-IsCoherent (omega arith)
      (omega arith) (omega arith, tt) persist_run reopened-IsCoherent refl (omega arith)
