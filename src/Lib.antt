-- ===== src/Lib.antt =====
-- rfs: a file system of copy-on-write B-trees with snapshots, in one image file or in memory.
--
-- The program. A block device (src/device.rs) is shared by two parts: a store of blocks (src/storage.rs)
-- with an allocator and a cache of nodes and of data blocks, and a ring of journal frames
-- (src/journal.rs). The nodes of the tree (src/block_btree.rs) hold up to four bsets, each a sorted run
-- of entries; a write goes to the newest bset, and a read merges them, the newest first. The tree
-- (src/btree.rs) compacts the bsets of a leaf when they are full and logs each write. The file system
-- (src/fs.rs) keeps inodes, directories, extents and snapshots under keys of one tree, and commits the
-- logged writes as a group of journal frames that ends with a closing frame; on open it reads the
-- superblock, scans the ring for complete groups and replays them.
--
-- The files.
--   Prelude, Prelude/*: lists and tests over native numbers; Outcome is a result, an error of
--     btree.rs, or a panic.
--   Bytes, Bytes/*: byte strings with their order, big- and little-endian numbers. Layout: the byte
--     image of a #[repr(C)] struct.
--   Device: the trait BlockDevice, a record of operations and of what its documentation promises.
--     Device/Mem: MemDevice as one. Device/Positions: byte strings by positions.
--   Entry, Entry/*: DiskEntry and EntryKind of block_btree.rs, sortable keys of btree.rs.
--   Node: BtreeNodeRaw as a list of bsets, the oldest first. Node/Search: one bset. Node/Merged:
--     merged_find and MergedIter; Node/Merged/*: against the newest entry of each key.
--   Leaf: what btree.rs does to one leaf. Leaf/View, Leaf/Opening: what a leaf holds. Leaf/Rebuild,
--     Leaf/Write, Leaf/Drop: compaction, the write of insert_leaf, the compactions that drop entries.
--   Visible, Visible/Rows: the rows that a snapshot sees, the loop of range_scan_visible in btree.rs.
--   Journal: Journal of journal.rs. Journal/Frame: JournalFrame and FrameKind of storage.rs.
--     Journal/Ring: the slots. Journal/Scan: scans against the groups of a list of frames.
--   Superblock, Superblock/Parse: Superblock of storage.rs.
--   Store: BlockStore of storage.rs. Store/Alloc: the allocator against a list of blocks in use.
--     Store/Image: nodes and superblocks on the device. Store/Coherent: the cache of data blocks.
--     Store/FreeList: persist_free_list and load_free_list. Store/FreeList/*: the blocks of the chain,
--     the chain on the device, and the load of what was persisted.
--   Btree: the node lane of BlockStore, and the parts of btree.rs that walk more than one node.
--     Btree/Read: find_raw, find, range_scan, range_scan_all, find_visible. Btree/Split, Btree/Insert:
--     insert with its splits, in place and copy-on-write. Btree/Flip: flip_kind_in_place. Btree/Flush:
--     checkpoint_flush, collect_node_blocks_rec. Btree/Sweep: compact_whiteouts_rec,
--     drop_snapshot_keys_rec. Btree/Record: LogRecord. Btree/Handle: Btree. Btree/Tx: Tx and transaction.
--     Btree/Bounds, Btree/Route, Btree/Shape, Btree/Shape/Choice: ranges of keys, the slots of a node, the tree and the
--     entries of its leaves. Btree/Lookup, Btree/Range: lookups and scans against these entries.
--     Btree/Slots, Btree/Slots/*: the slots of a node, and the list of entries around one of them.
--     Btree/Sound: the invariant of a tree under writes. Btree/Promote, Btree/Promote/*: with_halves,
--     promote_to_parent and split_internal_node. Btree/Update, Btree/Update/*: the copy-on-write insert,
--     by Internal and Leaves (what it does without a split), Canonical, Cuts and LeafSplit
--     (split_leaf_node), Halves and Into (insert_half), Whole (the recursion), Held and Writes
--     (transactions, against a map of keys to rows), Flips and FlipTree (flip_kind_in_place).
--     Btree/Fresh, Btree/Cow: what a copy-on-write call leaves alone. Btree/Isolation,
--     Btree/Isolation/Abort: transactions.
--   Fs/Keys, Fs/Values: the keys and values of fs.rs. Fs/Commit: the commit group of
--     Fs::journal_commit, and the decoding of Fs::open. Fs/Commit/*: what recovery finds.
--   Fs/Result: FsError and the results of fs.rs. Fs/Snapshots: ancestor_chain and is_ancestor.
--     Fs/Snapshots/Chain: these walks against each other. Fs/State: Fs, its typed accessors of the tree
--     and the seed of a new one. Fs/Subvolumes: snapshot_subvol, switch_subvol, delete_snapshot and the
--     sweep of unreferenced snapshots. Fs/Subvolumes/Rows, Fs/Subvolumes/Taken: a snapshot, as it is
--     read back. Fs/Names: unlink, rmdir, rename. Fs/Files: extents, read_at,
--     write_at, truncate_extents. Fs/Reclaim: reclaim_deleted_inodes. Fs/Reclaim/Removals,
--     Fs/Reclaim/Budget: its budget.
--     Fs/Gc: what gc does between its syncs. Fs/Gc/Live: the blocks that a tree refers to. Fs/Gc/Marks,
--     Fs/Gc/Sweep: the blocks it marks and frees.
--   Fuse: validate_name and errno_for_fs_error of fuse.rs.
--   Tests/*: runs at concrete inputs.
--
-- State is passed explicitly: an operation that changes a struct returns the new one. Locks are not
-- modelled; an operation of the store is one step. Allocation failure of the host is not modelled.
--
-- Parameters. crc32fast::hash is the field of a record Crc32, some function of bytes into 32 bits; no
-- result rests on its detecting an error. The device under the store and the journal is a BlockDevice.
--
-- Bounds and fuel. The scans of the ring recurse on the rounds that are left before the wraparound
-- bound, which is the source's own bound of JOURNAL_CAPACITY. The merge recurses on the number of
-- stored entries, and each step consumes one at least. The load of the free list has a number of
-- rounds as an argument, and one more than the chain has blocks is enough; the source's loop has no
-- bound. Each descent of the tree has fuel, and one that goes deeper is a panic, as the source's
-- recursion overflows the stack: one more than the level of the root is enough for lookups and scans,
-- and two more for inserts.
-- In the tree's store a node that is cached and one that is read from the device are alike, so that
-- a missing or invalid block is one error, and the closure of a transaction is a list of its calls.
-- The walks over a snapshot's ancestors have a round for each id from
-- the snapshot's to 2^32, which are enough, since a walk ends at a parent that is not above its child.
-- In the file system's state the data blocks are an association list, a panic is kept apart from an
-- error, and the journal is not a part of the state: it is in Fs/Commit.
-- Numbers of bsets and of frames are natural
-- numbers; where a byte image is read back, the fields are required to be in range. The allocator's
-- counter wraps at 2^64. The position of a block on the device is its number times 4096, without a
-- bound, where the product in u64 overflows from the block 2^52 on.
--
-- Not modelled: FileDevice (system calls); of fs.rs the sync with its
-- checkpoint, open and create, statfs and the head of journal_commit; of fuse.rs the handlers and
-- to_attr, which call the file system and answer through a library; main.rs (arguments and the mount
-- loop); debug output and tests.
pub mod Prelude
pub mod Bytes
pub mod Layout
pub mod Device
pub mod Journal
pub mod Entry
pub mod Node
pub mod Leaf
pub mod Superblock
pub mod Fs
pub mod Fuse
pub mod Store
pub mod Tests
pub mod Visible
pub mod Btree
