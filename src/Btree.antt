-- ===== src/Btree.antt =====
-- btree.rs: the tree over the store's lane of nodes. The lane is an association list from block
-- numbers to nodes, its newest entry first, in which a node that is cached and one that is read from
-- the device and verified are alike: a block without a valid node is `Error.block_not_found`, and
-- I/O errors are left out. Each descent has fuel, and one deeper than the fuel is a panic, as the
-- source's recursion overflows the stack.
pub mod Read
pub mod Route
pub mod Slots
pub mod Sound
pub mod Promote
pub mod Update
pub mod Bounds
pub mod Shape
pub mod Lookup
pub mod Range
pub mod Fresh
pub mod Cow
pub mod Isolation
pub mod Split
pub mod Insert
pub mod Flip
pub mod Flush
pub mod Sweep
pub mod Record
pub mod Handle
pub mod Tx
use rfs.Prelude.{ℕ, ◌+◌, ◌%◌, ◌^◌, Bool, true, false, Option, none, some, List, [], ◌∷◌, ◌++◌, map}
use rfs.Prelude.Outcome.{Outcome, panic, Error, ok, err, ◌>>=◌, or_panic}
use rfs.Bytes.{Bytes}
use rfs.Entry.{DiskEntry, child}
use rfs.Node.{Node, single, search_internal, child_index, child_block}
use rfs.Store.{get, remove, pop}

pub data WriteMode : Type 0 where
  in_place cow : WriteMode

pub record CachedNode : Type 0 where
  pub node : Node
  pub dirty : Bool

pub record NodeStore : Type 0 where
  pub nodes : List (ℕ × CachedNode)
  pub next_block_nr : ℕ
  pub free_list : List ℕ

unfoldable pub alloc : NodeStore → ℕ × NodeStore
alloc s = elim (pop s.free_list) [
  | none ↦ (s.next_block_nr, record s { next_block_nr = (s.next_block_nr + 1) % 2 ^ 64 })
  | some (nr, rest) ↦ (nr, record s { free_list = rest })
]

unfoldable pub free : NodeStore → ℕ → NodeStore
free s nr = record s { nodes = remove s.nodes nr; free_list = s.free_list ++ nr ∷ [] }

-- The node on which the closure of `with_node` runs.
unfoldable pub with_node : NodeStore → ℕ → Outcome Node
with_node s nr = elim (get s.nodes nr) [
  | none ↦ err (Error.block_not_found nr)
  | some c ↦ ok c.node
]

unfoldable pub put : NodeStore → ℕ → Node → Bool → NodeStore
put s nr n d = record s { nodes = (nr, record { node = n; dirty = d }) ∷ s.nodes }

-- `with_node_mut`, once its closure has made `n` of the node.
unfoldable pub edit_node : NodeStore → ℕ → Node → NodeStore
unfolding put
edit_node s nr n = put s nr n true

unfoldable pub write_node : NodeStore → ℕ → Node → NodeStore
unfolding put
write_node s nr n = put s nr n false

-- `clone_to_heap` of a node onto a fresh block.
unfoldable pub write_fresh : NodeStore → Node → ℕ × NodeStore
unfolding alloc write_node
write_fresh s n = let (nr, s') = alloc s in (nr, write_node s' nr n)

-- The slot of an internal node to descend into for a key, and its child.
unfoldable pub route : Node → Bytes → Outcome (ℕ × ℕ)
unfolding search_internal child_block
route n key =
    let i : ℕ = child_index (search_internal n key) in or_panic (child_block n i) >>= λ c. ok (i, c)

-- The children of an internal node, which has one slot at least.
unfoldable pub children : Node → Outcome (List ℕ)
children n = elim (single n) [ [] ↦ panic | e ∷ es ↦ ok (map child (e ∷ es)) ]
