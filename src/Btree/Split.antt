-- ===== src/Btree/Split.antt =====
-- btree.rs: `split_leaf_node`, `split_internal_node` and `promote_to_parent`. The loops that fill a
-- fresh internal node slot by slot are walks over the slots of the old one. `debug_assert!`s are
-- left out.
use rfs.Prelude.{
  ℕ, zero, suc, ◌+◌, ◌-◌, ◌/◌, false, List, [], ◌∷◌, ◌++◌, length, drop, get_elem?, ltb, leb,
  if◌then◌else◌,
}
use rfs.Prelude.Outcome.{Outcome, ok, panic, ◌>>=◌, or_panic}
use rfs.Bytes.{Bytes}
use rfs.Entry.{DiskEntry, empty, key_bytes, child, set_child, set_key}
use rfs.Node.{
  Node, single, set_single, nkeys, set_nkeys, set_child_block, bset_count, max_internal_keys,
}
use rfs.Leaf.{compact_leaf_in_place}
use rfs.Btree.{NodeStore, alloc, write_node, write_fresh}

-- The store and the counter of bset numbers, which every write takes and changes.
pub record Edit : Type 0 where
  pub store : NodeStore
  pub next_bset_seq : ℕ

-- A node with one bset, as `new_node_on_heap` makes it, with its slots filled.
abbrev pub one_bset : ℕ → ℕ → List DiskEntry → Node
one_bset level generation es = record {
  level = level;
  generation = generation;
  bsets = record { seq = 0; needs_whiteout = false; entries = es } ∷ [];
}

-- A slot with a separator, and the last slot, which has a child only.
unfoldable pub slot : Bytes → ℕ → Outcome DiskEntry
slot key c = set_key empty key >>= λ e. ok (set_child e c)

abbrev pub last_slot : ℕ → DiskEntry
last_slot c = set_child empty c

-- Slots copied into a fresh node.
unfoldable pub copy_slots : List DiskEntry → Outcome (List DiskEntry)
unfolding slot
copy_slots [] = ok []
copy_slots (e ∷ []) = ok (last_slot (child e) ∷ [])
copy_slots (e ∷ f ∷ es) = do
  s ← slot (key_bytes e) (child e)
  rest ← copy_slots (f ∷ es)
  ok (s ∷ rest)

-- The slots of a parent in which child `i` has split into `left` and `right`.
unfoldable pub place_split : ℕ → Bytes → ℕ → ℕ → List DiskEntry → Outcome (List DiskEntry)
unfolding slot copy_slots
place_split i median left right [] = panic
place_split zero median left right (e ∷ []) = do s ← slot median left; ok (s ∷ last_slot right ∷ [])
place_split zero median left right (e ∷ f ∷ es) = do
  s ← slot median left
  t ← slot (key_bytes e) right
  rest ← copy_slots (f ∷ es)
  ok (s ∷ t ∷ rest)
place_split (suc i) median left right (e ∷ es) = do
  s ← slot (key_bytes e) (child e)
  rest ← place_split i median left right es
  ok (s ∷ rest)

-- The new parent of two halves, not yet written, with its block and theirs.
pub record Halves : Type 0 where
  pub root : Node
  pub root_nr : ℕ
  pub left : ℕ
  pub right : ℕ
  pub store : NodeStore

-- The two halves on fresh blocks, and a parent with the median as its only separator.
unfoldable pub write_halves : NodeStore → ℕ → ℕ → Bytes → Node → Node → Outcome Halves
unfolding write_fresh alloc
write_halves s level generation median l r =
    let left : ℕ × NodeStore = write_fresh s l in
    let right : ℕ × NodeStore = write_fresh left.1 r in
    let root : ℕ × NodeStore = alloc right.1 in
    set_key empty median >>= λ e. ok (record {
      root = one_bset level generation (e ∷ empty ∷ []);
      root_nr = root.0;
      left = left.0;
      right = right.0;
      store = root.1;
    })

-- `entries.copy_within(mid..n, 0)`.
abbrev pub copy_down : ℕ → List DiskEntry → List DiskEntry
copy_down mid es = drop mid es ++ drop (length es - mid) es

-- The leaf with a single bset, and the counter of bset numbers behind it.
unfoldable pub canonical : Node → ℕ → Outcome (Node × ℕ)
canonical n next =
    if ltb 1 (bset_count n)
    then (compact_leaf_in_place n next >>= λ c. ok (c, next + 1))
    else ok (n, next)

unfoldable pub lower_half : Node → ℕ → Node
lower_half n mid = set_nkeys n mid

unfoldable pub upper_half : Node → ℕ → Node
upper_half n mid =
    set_nkeys (record n { bsets = set_single (copy_down mid (single n)) n.bsets })
      (length (single n) - mid)

unfoldable pub split_leaf_node : Edit → Node → Outcome (Halves × ℕ)
unfolding canonical nkeys lower_half upper_half write_halves
split_leaf_node e node = do
  c ← canonical node e.next_bset_seq
  let mid = nkeys c.0 / 2
  median ← or_panic (get_elem? (single c.0) mid)
  h ←
      write_halves e.store 1 c.0.generation (key_bytes median) (lower_half c.0 mid)
        (upper_half c.0 mid)
  ok (h, c.1)

unfoldable pub split_internal_node : NodeStore → Node → Outcome Halves
unfolding nkeys set_nkeys copy_slots write_halves
split_internal_node s node = do
  let mid = nkeys node / 2
  median ← or_panic (get_elem? (single node) mid)
  upper ← copy_slots (drop (mid + 1) (single node))
  write_halves s (node.level + 1) node.generation (key_bytes median) (set_nkeys node mid)
      (one_bset node.level node.generation upper)

-- The parent of two halves with its children set.
unfoldable pub with_halves : Halves → Node
unfolding set_child_block
with_halves h = set_child_block (set_child_block h.root 0 h.left) 1 h.right

unfoldable pub promote_to_parent : NodeStore → Node → ℕ → Bytes → ℕ → ℕ → Outcome (ℕ × NodeStore)
unfolding alloc place_split nkeys write_node split_internal_node with_halves
promote_to_parent s old_parent child_idx median left right = do
  let (new_block, s1) = alloc s
  es ← place_split child_idx median left right (single old_parent)
  let new_node = one_bset old_parent.level old_parent.generation es
  (if leb (nkeys new_node) max_internal_keys
      then ok (new_block, write_node s1 new_block new_node)
      else (split_internal_node s1 new_node >>= λ h.
          ok (h.root_nr, write_node h.store h.root_nr (with_halves h))))
