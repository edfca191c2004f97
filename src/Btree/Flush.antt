-- ===== src/Btree/Flush.antt =====
-- btree.rs: `checkpoint_flush`, and the walk `collect_node_blocks_rec`.
use rfs.Prelude.{
  ℕ, zero, suc, ◌+◌, Bool, false, not, ◌||◌, none, some, List, [], ◌∷◌, ◌++◌, ◌==◌, if◌then◌else◌,
}
use rfs.Prelude.Outcome.{Outcome, ok, panic, ◌>>=◌}
use rfs.Node.{Node, set_child_block}
use rfs.Store.{get}
use rfs.Btree.{NodeStore, CachedNode, with_node, write_fresh, children}

-- The subtree's new root, the store, and the blocks to free.
pub record Flushed : Type 0 where
  pub root : ℕ
  pub store : NodeStore
  pub freed : List ℕ

-- The children after their flushes, and whether one moved.
pub record Row : Type 0 where
  pub moved : Bool
  pub blocks : List ℕ
  pub store : NodeStore
  pub freed : List ℕ

unfoldable pub flush_all :
    (NodeStore → List ℕ → ℕ → Outcome Flushed) → NodeStore → List ℕ → List ℕ → Outcome Row
flush_all flush s freed [] = ok (record { moved = false; blocks = []; store = s; freed = freed })
flush_all flush s freed (c ∷ cs) = do
  f ← flush s freed c
  r ← flush_all flush f.store f.freed cs
  ok (record r { moved = not (f.root == c) || r.moved; blocks = f.root ∷ r.blocks })

abbrev pub set_children : Node → ℕ → List ℕ → Node
set_children n i [] = n
set_children n i (c ∷ cs) = set_children (set_child_block n i c) (i + 1) cs

-- A node on a fresh block, its old block to be freed.
unfoldable pub relocate : NodeStore → List ℕ → ℕ → Node → Flushed
unfolding write_fresh
relocate s freed nr n =
    let w : ℕ × NodeStore = write_fresh s n in
    record { root = w.0; store = w.1; freed = freed ++ nr ∷ [] }

abbrev pub kept : NodeStore → List ℕ → ℕ → Flushed
kept s freed nr = record { root = nr; store = s; freed = freed }

-- An internal node behind its children's flushes.
unfoldable pub flush_parent : CachedNode → ℕ → Row → Outcome Flushed
unfolding with_node relocate
flush_parent c nr r =
    if c.dirty || r.moved
    then (with_node r.store nr >>= λ n.
        ok (relocate r.store r.freed nr (set_children n 0 r.blocks)))
    else ok (kept r.store r.freed nr)

-- A block without a node in the lane is left alone.
unfoldable pub checkpoint_flush : ℕ → NodeStore → List ℕ → ℕ → Outcome Flushed
unfolding relocate flush_all flush_parent children
checkpoint_flush zero s freed nr = panic
checkpoint_flush (suc fuel) s freed nr = elim (get s.nodes nr) [
  | none ↦ ok (kept s freed nr)
  | some c ↦
      if c.node.level == 0
      then ok (if c.dirty then relocate s freed nr c.node else kept s freed nr)
      else (children c.node >>= λ cs.
          flush_all (λ t fr b. checkpoint_flush fuel t fr b) s freed cs >>= λ r.
          flush_parent c nr r)
]

unfoldable pub collect_all : (ℕ → Outcome (List ℕ)) → List ℕ → Outcome (List ℕ)
collect_all collect [] = ok []
collect_all collect (c ∷ cs) = do here ← collect c; rest ← collect_all collect cs; ok (here ++ rest)

unfoldable pub collect_node_blocks : ℕ → NodeStore → ℕ → Outcome (List ℕ)
unfolding with_node children collect_all
collect_node_blocks zero s nr = panic
collect_node_blocks (suc fuel) s nr = with_node s nr >>= λ n.
    if n.level == 0
    then ok (nr ∷ [])
    else (children n >>= λ cs.
        collect_all (λ c. collect_node_blocks fuel s c) cs >>= λ bs. ok (nr ∷ bs))
