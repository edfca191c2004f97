-- ===== src/Tests/Trees.antt =====
-- A tree of two leaves below a root: lookups, scans, and transactions on it.
use rfs.Prelude.{Ordering, ◌≡◌, refl, subst, false, true, none, List, [], ◌∷◌, arith}
use rfs.Prelude.Outcome.{Error, ok, err, Ends, ok_inj}
use rfs.Bytes.{Bytes, compare_bytes, to_le, of_le}
use rfs.Entry.{DiskEntry, key_bytes, set_child, child, empty, filled}
use rfs.Entry.Kind.{live}
use rfs.Entry.Image.{leaf_entry}
use rfs.Node.{Node, single}
use rfs.Node.Search.{lookup}
use rfs.Btree.{NodeStore, CachedNode, with_node, cow}
use rfs.Btree.Split.{one_bset}
use rfs.Btree.Read.{find_raw, value_and_kind, scan_entries}
use rfs.Btree.Shape.{IsTree, entries_of}
use rfs.Btree.Lookup.{find_raw_lem}
use rfs.Btree.Range.{between, scan_entries_lem}
use rfs.Btree.Fresh.{Extends}
use rfs.Btree.Insert.{insert}
use rfs.Btree.Cow.{insert-Extends}
use rfs.Btree.Handle.{Btree}
use rfs.Btree.Tx.{Call, write, fail, transaction}
use rfs.Btree.Isolation.{Owned, AllSlots}
use rfs.Btree.Isolation.Abort.{Untouched, transaction-abort, transaction-old_root}
use rfs.Tests.Leaves.{key_a, key_b, key_c, entry_a, entry_b}

abbrev pub cached : Node → CachedNode
cached n = record { node = n; dirty = false }

abbrev pub leaf_low : Node
leaf_low = one_bset 0 0 (entry_a ∷ [])

abbrev pub leaf_high : Node
leaf_high = one_bset 0 0 (entry_b ∷ [])

abbrev pub top : Node
top = one_bset 1 0 (set_child (leaf_entry key_b live []) 65 ∷ set_child empty 66 ∷ [])

abbrev pub two_leaves : NodeStore
two_leaves = record {
  nodes = (67, cached top) ∷ (65, cached leaf_low) ∷ (66, cached leaf_high) ∷ [];
  next_block_nr = 68;
  free_list = [];
}

pub no_lt : Ordering.eq ≡ Ordering.lt → ⊥
no_lt p = cc

two_leaves-IsTree : IsTree 1 two_leaves none none 67
unfolding with_node compare_bytes key_bytes filled child set_child to_le of_le
    rfs.Node.Merged.merged
two_leaves-IsTree = (
  top,
  refl,
  refl,
  (
    tt,
    tt,
    (leaf_low, refl, refl, (tt, (tt, tt), tt), (tt, refl, tt)),
    (leaf_high, refl, refl, (tt, (tt, tt), tt), (λ p. no_lt p, tt, tt)),
  ),
)

find_raw_lem_example :
    find_raw 2 two_leaves 67 key_b ≡ ok (value_and_kind (lookup (entries_of 1 two_leaves 67) key_b))
find_raw_lem_example =
    find_raw_lem 1 2 two_leaves none none 67 key_b two_leaves-IsTree tt tt (omega arith)

scan_entries_lem_example :
    scan_entries 2 two_leaves 67 key_a key_b ≡ ok (between key_a key_b (entries_of 1 two_leaves 67))
scan_entries_lem_example =
    scan_entries_lem key_a key_b 1 2 two_leaves none none 67 two_leaves-IsTree (omega arith)

insert-Extends_example :
    Ends
      (λ r. Extends 21 two_leaves r.1.store)
      (insert 3 cow key_c live (5 ∷ []) (record { store = two_leaves; next_bset_seq = 4 }) 67)
insert-Extends_example =
    insert-Extends 3 key_c live (5 ∷ []) (record { store = two_leaves; next_bset_seq = 4 }) 67

abbrev tree : Btree
tree = record { root_block = 67; store = two_leaves; next_bset_seq = 4; log = []; logging = true }

two_leaves-Owned : Owned 1 two_leaves 67
unfolding with_node child set_child to_le of_le
two_leaves-Owned = ((refl, omega arith), λ n e. slots n (ok_inj top n e))
  where
    slots : (n : Node) → top ≡ n → AllSlots (λ c. Owned 0 two_leaves c) (single n)
    slots n e =
        subst (λ x. AllSlots (λ c. Owned 0 two_leaves c) (single x)) e
          ((refl, omega arith), ((refl, omega arith), tt))

-- A write of a new key, and a failure behind it.
abbrev calls : List Call
calls = write (3 ∷ []) 9 live (5 ∷ []) ∷ fail Error.io ∷ []

calls-fail : (transaction 3 calls tree).1 ≡ err Error.io
unfolding transaction compare_bytes key_bytes set_child filled child of_le to_le
    rfs.Entry.build_leaf_entry rfs.Bytes.to_be rfs.Leaf.ensure_writable_last_bset
    rfs.Node.sort_insert_into_last_bset
calls-fail = refl

transaction-abort_example : Untouched 1 tree (transaction 3 calls tree).0
transaction-abort_example =
    transaction-abort 3 1 calls tree Error.io two_leaves-IsTree two_leaves-Owned (omega arith)
      calls-fail

transaction-old_root_example :
    IsTree 1 (transaction 3 calls tree).0.store none none 67
    × (entries_of 1 (transaction 3 calls tree).0.store 67 ≡ entries_of 1 two_leaves 67)
transaction-old_root_example =
    transaction-old_root 3 1 calls tree two_leaves-IsTree two_leaves-Owned (omega arith)
