-- ===== src/Tests/Writes.antt =====
-- Trees that grow by writes: a split of a full leaf, and a transaction on a new tree.
use rfs.Prelude.{ℕ, ◌≤◌, ◌≡◌, refl, none, some, List, [], ◌∷◌, arith, map}
use rfs.Prelude.Outcome.{ok}
use rfs.Bytes.{Bytes, compare_bytes, to_le, of_le}
use rfs.Entry.{set_kind, key_bytes, set_child, child, filled}
use rfs.Entry.Kind.{live, deleted, whiteout}
use rfs.Node.{Node, Bset}
use rfs.Leaf.View.{IsLeaf}
use rfs.Btree.{NodeStore, CachedNode, with_node, cow}
use rfs.Btree.Split.{Edit}
use rfs.Btree.Read.{find_raw}
use rfs.Btree.Sound.{Clean, Sound}
use rfs.Btree.Update.Whole.{Inserts, insert_lem}
use rfs.Btree.Update.Writes.{create_in-Holds, transaction-set_rows}
use rfs.Btree.Update.Held.{Row, Holds, AllShort, call_of, set_rows}
use rfs.Node.Search.{lookup}
use rfs.Btree.Shape.{entries_of}
use rfs.Btree.Flip.{flip_kind_in_place}
use rfs.Btree.Update.FlipTree.{Turned, flip_kind_in_place_lem}
use rfs.Btree.Handle.{Btree, edit, create_in}
use rfs.Btree.Tx.{transaction}
use rfs.Tests.Trees.{leaf_low, leaf_high, top, two_leaves, no_lt}
use rfs.Tests.Leaves.{key_b, entry_b, key_c}

two_leaves-Clean : Clean two_leaves
two_leaves-Clean = record { once = λ nr. omega arith; bound = λ nr h. omega arith }

two_leaves-Sound : Sound 1 4 two_leaves none none 67
unfolding with_node compare_bytes key_bytes filled child set_child to_le of_le
    rfs.Node.Merged.merged
two_leaves-Sound = (
  top,
  refl,
  (refl, omega arith),
  refl,
  (
    (omega arith, omega arith),
    tt,
    tt,
    (leaf_low, refl, (refl, omega arith), low_leaf, ((tt, refl, (omega arith, omega arith)), tt)),
    (
      leaf_high,
      refl,
      (refl, omega arith),
      high_leaf,
      ((λ p. no_lt p, tt, (omega arith, omega arith)), tt),
    ),
  ),
)
  where
    low_leaf : IsLeaf leaf_low 4
    low_leaf = record {
      leaf = refl;
      ordered = (tt, (tt, tt), tt);
      seqs = (omega arith, tt);
      room = omega arith;
      few = omega arith;
    }

    high_leaf : IsLeaf leaf_high 4
    high_leaf = record {
      leaf = refl;
      ordered = (tt, (tt, tt), tt);
      seqs = (omega arith, tt);
      room = omega arith;
      few = omega arith;
    }

abbrev with_two_leaves : Edit
with_two_leaves = record { store = two_leaves; next_bset_seq = 4 }

insert_lem_example : Inserts key_c live (5 ∷ []) 1 3 with_two_leaves 67 none none
insert_lem_example =
    insert_lem key_c live (5 ∷ []) 1 3 with_two_leaves 67 none none two_leaves-Sound
      (tt, tt, (omega arith, omega arith)) two_leaves-Clean (omega arith) (omega arith)

-- Writes of two keys, one of them twice.
abbrev rows : List Row
rows =
    record { key = 1 ∷ []; snap = 9; kind = live; value = 7 ∷ [] }
    ∷ record { key = 2 ∷ []; snap = 9; kind = live; value = [] }
    ∷ record { key = 1 ∷ []; snap = 9; kind = whiteout; value = 8 ∷ [] }
    ∷ []

rows-AllShort : AllShort rows
rows-AllShort =
    ((omega arith, omega arith), ((omega arith, omega arith), ((omega arith, omega arith), tt)))

abbrev bare : NodeStore
bare = record { nodes = []; next_block_nr = 68; free_list = 66 ∷ [] }

bare-Clean : Clean bare
bare-Clean = record { once = λ nr. ground arith; bound = λ nr h. ground arith }

transaction-set_rows_example :
    (t : Btree) × (h : ℕ) × (transaction 4 (map call_of rows) (create_in bare) ≡ (t, ok tt))
    × (h ≤ 3)
    × Holds h (set_rows rows (λ j. none)) (edit t) t.root_block
    × ((j : Bytes) → find_raw 4 t.store t.root_block j ≡ ok (set_rows rows (λ j. none) j))
unfolding create_in rfs.Btree.alloc rfs.Btree.write_node rfs.Btree.Handle.reopen
transaction-set_rows_example =
    transaction-set_rows 4 rows 0 (λ j. none) (create_in bare) rows-AllShort
      (create_in-Holds bare bare-Clean (omega arith)) (omega arith) (omega arith)

holds_b : lookup (entries_of 1 two_leaves 67) key_b ≡ some entry_b
unfolding lookup entries_of with_node child of_le set_child to_le rfs.Node.Merged.merged
    compare_bytes key_bytes filled
holds_b = refl

flip_kind_in_place_lem_example :
    (r : ℕ × NodeStore) × (flip_kind_in_place 2 cow key_b deleted two_leaves 67 ≡ ok r)
    × Turned 1 4 none none key_b (set_kind entry_b deleted) two_leaves 67 r
flip_kind_in_place_lem_example =
    flip_kind_in_place_lem key_b deleted entry_b 1 2 4 two_leaves 67 none none two_leaves-Sound tt
      tt holds_b two_leaves-Clean (omega arith) (omega arith)
