-- ===== src/Tests/Leaves.antt =====
-- A leaf of two bsets: the searches, the compactions and the writes on it.
use rfs.Prelude.{ℕ, ◌≡◌, refl, true, false, [], ◌∷◌, arith}
use rfs.Prelude.Outcome.{ok}
use rfs.Bytes.{Bytes, compare_bytes}
use rfs.Entry.{DiskEntry, key_bytes}
use rfs.Entry.Kind.{live, whiteout}
use rfs.Entry.Image.{leaf_entry}
use rfs.Node.{Node, Bset, search_entries, insert_at}
use rfs.Node.Merged.{cursors, merged, merged_find, resolve}
use rfs.Node.Merged.Best.{latest, IsOrdered}
use rfs.Node.Merged.Order.{Yields, merged_lem}
use rfs.Node.Merged.Find.{merged_find_lem}
use rfs.Leaf.{
  must_split, compact_leaf_dropping_whiteouts, compact_leaf_dropping_snap, droppable, at_snap,
}
use rfs.Leaf.View.{IsLeaf, view}
use rfs.Leaf.Rebuild.{Compacted, compacted, compact_leaf_in_place_lem}
use rfs.Leaf.Write.{Writable, Written, ensure_writable_lem, apply_write_lem}
use rfs.Leaf.Drop.{sift, compact_leaf_dropping_whiteouts_lem, compact_leaf_dropping_snap_lem}

-- Sortable keys: a byte, and the snapshot 9.
abbrev pub key_a : Bytes
key_a = 1 ∷ 0 ∷ 0 ∷ 0 ∷ 9 ∷ []

abbrev pub key_b : Bytes
key_b = 2 ∷ 0 ∷ 0 ∷ 0 ∷ 9 ∷ []

abbrev pub key_c : Bytes
key_c = 3 ∷ 0 ∷ 0 ∷ 0 ∷ 9 ∷ []

abbrev pub entry_a : DiskEntry
entry_a = leaf_entry key_a live (7 ∷ [])

abbrev pub entry_b : DiskEntry
entry_b = leaf_entry key_b live (8 ∷ [])

abbrev gone_a : DiskEntry
gone_a = leaf_entry key_a whiteout []

abbrev two_bsets : Node
two_bsets = record {
  level = 0;
  generation = 3;
  bsets =
      record { seq = 1; needs_whiteout = false; entries = entry_a ∷ entry_b ∷ [] }
      ∷ record { seq = 2; needs_whiteout = true; entries = gone_a ∷ [] }
      ∷ [];
}

two_bsets-IsOrdered : IsOrdered (cursors two_bsets.bsets)
unfolding compare_bytes key_bytes rfs.Entry.filled
two_bsets-IsOrdered = ((omega arith, tt), ((refl, tt), (tt, tt)), (tt, (tt, tt), tt))

two_bsets-IsLeaf : IsLeaf two_bsets 3
two_bsets-IsLeaf = record {
  leaf = refl;
  ordered = two_bsets-IsOrdered;
  seqs = (omega arith, (omega arith, tt));
  room = omega arith;
  few = omega arith;
}

merged_lem_example : Yields (cursors two_bsets.bsets) (merged two_bsets)
merged_lem_example = merged_lem two_bsets two_bsets-IsOrdered

merged_find_lem_example :
    resolve two_bsets (merged_find two_bsets key_a) ≡ latest (cursors two_bsets.bsets) key_a
merged_find_lem_example = merged_find_lem two_bsets key_a two_bsets-IsOrdered

compact_leaf_in_place_example : Compacted two_bsets 3 (compacted two_bsets 3)
compact_leaf_in_place_example = compact_leaf_in_place_lem two_bsets 3 two_bsets-IsLeaf

compact_leaf_dropping_whiteouts_example :
    (r : Node × ℕ) × (compact_leaf_dropping_whiteouts two_bsets 3 (9 ∷ []) ≡ ok r)
    × IsLeaf r.0 4
    × ((k : Bytes) → view r.0 k ≡ sift (droppable (9 ∷ [])) (view two_bsets k))
compact_leaf_dropping_whiteouts_example =
    compact_leaf_dropping_whiteouts_lem two_bsets 3 (9 ∷ []) two_bsets-IsLeaf

compact_leaf_dropping_snap_example :
    (r : Node × ℕ) × (compact_leaf_dropping_snap two_bsets 3 9 ≡ ok r)
    × IsLeaf r.0 4
    × ((k : Bytes) → view r.0 k ≡ sift (at_snap 9) (view two_bsets k))
compact_leaf_dropping_snap_example = compact_leaf_dropping_snap_lem two_bsets 3 9 two_bsets-IsLeaf

ensure_writable_lem_example : (r : Node × ℕ) × Writable two_bsets 3 r
ensure_writable_lem_example = ensure_writable_lem two_bsets 3 two_bsets-IsLeaf

two_bsets-fits : must_split two_bsets key_c ≡ false
unfolding must_split compare_bytes key_bytes rfs.Entry.filled rfs.Node.nkeys
two_bsets-fits = refl

apply_write_example : (w : Node × ℕ) × Written two_bsets 3 key_c live (5 ∷ []) w
apply_write_example =
    apply_write_lem two_bsets 3 key_c live (5 ∷ []) two_bsets-IsLeaf (omega arith) (omega arith)
      two_bsets-fits
