-- ===== src/Leaf/Rebuild.antt =====
-- Compaction: a leaf rebuilt from a sorted list of entries, and from the merge of its bsets.
use native.Mathlib.Nat.{le_trans}
use rfs.Prelude.{
  length-append, ℕ, zero, suc, ◌+◌, ◌≤◌, ◌≡◌, refl, Option, none, some, List, [], ◌∷◌, ◌++◌, arith,
  length, ap, ◌∙◌, Bool, true, false, append-nil, append_assoc, ltb,
}
use rfs.Prelude.Outcome.{ok}
use rfs.Bytes.{Bytes}
use rfs.Entry.{DiskEntry}
use rfs.Node.{Node, append_to_last_bset, start_new_bset, set_bset_needs_whiteout, total_of}
use rfs.Node.Search.{IsSorted, lookup}
use rfs.Node.Merged.{merged, collect, next, Cursor, cursors}
use rfs.Node.Merged.Best.{latest}
use rfs.Node.Merged.Order.{merged_lem}
use rfs.Leaf.{append_all, rebuild_leaf_from_entries, compact_leaf_in_place, any, whiteout_entry}
use rfs.Leaf.View.{view, IsLeaf}

-- The leaf with one bset of the given entries.
abbrev pub single_bset : ℕ → ℕ → Bool → List DiskEntry → Node
single_bset gen m flag es = record {
  level = 0;
  generation = gen;
  bsets = record { seq = m; needs_whiteout = flag; entries = es } ∷ [];
}

append_all_lem :
    (gen m : ℕ) (done es : List DiskEntry)
    → length done + length es ≤ 29
    → append_all es (single_bset gen m false done) ≡ ok (single_bset gen m false (done ++ es))
unfolding append_all append_to_last_bset
append_all_lem gen m done [] h = rw append-nil
append_all_lem gen m done (e ∷ es) h =
    let fits : ltb (length done + 0) 29 ≡ true = ground arith in
    rw fits (
      append_all_lem gen m (done ++ e ∷ []) es (omega (arith, length-append done (e ∷ [])))
      ∙ ap (λ l. ok (single_bset gen m false l)) (append_assoc done (e ∷ []) es))

-- At most 29 entries fit, and the flag says whether one of them is a whiteout.
pub rebuild_lem :
    (n : Node) (m : ℕ) (es : List DiskEntry)
    → length es ≤ 29
    → rebuild_leaf_from_entries n m es ≡ ok (single_bset n.generation m (any whiteout_entry es) es)
unfolding rebuild_leaf_from_entries start_new_bset set_bset_needs_whiteout
rebuild_lem n m es h = rw (append_all_lem n.generation m [] es (omega arith))

-- What one sorted bset holds.
pub single_bset_lem :
    (gen m : ℕ) (flag : Bool) (es : List DiskEntry)
    → IsSorted es
    → length es ≤ 29
    → IsLeaf (single_bset gen m flag es) (m + 1)
      × ((k : Bytes) → view (single_bset gen m flag es) k ≡ lookup es k)
unfolding view latest
single_bset_lem gen m flag es s h = (
  record {
    leaf = refl;
    ordered = (tt, s, tt);
    seqs = (omega arith, tt);
    room = omega arith;
    few = omega arith;
  },
  λ k. refl,
)

length-collect : (fuel : ℕ) (cs : List Cursor) → length (collect fuel cs) ≤ fuel
unfolding collect
length-collect zero cs = omega arith
length-collect (suc fuel) cs = by (next cs) refl (λ cs'. length-collect fuel cs')
  where
    by :
        (o : Option (DiskEntry × List Cursor))
        → next cs ≡ o
        → ((cs' : List Cursor) → length (collect fuel cs') ≤ fuel)
        → length (collect (suc fuel) cs) ≤ suc fuel
    by none p ih = rw (p, collect) (omega arith)
    by (some (e, cs')) p ih = rw (p, collect) (omega (arith, ih cs'))

-- The merge has no more entries than the leaf has slots in use.
pub length-merged : (n : Node) → length (merged n) ≤ total_of n.bsets
unfolding merged
length-merged n = length-collect (total_of n.bsets) (cursors n.bsets)

-- Compaction of a leaf succeeds, and gives a leaf of one bset that holds the same.
pub record Compacted (n : Node) (m : ℕ) (n' : Node) : Type 0 where
  pub done : compact_leaf_in_place n m ≡ ok n'
  pub leaf : IsLeaf n' (m + 1)
  pub same : (k : Bytes) → view n' k ≡ view n k
  pub total : total_of n'.bsets ≤ total_of n.bsets

abbrev pub compacted : Node → ℕ → Node
compacted n m = single_bset n.generation m (any whiteout_entry (merged n)) (merged n)

-- Compaction of a leaf succeeds, keeps the leaf's shape with the next number, and changes nothing
-- that the leaf holds.
pub compact_leaf_in_place_lem : (n : Node) (m : ℕ) → IsLeaf n m → Compacted n m (compacted n m)
unfolding compact_leaf_in_place
compact_leaf_in_place_lem n m h =
    let y = merged_lem n h.ordered in
    let few = length-merged n in
    let fits : length (merged n) ≤ 29 = le_trans few h.room in
    let s = single_bset_lem n.generation m (any whiteout_entry (merged n)) (merged n) y.0 fits in
    record {
      done = rebuild_lem n m (merged n) fits;
      leaf = s.0;
      same = λ k. s.1 k ∙ y.1 k ∙ (unfold view in refl);
      total = omega arith;
    }
