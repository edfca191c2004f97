-- ===== src/Leaf/Drop.antt =====
-- The compactions that drop entries: `compact_leaf_dropping_whiteouts` and
-- `compact_leaf_dropping_snap`.
use rfs.Prelude.{
  ℕ, ◌+◌, ◌≤◌, ◌≡◌, refl, Option, none, some, List, [], ◌∷◌, arith, length, ap, ◌∙◌, Bool,
  if◌then◌else◌, eq,
}
use rfs.Prelude.Outcome.{ok}
use rfs.Bytes.{Bytes, compare_bytes}
use rfs.Bytes.Order.{eq_of_compare}
use rfs.Entry.{DiskEntry, key_bytes}
use rfs.Node.{Node}
use rfs.Node.Search.{Above, IsSorted, lookup, lookup-Above}
use rfs.Node.Merged.{merged}
use rfs.Node.Merged.Order.{merged_lem}
use rfs.Leaf.{
  rebuild_leaf_from_entries, compact_leaf_dropping_whiteouts, compact_leaf_dropping_snap, keep,
  dropped, droppable, at_snap, any, whiteout_entry,
}
use rfs.Leaf.View.{view, IsLeaf}
use rfs.Leaf.Rebuild.{single_bset, single_bset_lem, rebuild_lem, length-merged}

-- Behind an entry with the key there is none.
lookup_past :
    (e : DiskEntry) (es : List DiskEntry) (k : Bytes)
    → Above (key_bytes e) es
    → compare_bytes (key_bytes e) k ≡ eq
    → lookup es k ≡ none
lookup_past e es k a q = rw (eq_of_compare (key_bytes e) k q) at (lookup-Above (key_bytes e) es a)

module _ (p : DiskEntry → Bool) where
  -- An entry that satisfies the test is as none.
  abbrev pub sift : Option DiskEntry → Option DiskEntry
  sift none = none
  sift (some e) = if p e then none else some e

  Above-keep : (k : Bytes) (es : List DiskEntry) → Above k es → Above k (keep p es)
  Above-keep k [] a = tt
  Above-keep k (e ∷ es) a = ground (arith, Above-keep k es a.1)

  IsSorted-keep : (es : List DiskEntry) → IsSorted es → IsSorted (keep p es)
  IsSorted-keep [] s = tt
  IsSorted-keep (e ∷ es) s = ground (arith, Above-keep (key_bytes e) es s.0, IsSorted-keep es s.1)

  lookup-keep :
      (es : List DiskEntry) (k : Bytes) → IsSorted es → lookup (keep p es) k ≡ sift (lookup es k)
  unfolding lookup
  lookup-keep [] k s = refl
  lookup-keep (e ∷ es) k s = ground (arith, lookup-keep es k s.1, lookup_past e es k s.0)

  pub length-keep : (es : List DiskEntry) → length (keep p es) + dropped p es ≡ length es
  length-keep [] = refl
  length-keep (e ∷ es) = ground (arith, length-keep es)

  -- A leaf rebuilt from its merge without the entries that satisfy the test.
  pub record Sifted (n : Node) (m : ℕ) (n' : Node) : Type 0 where
    pub done : rebuild_leaf_from_entries n m (keep p (merged n)) ≡ ok n'
    pub leaf : IsLeaf n' (m + 1)
    pub reads : (k : Bytes) → view n' k ≡ sift (view n k)

  pub sifted_lem : (n : Node) (m : ℕ) → IsLeaf n m → (n' : Node) × Sifted n m n'
  unfolding view
  sifted_lem n m h =
      let y = merged_lem n h.ordered in
      let es = keep p (merged n) in
      let few : length es ≤ 29 = omega (arith, length-keep (merged n), length-merged n, h.room) in
      let s =
        single_bset_lem n.generation m (any whiteout_entry es) es (IsSorted-keep (merged n) y.0)
          few in
      (
        single_bset n.generation m (any whiteout_entry es) es,
        record {
          done = rebuild_lem n m es few;
          leaf = s.0;
          reads = λ k. s.1 k ∙ lookup-keep (merged n) k y.0 ∙ ap sift (y.1 k);
        },
      )

-- Compacting a leaf for dead snapshots succeeds. Afterwards a key whose newest entry is a whiteout
-- at a dead snapshot reads as absent, and every other key reads as before: no older copy of a
-- dropped key comes back.
pub compact_leaf_dropping_whiteouts_lem :
    (n : Node) (m : ℕ) (dead : List ℕ)
    → IsLeaf n m
    → (r : Node × ℕ) × (compact_leaf_dropping_whiteouts n m dead ≡ ok r)
      × IsLeaf r.0 (m + 1)
      × ((k : Bytes) → view r.0 k ≡ sift (droppable dead) (view n k))
unfolding compact_leaf_dropping_whiteouts
compact_leaf_dropping_whiteouts_lem n m dead h =
    let (n', s) = sifted_lem (droppable dead) n m h in
    ((n', dropped (droppable dead) (merged n)), rw s.done, s.leaf, s.reads)

-- The same with every entry that is stored at the dead snapshot.
pub compact_leaf_dropping_snap_lem :
    (n : Node) (m dead : ℕ)
    → IsLeaf n m
    → (r : Node × ℕ) × (compact_leaf_dropping_snap n m dead ≡ ok r)
      × IsLeaf r.0 (m + 1)
      × ((k : Bytes) → view r.0 k ≡ sift (at_snap dead) (view n k))
unfolding compact_leaf_dropping_snap
compact_leaf_dropping_snap_lem n m dead h =
    let (n', s) = sifted_lem (at_snap dead) n m h in
    ((n', dropped (at_snap dead) (merged n)), rw s.done, s.leaf, s.reads)
