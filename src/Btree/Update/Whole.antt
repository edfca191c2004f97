-- ===== src/Btree/Update/Whole.antt =====
-- A copy-on-write insert into a tree: it succeeds, and the new tree holds the entry and, for every
-- other key, what the old one holds.
use rfs.Prelude.{
  ℕ, zero, suc, ◌+◌, ◌*◌, ◌^◌, ◌≤◌, ◌<◌, ◌≡◌, refl, ap, ◌∙◌, true, false, Option, arith, ◌==◌,
  Bool-cases, inl, inr, subst,
}
use rfs.Prelude.Outcome.{ok, Ends}
use rfs.Bytes.{Bytes}
use rfs.Entry.{DiskEntry}
use rfs.Entry.Kind.{EntryKind}
use rfs.Entry.Image.{leaf_entry}
use rfs.Node.{Node}
use rfs.Node.Search.{lookup}
use rfs.Node.Merged.{merged}
use rfs.Leaf.{must_split}
use rfs.Btree.{cow, with_node}
use rfs.Btree.Split.{Edit}
use rfs.Btree.Insert.{Moved, insert_leaf, insert_internal, insert}
use rfs.Btree.Shape.{entries_of, entries_of-leaf}
use rfs.Btree.Slots.Focus.{Updated-of_lookup}
use rfs.Btree.Fresh.{Extends}
use rfs.Btree.Cow.{insert-Extends}
use rfs.Btree.Sound.{Clean, Good, Sound}
use rfs.Btree.Promote.{same}
use rfs.Btree.Update.{Inserted}
use rfs.Btree.Update.Leaves.{leaf_fits_lem}
use rfs.Btree.Update.LeafSplit.{leaf_split_lem}
use rfs.Btree.Update.Halves.{laid}
use rfs.Btree.Update.Into.{half_lem}
use rfs.Btree.Update.Internal.{Recurs, internal_lem}

module _ (key : Bytes) (kind : EntryKind) (value : Bytes) where
  abbrev v : DiskEntry
  v = leaf_entry key kind value

  abbrev pub Inserts : ℕ → ℕ → Edit → ℕ → Option Bytes → Option Bytes → Type 0
  Inserts l fuel e nr lo hi =
      (r : Moved) × (insert fuel cow key kind value e nr ≡ ok r)
      × Inserted l lo hi key v (entries_of l e.store nr) e r

  leaf_case :
      (fuel : ℕ) (e : Edit) (nr : ℕ) (lo hi : Option Bytes)
      → Sound zero e.next_bset_seq e.store lo hi nr
      → Good lo hi key
      → Clean e.store
      → e.store.next_block_nr + 4 < 2 ^ 64
      → Inserts zero (suc (suc fuel)) e nr lo hi
  unfolding insert insert_leaf
  leaf_case fuel e nr lo hi (n, reads, taken, h, a) good clean room =
      elim (Bool-cases (must_split n key)) [
        | inr fits ↦
            let (r, done, w) =
              leaf_fits_lem key kind value (suc fuel) e nr lo hi n reads h a good fits clean
                (omega arith) in
            (
              r,
              done,
              record {
                clean = w.clean;
                later = w.later;
                below = entries_of zero r.1.store r.0;
                rises = same w.sound refl;
                updated = w.updated;
              },
            )
        | inl full ↦
            let sp = leaf_split_lem e n key lo hi h a full in
            let (r, done, w) =
              half_lem fuel key kind value e n lo hi sp good room (laid e n lo hi sp clean room) in
            let flat : (n.level == 0) ≡ true = let lv = h.leaf in ground arith in
            (
              r,
              rw reads (rw flat (rw full (rw (sp.done) done))),
              record {
                clean = w.clean;
                later = w.later;
                below = w.below;
                rises = w.rises;
                updated =
                    Updated-of_lookup key v (merged n) (entries_of zero e.store nr) w.below w.below
                      (λ j. ap (λ es. lookup es j) (entries_of-leaf e.store nr n reads)) (λ j. refl)
                      w.updated;
              },
            )
      ]

  insert-internal :
      (fuel : ℕ) (e : Edit) (nr : ℕ) (n : Node)
      → with_node e.store nr ≡ ok n
      → (n.level == 0) ≡ false
      → insert (suc fuel) cow key kind value e nr
        ≡ insert_internal cow key kind value (λ d c. insert fuel cow key kind value d c) e nr
  unfolding insert
  insert-internal fuel e nr n reads deep = rw reads (rw deep refl)

  -- A copy-on-write insert of a key of 4 to 32 bytes, in the range of a sound tree at level l in a
  -- store with a clean allocator, succeeds if its fuel is above the level by two at least and the
  -- counter of blocks does not wrap around within 7 times the fuel: the result is a sound tree at
  -- this level or a node with two such trees one level above it, whose leaves have the new entry for
  -- the key and for every other key what the old tree has.
  pub insert_lem :
      (l fuel : ℕ) (e : Edit) (nr : ℕ) (lo hi : Option Bytes)
      → Sound l e.next_bset_seq e.store lo hi nr
      → Good lo hi key
      → Clean e.store
      → e.store.next_block_nr + 7 * fuel < 2 ^ 64
      → suc (suc l) ≤ fuel
      → Inserts l fuel e nr lo hi
  insert_lem zero zero e nr lo hi s good clean room f = absurd (omega arith)
  insert_lem zero (suc zero) e nr lo hi s good clean room f = absurd (omega arith)
  insert_lem zero (suc (suc fuel)) e nr lo hi s good clean room f =
      leaf_case fuel e nr lo hi s good clean (omega arith)
  insert_lem (suc l) zero e nr lo hi s good clean room f = absurd (omega arith)
  insert_lem (suc l) (suc fuel) e nr lo hi s good clean room f =
      let (n, reads, taken, level, rows) = s in
      let deep : (n.level == 0) ≡ false = ground arith in
      let recur = λ (d : Edit) (c : ℕ). insert fuel cow key kind value d c in
      let recurs : Recurs recur (7 * fuel) l e key v = λ c a b w from under.
        (let (r, done, ins) =
            insert_lem l fuel e c a b w (from, under, good.2) clean (omega arith) (omega arith) in
          let grown =
            subst (λ o. Ends (λ (x : Moved). Extends (7 * fuel) e.store x.1.store) o) done
              (insert-Extends fuel key kind value e c) in
          (r, done, grown (omega arith), ins)) in
      let (r, done, ins) =
        internal_lem key kind value recur v (7 * fuel) l e nr lo hi s good.0 good.1 (omega arith)
          recurs in
      (r, insert-internal fuel e nr n reads deep ∙ done, ins)
