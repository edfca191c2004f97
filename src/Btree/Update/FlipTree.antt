-- ===== src/Btree/Update/FlipTree.antt =====
-- A copy-on-write flip below an internal node, and in a whole tree.
use rfs.Prelude.{
  ℕ, zero, suc, ◌+◌, ◌^◌, ◌≤◌, ◌<◌, ◌≡◌, refl, ap, ◌∙◌, sym, Option, some, arith, length, List, ◌∷◌,
  subst,
}
use rfs.Prelude.Outcome.{ok, Ends}
use rfs.Bytes.{Bytes}
use rfs.Entry.{DiskEntry, child, set_kind}
use rfs.Entry.Kind.{EntryKind}
use rfs.Node.{Node, single, set_child_block}
use rfs.Node.Search.{lookup}
use rfs.Node.Merged.{merged}
use rfs.Node.Merged.Order.{merged_lem}
use rfs.Btree.{NodeStore, cow, with_node, write_fresh}
use rfs.Btree.Flip.{flip, flip_kind_in_place}
use rfs.Btree.Route.{seek}
use rfs.Btree.Bounds.{FromLo, UnderHi}
use rfs.Btree.Lookup.{level_zero, level_suc}
use rfs.Btree.Shape.{IsTree, entries_of, entries_of-leaf, entries_of-internal}
use rfs.Btree.Shape.Choice.{descent}
use rfs.Btree.Slots.{Rows, Rows-Branches}
use rfs.Btree.Split.{Edit}
use rfs.Btree.Insert.{Moved}
use rfs.Btree.Slots.Focus.{Updated, Updated-of_lookup}
use rfs.Btree.Fresh.{Extends}
use rfs.Btree.Cow.{flip-Extends}
use rfs.Btree.Isolation.{with_node-kept}
use rfs.Btree.Sound.{Clean, write_fresh_lem, Good, Sound, Sound-IsTree}
use rfs.Btree.Update.Leaves.{AllKeys-Updated, lookup-AllKeys, merged-view}
use rfs.Btree.Update.Internal.{way, around, relinked_fresh}
use rfs.Btree.Update.Flips.{flip_lem}

-- A tree in which the key has the entry `v`.
pub record Turned (l m : ℕ) (lo hi : Option Bytes) (key : Bytes) (v : DiskEntry) (s : NodeStore)
    (nr : ℕ) (r : ℕ × NodeStore) : Type 0 where
  pub clean : Clean r.1
  pub sound : Sound l m r.1 lo hi r.0
  pub updated : Updated key v (entries_of l s nr) (entries_of l r.1 r.0)

module _ (key : Bytes) (kind : EntryKind) (e : DiskEntry) where
  abbrev v : DiskEntry
  v = set_kind e kind

  flip_leaf :
      (fuel m : ℕ) (s : NodeStore) (nr : ℕ) (lo hi : Option Bytes)
      → Sound zero m s lo hi nr
      → lookup (entries_of zero s nr) key ≡ some e
      → Clean s
      → s.next_block_nr + 1 < 2 ^ 64
      → (r : ℕ × NodeStore) × (flip_kind_in_place (suc fuel) cow key kind s nr ≡ ok r)
        × Turned zero m lo hi key v s nr r
  unfolding flip_kind_in_place rfs.Btree.Insert.land
  flip_leaf fuel m s nr lo hi (n, reads, taken, h, a) at_key clean room =
      let held : lookup (merged n) key ≡ some e =
        ap (λ es. lookup es key) (sym (entries_of-leaf s nr n reads)) ∙ at_key in
      let (n', done, w) = flip_lem n m key kind e h (sym (merged-view n m h key) ∙ held) in
      let u : Updated key v (merged n) (merged n') =
        λ j. ground (arith, merged-view n' m w.leaf j, w.reads j, merged-view n m h j) in
      let z = write_fresh_lem s n' clean room in
      (
        write_fresh s n',
        rw reads (rw (level_zero n h.leaf) (rw done refl)),
        record {
          clean = z.clean;
          sound = (
            n',
            z.reads,
            z.taken,
            w.leaf,
            AllKeys-Updated (Good lo hi) key v (merged n) (merged n')
                (merged_lem n' w.leaf.ordered).0 u
                (lookup-AllKeys (Good lo hi) (merged n) key e a held) a,
          );
          updated =
              Updated-of_lookup key v (merged n) (entries_of zero s nr) (merged n')
                (entries_of zero (write_fresh s n').1 (write_fresh s n').0)
                (λ j. ap (λ es. lookup es j) (entries_of-leaf s nr n reads))
                (λ j. ap (λ es. lookup es j) (entries_of-leaf _ _ n' z.reads)) u;
        },
      )

  -- The child that the key leads to has its entry.
  at_child :
      (l m : ℕ) (s : NodeStore) (nr : ℕ) (lo hi : Option Bytes) (n : Node)
      → Rows (λ x y c. Sound l m s x y c) lo hi (single n)
      → FromLo lo key
      → UnderHi hi key
      → with_node s nr ≡ ok n
      → lookup (entries_of (suc l) s nr) key ≡ some e
      → (d : DiskEntry) (ds : List DiskEntry) → seek (single n) key ≡ d ∷ ds
      → lookup (entries_of l s (child d)) key ≡ some e
  at_child l m s nr lo hi n rows from under reads at_key d ds found =
      let b =
        Rows-Branches (λ x y c. Sound l m s x y c) (λ x y c. IsTree l s x y c)
          (λ x y c p. Sound-IsTree l m s x y c p) lo hi (single n) rows in
      let c = descent l s lo hi (single n) key b from under in
      let p : c.slot ∷ c.rest ≡ d ∷ ds = sym c.found ∙ found in
      let same : c.slot ≡ d = cc in
      ap (λ x. lookup (entries_of l s (child x)) key) (sym same)
      ∙ sym c.decides
      ∙ ap (λ es. lookup es key) (sym (entries_of-internal l s nr n reads))
      ∙ at_key

  -- A copy-on-write flip of a key in the range of a sound tree at level l, which holds the key, in a
  -- store with a clean allocator, succeeds if its fuel is above the level and the counter of blocks
  -- does not wrap around within the fuel: the result is a sound tree at the same level that has the
  -- key's entry with the kind, and for every other key what the old tree has.
  pub flip_kind_in_place_lem :
      (l fuel m : ℕ) (s : NodeStore) (nr : ℕ) (lo hi : Option Bytes)
      → Sound l m s lo hi nr
      → FromLo lo key
      → UnderHi hi key
      → lookup (entries_of l s nr) key ≡ some e
      → Clean s
      → s.next_block_nr + fuel < 2 ^ 64
      → suc l ≤ fuel
      → (r : ℕ × NodeStore) × (flip_kind_in_place fuel cow key kind s nr ≡ ok r)
        × Turned l m lo hi key v s nr r
  unfolding flip_kind_in_place rfs.Btree.Flip.patch
  flip_kind_in_place_lem l zero m s nr lo hi w from under at_key clean room f = absurd (omega arith)
  flip_kind_in_place_lem zero (suc fuel) m s nr lo hi w from under at_key clean room f =
      flip_leaf fuel m s nr lo hi w at_key clean (omega arith)
  flip_kind_in_place_lem (suc l) (suc fuel) m s nr lo hi (n, reads, taken, lv, rows) from under
        at_key clean room f =
      let (fo, routed) = way l m s lo hi n key rows from under in
      let c = child fo.slot in
      let below = at_child l m s nr lo hi n rows from under reads at_key fo.slot fo.post fo.found in
      let (r, done, w) =
        flip_kind_in_place_lem l fuel m s c _ _ fo.holds fo.from fo.under below clean (omega arith)
          (omega arith) in
      let grown =
        subst (λ o. Ends (λ (x : ℕ × NodeStore). Extends fuel s x.1) o) done
          (flip-Extends fuel key kind s c) (omega arith) in
      let old : with_node r.1 nr ≡ ok n = with_node-kept fuel s r.1 nr grown taken ∙ reads in
      let e0 : Edit = record { store = s; next_bset_seq = m } in
      let moved : Moved = (r.0, record { store = r.1; next_bset_seq = m }) in
      let z =
        relinked_fresh l e0 key v lo hi nr n reads taken lv rows fo fuel moved grown (omega arith)
          w.clean (omega arith) w.sound in
      (
        write_fresh r.1 (set_child_block n (length fo.pre) r.0),
        rw reads (rw (level_suc n l lv) (rw routed (rw done (rw old refl)))),
        record {
          clean = z.0;
          sound = z.1;
          updated =
              subst (λ es. Updated key v (entries_of (suc l) s nr) es) (sym z.2)
                (around l e0 key v lo hi nr n reads taken lv rows fo (entries_of l r.1 r.0)
                  w.updated);
        },
      )
