-- ===== src/Btree/Update/Leaves.antt =====
-- A copy-on-write write into a leaf that need not be split.
use rfs.Prelude.{
  ℕ, zero, suc, ◌+◌, ◌^◌, ◌≤◌, ◌<◌, ◌≡◌, refl, ap, ◌∙◌, sym, true, false, Option, none, some, List,
  [], ◌∷◌, arith, lt, eq, gt, Ordering, ◌==◌, subst,
}
use rfs.Prelude.Outcome.{ok}
use rfs.Bytes.{Bytes, compare_bytes}
use rfs.Bytes.Order.{compare_refl, eq_of_compare}
use rfs.Entry.{DiskEntry, key_bytes}
use rfs.Entry.Kind.{EntryKind}
use rfs.Entry.Image.{leaf_entry}
use rfs.Node.{Node}
use rfs.Node.Search.{IsSorted, lookup, lookup-Above}
use rfs.Node.Merged.{merged}
use rfs.Node.Merged.Order.{merged_lem}
use rfs.Leaf.{must_split}
use rfs.Leaf.View.{IsLeaf, view}
use rfs.Leaf.Write.{Written, apply_write_lem}
use rfs.Btree.{cow, with_node, write_fresh}
use rfs.Btree.Split.{Edit}
use rfs.Btree.Insert.{Moved, land, insert_leaf, insert}
use rfs.Btree.Shape.{entries_of, entries_of-leaf}
use rfs.Btree.Slots.Focus.{Updated, Updated-of_lookup}
use rfs.Btree.Fresh.{Taken, Grown}
use rfs.Btree.Sound.{Clean, write_fresh_lem, Good, AllKeys, Sound}

-- In sorted entries, what holds of every key that is found holds of all.
pub AllKeys-of_lookup :
    (Q : Bytes → Type 0) (es : List DiskEntry)
    → IsSorted es
    → ((j : Bytes) (d : DiskEntry) → lookup es j ≡ some d → Q j)
    → AllKeys Q es
unfolding lookup
AllKeys-of_lookup Q [] s h = tt
AllKeys-of_lookup Q (e ∷ es) s h =
    let found : lookup (e ∷ es) (key_bytes e) ≡ some e =
      rw (compare_refl (key_bytes e), lookup) refl in
    (h (key_bytes e) e found, AllKeys-of_lookup Q es s.1 (λ j d p. h j d (behind j d p)))
  where
    behind : (j : Bytes) (d : DiskEntry) → lookup es j ≡ some d → lookup (e ∷ es) j ≡ some d
    behind j d p = by (compare_bytes (key_bytes e) j) refl
      where
        by : (o : Ordering) → compare_bytes (key_bytes e) j ≡ o → lookup (e ∷ es) j ≡ some d
        by lt q = rw (q, lookup) p
        by gt q = rw (q, lookup) p
        by eq q =
            let same : key_bytes e ≡ j = eq_of_compare (key_bytes e) j q in
            let gone : lookup es j ≡ none =
              subst (λ k. lookup es k ≡ none) same (lookup-Above (key_bytes e) es s.0) in
            let x : ⊥ = cc in absurd x

pub lookup-AllKeys :
    (Q : Bytes → Type 0) (es : List DiskEntry) (j : Bytes) (d : DiskEntry)
    → AllKeys Q es
    → lookup es j ≡ some d
    → Q j
unfolding lookup
lookup-AllKeys Q [] j d a h = let x : ⊥ = cc in absurd x
lookup-AllKeys Q (e ∷ es) j d a h =
    by (compare_bytes (key_bytes e) j) refl (λ p. lookup-AllKeys Q es j d a.1 p)
  where
    by : (o : Ordering) → compare_bytes (key_bytes e) j ≡ o → (lookup es j ≡ some d → Q j) → Q j
    by lt q ih = ih (rw (q, lookup) at h)
    by gt q ih = ih (rw (q, lookup) at h)
    by eq q ih = subst Q (eq_of_compare (key_bytes e) j q) a.0

-- The keys behind a write: those from before, and the one that is written.
pub AllKeys-Updated :
    (Q : Bytes → Type 0) (key : Bytes) (w : DiskEntry) (es ds : List DiskEntry)
    → IsSorted ds
    → Updated key w es ds
    → Q key
    → AllKeys Q es
    → AllKeys Q ds
AllKeys-Updated Q key w es ds s u g a =
    AllKeys-of_lookup Q ds s (λ j d p. by j d (compare_bytes key j) refl (sym (u j) ∙ p))
  where
    by :
        (j : Bytes) (d : DiskEntry) (o : Ordering)
        → compare_bytes key j ≡ o
        → (elim (compare_bytes key j) [ eq ↦ some w | _ ↦ lookup es j ]) ≡ some d
        → Q j
    by j d lt q p = lookup-AllKeys Q es j d a (rw q at p)
    by j d gt q p = lookup-AllKeys Q es j d a (rw q at p)
    by j d eq q p = subst Q (eq_of_compare key j q) g

pub merged-view : (n : Node) (m : ℕ) → IsLeaf n m → (j : Bytes) → lookup (merged n) j ≡ view n j
unfolding view
merged-view n m h j = (merged_lem n h.ordered).1 j

module _ (key : Bytes) (kind : EntryKind) (value : Bytes) where
  abbrev pub v : DiskEntry
  v = leaf_entry key kind value

  -- The entries of the leaf that is written.
  pub Written-entries :
      (n : Node) (m : ℕ) (w : Node × ℕ) (lo hi : Option Bytes)
      → IsLeaf n m
      → Written n m key kind value w
      → Good lo hi key
      → AllKeys (Good lo hi) (merged n)
      → AllKeys (Good lo hi) (merged w.0) × Updated key v (merged n) (merged w.0)
  Written-entries n m w lo hi h wr g a =
      let u : Updated key v (merged n) (merged w.0) =
        λ j. ground (arith, merged-view w.0 w.1 wr.leaf j, wr.reads j, merged-view n m h j) in
      (
        AllKeys-Updated (Good lo hi) key v (merged n) (merged w.0)
            (merged_lem w.0 wr.leaf.ordered).0 u g a,
        u,
      )

  -- A leaf on a fresh block, with the entry.
  pub record LeafWrote (e : Edit) (nr : ℕ) (lo hi : Option Bytes) (r : Moved) : Type 0 where
    pub grown : Grown 1 e.store r.1.store
    pub clean : Clean r.1.store
    pub fresh : Taken e.store r.0 → ⊥
    pub later : e.next_bset_seq ≤ r.1.next_bset_seq
    pub sound : Sound zero r.1.next_bset_seq r.1.store lo hi r.0
    pub updated : Updated key v (entries_of zero e.store nr) (entries_of zero r.1.store r.0)

  pub leaf_fits_lem :
      (fuel : ℕ) (e : Edit) (nr : ℕ) (lo hi : Option Bytes) (n : Node)
      → with_node e.store nr ≡ ok n
      → IsLeaf n e.next_bset_seq
      → AllKeys (Good lo hi) (merged n)
      → Good lo hi key
      → must_split n key ≡ false
      → Clean e.store
      → e.store.next_block_nr + 1 < 2 ^ 64
      → (r : Moved) × (insert (suc fuel) cow key kind value e nr ≡ ok r) × LeafWrote e nr lo hi r
  unfolding insert insert_leaf land
  leaf_fits_lem fuel e nr lo hi n reads h a g fits clean room =
      let (w, wr) = apply_write_lem n e.next_bset_seq key kind value h g.2.0 g.2.1 fits in
      let k = Written-entries n e.next_bset_seq w lo hi h wr g a in
      let z = write_fresh_lem e.store w.0 clean room in
      let flat : (n.level == 0) ≡ true = let lv = h.leaf in ground arith in
      let s' = (write_fresh e.store w.0).1 in
      let nr' = (write_fresh e.store w.0).0 in
      (
        (nr', record { store = s'; next_bset_seq = w.1 }),
        rw reads (rw flat (rw (fits, wr.done) refl)),
        record {
          grown = z.grown;
          clean = z.clean;
          fresh = z.fresh;
          later = wr.later;
          sound = (w.0, z.reads, z.taken, wr.leaf, k.0);
          updated =
              Updated-of_lookup key v (merged n) (entries_of zero e.store nr) (merged w.0)
                (entries_of zero s' nr')
                (λ j. ap (λ es. lookup es j) (entries_of-leaf e.store nr n reads))
                (λ j. ap (λ es. lookup es j) (entries_of-leaf s' nr' w.0 z.reads)) k.1;
        },
      )
