-- ===== src/Btree/Update.antt =====
-- A copy-on-write insert below an internal node.
pub mod Internal
pub mod Leaves
pub mod Canonical
pub mod Cuts
pub mod LeafSplit
pub mod Halves
pub mod Into
pub mod Whole
pub mod Flips
pub mod FlipTree
pub mod Held
pub mod Writes
use rfs.Prelude.{
  ℕ, zero, suc, ◌+◌, ◌-◌, ◌^◌, ◌≤◌, ◌<◌, ◌≡◌, ◌≢◌, refl, ap, ◌∙◌, sym, Bool, true, false, Option,
  none, some, List, [], ◌∷◌, ◌++◌, arith, length, drop, get_elem?, set, ltb, ◌==◌, Bool-cases, inl,
  inr, ◌⊎◌, if◌then◌else◌, append-nil, append_assoc, subst,
}
use rfs.Prelude.Outcome.{Outcome, ok, ◌>>=◌, or_panic}
use rfs.Bytes.{Bytes}
use rfs.Entry.{DiskEntry, key_bytes, child, set_child}
use rfs.Entry.Kind.{EntryKind}
use rfs.Node.{
  Node, Bset, single, set_single, child_block, set_child_block, search_internal, child_index,
}
use rfs.Node.Search.{IsSorted}
use rfs.Btree.{NodeStore, cow, with_node, write_fresh, route}
use rfs.Btree.Split.{Edit, promote_to_parent}
use rfs.Btree.Insert.{Moved, promoted, absorb_split, insert_internal}
use rfs.Btree.Bounds.{FromLo, UnderHi, AllWithin}
use rfs.Btree.Route.{seek, seek_lem, separators}
use rfs.Btree.Lookup.{route_lem}
use rfs.Btree.Shape.{IsTree, gather, entries_of, entries_of-internal}
use rfs.Btree.Shape.Choice.{entries_of-within, separators-IsSorted}
use rfs.Btree.Slots.{
  Fits, child-set_child, key_bytes-set_child, Rows, Rows-Branches, low, high, replaced,
}
use rfs.Btree.Slots.Focus.{
  Focus, focus, place_of, get_elem?-place, set-place, Updated, Updated-between,
}
use rfs.Btree.Fresh.{Taken, Grown}
use rfs.Btree.Isolation.{with_node-kept}
use rfs.Btree.Sound.{Clean, Wrote, write_fresh_lem, Sound, Sound-kept, Sound-IsTree, Sound-Taken}
use rfs.Btree.Promote.{Twin, Rises, same, grew}
use rfs.Btree.Promote.Parent.{Landed, promote_lem}

-- What an insert of `v` under `key` returns for a tree whose entries are `old`.
pub record Inserted (l : ℕ) (lo hi : Option Bytes) (key : Bytes) (v : DiskEntry)
    (old : List DiskEntry) (e : Edit) (r : Moved) : Type 0 where
  pub clean : Clean r.1.store
  pub later : e.next_bset_seq ≤ r.1.next_bset_seq
  pub below : List DiskEntry
  pub rises : Rises l r.1.next_bset_seq r.1.store lo hi r.0 below
  pub updated : Updated key v old below

pub Sound-level :
    (l m : ℕ) (s : NodeStore) (lo hi : Option Bytes) (nr : ℕ)
    → Sound l m s lo hi nr
    → (n : Node) × (with_node s nr ≡ ok n) × (n.level ≡ l)
Sound-level zero m s lo hi nr (n, r, t, h, a) = (n, r, h.leaf)
Sound-level (suc l) m s lo hi nr (n, r, t, v, b) = (n, r, v)

child_block_lem :
    (n : Node) (i : ℕ) (e : DiskEntry)
    → get_elem? (single n) i ≡ some e
    → child_block n i ≡ some (child e)
unfolding child_block
child_block_lem n i e h = rw (h, child_block) refl

-- The split of a child, as its parent reads it.
pub promoted_lem :
    (l m : ℕ) (s : NodeStore) (lo hi : Option Bytes) (nr : ℕ) (w : Twin l m s lo hi nr)
    → promoted s nr ≡ ok (record { median = key_bytes w.x; left = child w.x; right = child w.y })
unfolding promoted
promoted_lem l m s lo hi nr w =
    let at_0 : get_elem? (single w.node) 0 ≡ some w.x = rw (w.slots) refl in
    let at_1 : get_elem? (single w.node) 1 ≡ some w.y = rw (w.slots) refl in
    rw (w.reads)
      (rw (at_0, child_block_lem w.node 0 w.x at_0, child_block_lem w.node 1 w.y at_1) refl)

some_slot :
    (n : Node) (pre post : List DiskEntry) (d : DiskEntry)
    → single n ≡ pre ++ d ∷ post
    → n.bsets ≢ []
some_slot n [] post d h p = let q : single n ≡ [] = rw p refl in let x : ⊥ = cc in x
some_slot n (e ∷ pre) post d h p = let q : single n ≡ [] = rw p refl in let x : ⊥ = cc in x

single-set :
    (n : Node) (es : List DiskEntry)
    → n.bsets ≢ []
    → single (record n { bsets = set_single es n.bsets }) ≡ es
single-set n es h = by n.bsets h
  where
    by : (ss : List Bset) → ss ≢ [] → single (record n { bsets = set_single es ss }) ≡ es
    by [] q = absurd (q refl)
    by (t ∷ ss) q = refl

pub set_child_lem :
    (n : Node) (pre post : List DiskEntry) (d : DiskEntry) (c : ℕ)
    → single n ≡ pre ++ d ∷ post
    → (single (set_child_block n (length pre) c) ≡ pre ++ set_child d c ∷ post)
      × ((set_child_block n (length pre) c).level ≡ n.level)
unfolding set_child_block
set_child_lem n pre post d c h =
    let g : get_elem? (single n) (length pre) ≡ some d = rw h (get_elem?-place pre d post) in
    let placed : set (single n) (length pre) (set_child d c) ≡ pre ++ set_child d c ∷ post =
      rw h (set-place pre d (set_child d c) post) in
    (
      rw (g, set_child_block) (single-set n _ (some_slot n pre post d h) ∙ placed),
      rw (g, set_child_block) refl,
    )
