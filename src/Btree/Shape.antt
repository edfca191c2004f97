-- ===== src/Btree/Shape.antt =====
-- The shape of a tree: at each level the separators of a node bound the keys below its children, and
-- the entries of its leaves in their order.
pub mod Choice
use rfs.Prelude.{
  ℕ, zero, suc, ◌≡◌, refl, ◌∙◌, true, false, Option, none, some, List, [], ◌∷◌, ◌++◌, arith, inl,
  inr, Bool-cases, lt, append-nil, ◌⊎◌,
}
use rfs.Prelude.Outcome.{ok, err, panic}
use rfs.Bytes.{Bytes, compare_bytes}
use rfs.Entry.{DiskEntry, key_bytes, child}
use rfs.Node.{Node, single}
use rfs.Node.Search.{lookup, IsSorted, Above, Above-trans}
use rfs.Node.Merged.{merged, cursors}
use rfs.Node.Merged.Best.{IsOrdered}
use rfs.Node.Merged.Order.{merged_lem}
use rfs.Btree.{NodeStore, with_node}
use rfs.Btree.Read.{below}
use rfs.Btree.Route.{separators, seek}
use rfs.Btree.Bounds.{
  ◌⪯◌, FromLo, OverLo, UnderHi, AllWithin, within_from, within_under, within-append, lookup_under,
  lookup_over, or_else, lookup-append, IsSorted-append,
}

-- The slots of a node, each child with its range.
abbrev pub Branches :
    (Option Bytes → Option Bytes → ℕ → Type 0)
    → Option Bytes
    → Option Bytes
    → List DiskEntry
    → Type 0
Branches P lo hi [] = ⊥
Branches P lo hi (e ∷ []) = P lo hi (child e)
Branches P lo hi (e ∷ f ∷ es) =
    OverLo lo (key_bytes e)
    × UnderHi hi (key_bytes e)
    × P lo (some (key_bytes e)) (child e)
    × Branches P (some (key_bytes e)) hi (f ∷ es)

abbrev pub IsTree : ℕ → NodeStore → Option Bytes → Option Bytes → ℕ → Type 0
IsTree zero s lo hi nr =
    (n : Node) × (with_node s nr ≡ ok n)
    × (n.level ≡ 0)
    × IsOrdered (cursors n.bsets)
    × AllWithin lo hi (merged n)
IsTree (suc l) s lo hi nr =
    (n : Node) × (with_node s nr ≡ ok n)
    × (n.level ≡ suc l)
    × Branches (λ a b c. IsTree l s a b c) lo hi (single n)

abbrev pub gather : (ℕ → List DiskEntry) → List DiskEntry → List DiskEntry
gather f [] = []
gather f (e ∷ es) = f (child e) ++ gather f es

-- The entries of the leaves below a block, from left to right.
unfoldable pub entries_of : ℕ → NodeStore → ℕ → List DiskEntry
entries_of zero s nr = elim (with_node s nr) [ ok n ↦ merged n | err e ↦ [] | panic ↦ [] ]
entries_of (suc l) s nr = elim (with_node s nr) [
  | ok n ↦ gather (λ c. entries_of l s c) (single n)
  | err e ↦ []
  | panic ↦ []
]

pub entries_of-leaf :
    (s : NodeStore) (nr : ℕ) (n : Node) → with_node s nr ≡ ok n → entries_of zero s nr ≡ merged n
unfolding entries_of
entries_of-leaf s nr n r = rw (r, entries_of) refl

pub entries_of-internal :
    (l : ℕ) (s : NodeStore) (nr : ℕ) (n : Node)
    → with_node s nr ≡ ok n
    → entries_of (suc l) s nr ≡ gather (λ c. entries_of l s c) (single n)
unfolding entries_of
entries_of-internal l s nr n r = rw (r, entries_of) refl
