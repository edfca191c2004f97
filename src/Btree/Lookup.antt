-- ===== src/Btree/Lookup.antt =====
-- A lookup from the root against the entries of all leaves.
use rfs.Prelude.{
  ℕ, zero, suc, ◌<◌, ◌≡◌, refl, ◌∙◌, sym, true, false, Option, some, List, [], ◌∷◌, arith, drop,
  get_elem?, ◌==◌,
}
use rfs.Prelude.Outcome.{ok}
use rfs.Bytes.{Bytes}
use rfs.Entry.{DiskEntry, child}
use rfs.Node.{Node, single, search_internal, child_index, child_block}
use rfs.Node.Search.{lookup}
use rfs.Node.Merged.{merged, merged_find, resolve}
use rfs.Node.Merged.Find.{merged_find_lem}
use rfs.Node.Merged.Order.{merged_lem}
use rfs.Btree.{NodeStore, route}
use rfs.Btree.Read.{find_raw, value_and_kind}
use rfs.Btree.Route.{seek, seek_lem, separators}
use rfs.Btree.Bounds.{FromLo, UnderHi}
use rfs.Btree.Shape.{IsTree, entries_of, entries_of-leaf, entries_of-internal}
use rfs.Btree.Shape.Choice.{descent, separators-IsSorted}
use rfs.Node.Search.{IsSorted}

get_elem?-drop :
    (i : ℕ) (es ds : List DiskEntry) (d : DiskEntry) → drop i es ≡ d ∷ ds → get_elem? es i ≡ some d
get_elem?-drop zero [] ds d h = cc
get_elem?-drop zero (e ∷ es) ds d h = cc
get_elem?-drop (suc i) [] ds d h = cc
get_elem?-drop (suc i) (e ∷ es) ds d h = get_elem?-drop i es ds d h

-- The child that `route` descends into.
pub route_lem :
    (n : Node) (k : Bytes) (d : DiskEntry) (ds : List DiskEntry)
    → IsSorted (separators (single n))
    → seek (single n) k ≡ d ∷ ds
    → route n k ≡ ok (child_index (search_internal n k), child d)
unfolding route child_block
route_lem n k d ds s h =
    let i : ℕ = child_index (search_internal n k) in
    rw (get_elem?-drop i (single n) ds d (seek_lem n k s ∙ h), route, child_block) refl

pub level_zero : (n : Node) → n.level ≡ 0 → (n.level == 0) ≡ true
level_zero n h = ground arith

pub level_suc : (n : Node) (l : ℕ) → n.level ≡ suc l → (n.level == 0) ≡ false
level_suc n l h = ground arith

-- In a tree with its root at some level, a lookup of a key in the tree's range with fuel above the
-- level succeeds, and its result is the value and the kind of the entry that the leaves together
-- have for the key, or none.
pub find_raw_lem :
    (l fuel : ℕ) (s : NodeStore) (lo hi : Option Bytes) (nr : ℕ) (k : Bytes)
    → IsTree l s lo hi nr
    → FromLo lo k
    → UnderHi hi k
    → l < fuel
    → find_raw fuel s nr k ≡ ok (value_and_kind (lookup (entries_of l s nr) k))
unfolding find_raw
find_raw_lem l zero s lo hi nr k t f u h = absurd (omega arith)
find_raw_lem zero (suc fuel) s lo hi nr k (n, r, lv, o, w) f u h =
    let same : resolve n (merged_find n k) ≡ lookup (merged n) k =
      merged_find_lem n k o ∙ sym ((merged_lem n o).1 k) in
    rw (entries_of-leaf s nr n r, r, find_raw) (rw (level_zero n lv) (rw same refl))
find_raw_lem (suc l) (suc fuel) s lo hi nr k (n, r, lv, b) f u h =
    let c = descent l s lo hi (single n) k b f u in
    let sorted = separators-IsSorted l s lo hi (single n) b in
    let step = route_lem n k c.slot c.rest sorted c.found in
    let below =
      find_raw_lem l fuel s c.lo_of c.hi_of (child c.slot) k c.holds c.from c.under (omega arith) in
    rw (entries_of-internal l s nr n r, r, find_raw)
      (rw (level_suc n l lv) (rw (step, c.decides) below))
