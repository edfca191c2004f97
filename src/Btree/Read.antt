-- ===== src/Btree/Read.antt =====
-- btree.rs: lookups and range scans, `find_raw`, `find`, `range_scan`, `range_scan_all` and the lookup
-- through a snapshot's chain.
use rfs.Prelude.{
  ℕ, zero, suc, Bool, ◌&&◌, Option, none, some, List, [], ◌∷◌, ◌++◌, length, drop, map, replicate,
  min, leb, ◌==◌, if◌then◌else◌,
}
use rfs.Prelude.Outcome.{Outcome, ok, panic, ◌>>=◌, assert}
use rfs.Bytes.{Bytes, compare_bytes, is_lt}
use rfs.Entry.{
  DiskEntry, key_bytes, logical_key_bytes, snap_id, kind_enum, value_bytes, child,
  max_logical_key_size,
}
use rfs.Entry.Kind.{EntryKind, is_live}
use rfs.Node.{Node, single, search_internal, child_index}
use rfs.Node.Merged.{merged, merged_find, resolve}
use rfs.Leaf.{contains}
use rfs.Visible.{Row, same_key}
use rfs.Btree.{NodeStore, with_node, route}

unfoldable pub value_and_kind : Option DiskEntry → Option (Bytes × EntryKind)
value_and_kind none = none
value_and_kind (some e) = some (value_bytes e, kind_enum e)

unfoldable pub find_raw : ℕ → NodeStore → ℕ → Bytes → Outcome (Option (Bytes × EntryKind))
unfolding with_node route merged_find value_and_kind resolve
find_raw zero s nr key = panic
find_raw (suc fuel) s nr key = with_node s nr >>= λ n.
    if n.level == 0
    then ok (value_and_kind (resolve n (merged_find n key)))
    else (route n key >>= λ r. find_raw fuel s r.1 key)

abbrev pub live_value : Option (Bytes × EntryKind) → Option Bytes
live_value none = none
live_value (some (v, k)) = if is_live k then some v else none

unfoldable pub find : ℕ → NodeStore → ℕ → Bytes → Outcome (Option Bytes)
unfolding find_raw
find fuel s nr key = find_raw fuel s nr key >>= λ r. ok (live_value r)

abbrev pub below : Bytes → Bytes → Bool
below a b = is_lt (compare_bytes a b)

-- The loop over a leaf: smaller keys are skipped, and the first key from `end` on stops it.
unfoldable pub leaf_rows : Bytes → Bytes → List DiskEntry → List DiskEntry
leaf_rows start end [] = []
leaf_rows start end (e ∷ es) =
    let rest : List DiskEntry = leaf_rows start end es in
    if below (key_bytes e) start then rest else if below (key_bytes e) end then e ∷ rest else []

-- The slots from the child on that may hold `start`; each has the child and, but for the last, the
-- separator to its right.
unfoldable pub plan : Node → Bytes → Outcome (List DiskEntry)
unfolding search_internal
plan n start = elim (single n) [
  | [] ↦ panic
  | e ∷ es ↦ ok (drop (min (child_index (search_internal n start)) (length es)) (e ∷ es))
]

-- The loop over a plan, which stops behind a separator that is not below `end`.
unfoldable pub scan_plan :
    (ℕ → Outcome (List DiskEntry)) → Bytes → List DiskEntry → Outcome (List DiskEntry)
scan_plan scan end [] = ok []
scan_plan scan end (e ∷ []) = scan (child e)
scan_plan scan end (e ∷ f ∷ es) = scan (child e) >>= λ rows.
    if below (key_bytes e) end
    then (scan_plan scan end (f ∷ es) >>= λ more. ok (rows ++ more))
    else ok rows

-- The entries that the two range scans walk over, in their order.
unfoldable pub scan_entries : ℕ → NodeStore → ℕ → Bytes → Bytes → Outcome (List DiskEntry)
unfolding with_node leaf_rows plan scan_plan
scan_entries zero s nr start end = panic
scan_entries (suc fuel) s nr start end = with_node s nr >>= λ n.
    if n.level == 0
    then ok (leaf_rows start end (merged n))
    else (plan n start >>= λ p. scan_plan (λ c. scan_entries fuel s c start end) end p)

unfoldable pub row_of : DiskEntry → Row
row_of e = record {
  logical = logical_key_bytes e;
  snap = snap_id e;
  kind = kind_enum e;
  value = value_bytes e;
}

unfoldable pub live_pairs : List DiskEntry → List (Bytes × Bytes)
live_pairs [] = []
live_pairs (e ∷ es) =
    let rest = live_pairs es in
    if is_live (kind_enum e) then (logical_key_bytes e, value_bytes e) ∷ rest else rest

unfoldable pub range_scan : ℕ → NodeStore → ℕ → Bytes → Bytes → Outcome (List (Bytes × Bytes))
unfolding scan_entries live_pairs
range_scan fuel s nr start end = scan_entries fuel s nr start end >>= λ es. ok (live_pairs es)

unfoldable pub range_scan_all : ℕ → NodeStore → ℕ → Bytes → Bytes → Outcome (List Row)
unfolding scan_entries
range_scan_all fuel s nr start end = scan_entries fuel s nr start end >>= λ es. ok (map row_of es)

-- The first row of the key whose snapshot is on the chain; a tombstone there hides what is behind.
unfoldable pub first_visible : Bytes → List ℕ → List Row → Option (Bytes × ℕ)
first_visible logical chain [] = none
first_visible logical chain (r ∷ rows) =
    let rest : Option (Bytes × ℕ) = first_visible logical chain rows in
    if same_key r.logical logical && contains chain r.snap
    then (if is_live r.kind then some (r.value, r.snap) else none)
    else rest

unfoldable pub find_visible_with_snap :
    ℕ → NodeStore → ℕ → Bytes → List ℕ → Outcome (Option (Bytes × ℕ))
unfolding range_scan_all first_visible
find_visible_with_snap fuel s nr logical chain = do
  _ ← assert (leb (length logical) max_logical_key_size)
  rows ←
      range_scan_all fuel s nr (logical ++ replicate 4 0) (logical ++ (replicate 4 255 ++ 0 ∷ []))
  ok (first_visible logical chain rows)

unfoldable pub find_visible : ℕ → NodeStore → ℕ → Bytes → List ℕ → Outcome (Option Bytes)
unfolding find_visible_with_snap
find_visible fuel s nr logical chain = find_visible_with_snap fuel s nr logical chain >>= λ r.
    ok (elim r [ none ↦ none | some (v, snap) ↦ some v ])
