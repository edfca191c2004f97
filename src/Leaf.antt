-- ===== src/Leaf.antt =====
-- btree.rs: what the tree does to one leaf: opening bsets, compaction, the two compactions that
-- drop entries, and the write of an entry. `debug_assert!`s are left out.
pub mod View
pub mod Opening
pub mod Rebuild
pub mod Write
pub mod Drop
use rfs.Prelude.{
  ℕ, zero, suc, ◌+◌, ◌-◌, ◌/◌, Bool, true, false, not, ◌&&◌, ◌||◌, Option, none, some, List, [],
  ◌∷◌, length, get_elem?, set, ltb, leb, ◌==◌, if◌then◌else◌,
}
use rfs.Prelude.Outcome.{Outcome, ok, panic, ◌>>=◌, or_panic}
use rfs.Bytes.{Bytes}
use rfs.Entry.{DiskEntry, kind_enum, snap_id, set_kind, build_leaf_entry}
use rfs.Entry.Kind.{EntryKind, is_whiteout}
use rfs.Node.{
  Node, Bset, Found, at, insert_at, is_at, new, bset_count, last?, nkeys, search_entries,
  start_new_bset, append_to_last_bset, sort_insert_into_last_bset, set_bset_needs_whiteout,
  bset_tree_nr_max, bset_soft_limit, max_entries,
}
use rfs.Node.Merged.{merged}

-- The number handed out, and the counter after it.
abbrev pub alloc_seq : ℕ → ℕ × ℕ
alloc_seq next_bset_seq = (next_bset_seq, next_bset_seq + 1)

abbrev pub any : (DiskEntry → Bool) → List DiskEntry → Bool
any p [] = false
any p (e ∷ es) = p e || any p es

unfoldable pub append_all : List DiskEntry → Node → Outcome Node
append_all [] n = ok n
append_all (e ∷ es) n = append_to_last_bset n e >>= λ n'. append_all es n'

abbrev pub whiteout_entry : DiskEntry → Bool
whiteout_entry e = is_whiteout (kind_enum e)

unfoldable pub rebuild_leaf_from_entries : Node → ℕ → List DiskEntry → Outcome Node
unfolding append_all
rebuild_leaf_from_entries n new_seq entries = do
  opened ← start_new_bset (record { level = 0; generation = n.generation; bsets = [] }) new_seq
  filled ← append_all entries opened
  ok (set_bset_needs_whiteout filled 0 (any whiteout_entry entries))

unfoldable pub compact_leaf_in_place : Node → ℕ → Outcome Node
compact_leaf_in_place n new_seq = rebuild_leaf_from_entries n new_seq (merged n)

-- The entries that do not satisfy `p`, and the number of those that do.
abbrev pub keep : (DiskEntry → Bool) → List DiskEntry → List DiskEntry
keep p [] = []
keep p (e ∷ es) = if p e then keep p es else e ∷ keep p es

abbrev pub dropped : (DiskEntry → Bool) → List DiskEntry → ℕ
dropped p [] = 0
dropped p (e ∷ es) = if p e then dropped p es + 1 else dropped p es

-- `HashSet::contains`.
abbrev pub contains : List ℕ → ℕ → Bool
contains [] s = false
contains (x ∷ xs) s = x == s || contains xs s

-- A whiteout at a dead snapshot.
abbrev pub droppable : List ℕ → DiskEntry → Bool
droppable dead_snaps e = is_whiteout (kind_enum e) && contains dead_snaps (snap_id e)

unfoldable pub compact_leaf_dropping_whiteouts : Node → ℕ → List ℕ → Outcome (Node × ℕ)
compact_leaf_dropping_whiteouts n new_seq dead_snaps = do
  n' ← rebuild_leaf_from_entries n new_seq (keep (droppable dead_snaps) (merged n))
  ok (n', dropped (droppable dead_snaps) (merged n))

unfoldable pub any_bset : (Bset → Bool) → List Bset → Bool
any_bset p [] = false
any_bset p (s ∷ ss) = p s || any_bset p ss

-- A flagged bset has a droppable whiteout.
unfoldable pub leaf_has_droppable_whiteout : Node → List ℕ → Bool
unfolding any_bset
leaf_has_droppable_whiteout n dead_snaps =
    any_bset (λ s. s.needs_whiteout && any (droppable dead_snaps) s.entries) n.bsets

abbrev pub at_snap : ℕ → DiskEntry → Bool
at_snap dead_snap e = snap_id e == dead_snap

unfoldable pub leaf_has_snap_entries : Node → ℕ → Bool
unfolding any_bset
leaf_has_snap_entries n dead_snap = any_bset (λ s. any (at_snap dead_snap) s.entries) n.bsets

unfoldable pub compact_leaf_dropping_snap : Node → ℕ → ℕ → Outcome (Node × ℕ)
compact_leaf_dropping_snap n new_seq dead_snap = do
  n' ← rebuild_leaf_from_entries n new_seq (keep (at_snap dead_snap) (merged n))
  ok (n', dropped (at_snap dead_snap) (merged n))

-- The node, and the counter of bset numbers after it.
unfoldable pub ensure_writable_last_bset : Node → ℕ → Outcome (Node × ℕ)
ensure_writable_last_bset leaf next = elim (last? leaf.bsets) [
  | none ↦ (start_new_bset leaf next >>= λ n. ok (n, next + 1))
  | some last ↦
      if ltb (length last.entries) bset_soft_limit
      then ok (leaf, next)
      else if ltb (bset_count leaf) bset_tree_nr_max
      then (start_new_bset leaf next >>= λ n. ok (n, next + 1))
      else (compact_leaf_in_place leaf next >>= λ n. ok (n, next + 1))
]

-- `insert_leaf`: whether the key is in the newest bset, so that the write is an overwrite.
unfoldable pub absorbs : Node → Bytes → Bool
unfolding search_entries
absorbs n key = elim (last? n.bsets) [
  | none ↦ false
  | some s ↦ is_at (search_entries s.entries key)
]

-- The plan of `insert_leaf`: the leaf must be split before it can take the write.
unfoldable pub must_split : Node → Bytes → Bool
unfolding absorbs
must_split n key = not (absorbs n key) && leb max_entries (nkeys n)

abbrev pub mark_whiteout : EntryKind → Node → Node
mark_whiteout EntryKind.whiteout n = set_bset_needs_whiteout n (bset_count n - 1) true
mark_whiteout k n = n

-- The closure `apply` of `insert_leaf`. An overwrite in the newest bset goes by the same
-- `sort_insert_into_last_bset`, whose search finds the key again.
unfoldable pub apply_write : Node → Bytes → EntryKind → Bytes → ℕ → Outcome (Node × ℕ)
unfolding absorbs
apply_write leaf key kind value next = do
  entry ← build_leaf_entry key kind value
  ready ← if absorbs leaf key then ok (leaf, next) else ensure_writable_last_bset leaf next
  written ← sort_insert_into_last_bset ready.0 entry
  ok (mark_whiteout kind written.0, ready.1)
