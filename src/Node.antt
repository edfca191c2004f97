-- ===== src/Node.antt =====
-- block_btree.rs: `BtreeNodeRaw`. The body of a node, in the source a byte area in which each bset
-- is a header and its entries, is a list of bsets here, the oldest first; `nkeys` of a bset's header
-- is the length of its entries, and the bytes behind the last bset are not modelled. Of the bset's
-- flags only the bit `BSET_FLAG_NEEDS_WHITEOUT` is used, and it is a field. The magic number and the
-- checksum of the header belong to the store.
pub mod Search
pub mod Merged
use rfs.Prelude.{
  ℕ, zero, suc, ◌+◌, ◌-◌, ◌*◌, ◌<◌, Bool, true, false, ◌&&◌, ◌||◌, Option, none, some, List, [],
  ◌∷◌, ◌++◌, length, take, drop, replicate, get_elem?, set, compare, Ordering, lt, eq, gt, ltb,
  ◌==◌, if◌then◌else◌,
}
use rfs.Prelude.Outcome.{Outcome, ok, panic, ◌>>=◌, or_panic, assert}
use rfs.Bytes.{Bytes, compare_bytes}
use rfs.Entry.{DiskEntry, empty, key_bytes, child, set_child, set_value, value_bytes}

abbrev pub bset_tree_nr_max : ℕ
bset_tree_nr_max = 4

abbrev pub bset_soft_limit : ℕ
bset_soft_limit = 7

abbrev pub entry_size : ℕ
entry_size = 136

abbrev pub bset_header_size : ℕ
bset_header_size = 16

-- `BLOCK_SIZE - HEADER_SIZE`.
abbrev pub body_size : ℕ
body_size = 4032

-- `(BODY_SIZE - BSET_TREE_NR_MAX * BSET_HEADER_SIZE) / ENTRY_SIZE`.
abbrev pub max_entries : ℕ
max_entries = 29

abbrev pub max_internal_keys : ℕ
max_internal_keys = 27

pub record Bset : Type 0 where
  pub seq : ℕ
  pub needs_whiteout : Bool
  pub entries : List DiskEntry

pub record Node : Type 0 where
  pub level : ℕ
  pub generation : ℕ
  pub bsets : List Bset

-- `BtreeNodeRaw::new`: no bset yet.
abbrev pub new : ℕ → Node
new lvl = record { level = lvl; generation = 0; bsets = [] }

abbrev pub total_of : List Bset → ℕ
total_of [] = 0
total_of (s ∷ ss) = length s.entries + total_of ss

unfoldable pub total_stored : Node → ℕ
total_stored n = total_of n.bsets

-- Leaves count every entry; the last entry of an internal node is the slot of the rightmost child.
unfoldable pub nkeys : Node → ℕ
unfolding total_stored
nkeys n = if ltb 0 n.level && ltb 0 (total_stored n) then total_stored n - 1 else total_stored n

abbrev pub bset_count : Node → ℕ
bset_count n = length n.bsets

-- The byte of the body at which bset `target` begins.
unfoldable pub bset_offset : List Bset → ℕ → ℕ
bset_offset ss zero = 0
bset_offset [] (suc target) = 0
bset_offset (s ∷ ss) (suc target) =
    bset_header_size + length s.entries * entry_size + bset_offset ss target

-- `Result<usize, usize>` of a binary search.
pub data Found : Type 0 where
  at : ℕ → Found
  insert_at : ℕ → Found

abbrev pub shift : Found → Found
shift (at i) = at (suc i)
shift (insert_at i) = insert_at (suc i)

-- `binary_search_by(|e| e.key_bytes().cmp(key))`. On entries in strictly ascending order the
-- binary search of the standard library and this walk have the same result.
unfoldable pub search_entries : List DiskEntry → Bytes → Found
search_entries [] key = insert_at 0
search_entries (e ∷ es) key =
    let rest = search_entries es key in
    elim (compare_bytes (key_bytes e) key) [ lt ↦ shift rest | eq ↦ at 0 | gt ↦ insert_at 0 ]

unfoldable pub bset_search : Node → ℕ → Bytes → Outcome Found
unfolding search_entries
bset_search n i key = or_panic (get_elem? n.bsets i) >>= λ s. ok (search_entries s.entries key)

unfoldable pub entry_at : Node → ℕ → ℕ → Option DiskEntry
entry_at n b i = elim (get_elem? n.bsets b) [ none ↦ none | some s ↦ get_elem? s.entries i ]

-- An edit of the last bset.
unfoldable pub update_last : (Bset → Bset) → List Bset → List Bset
update_last f [] = []
update_last f (s ∷ []) = f s ∷ []
update_last f (s ∷ t ∷ ss) = s ∷ update_last f (t ∷ ss)

abbrev pub last? : List Bset → Option Bset
last? [] = none
last? (s ∷ []) = some s
last? (s ∷ t ∷ ss) = last? (t ∷ ss)

unfoldable pub start_new_bset : Node → ℕ → Outcome Node
start_new_bset n s =
    if ltb (bset_count n) bset_tree_nr_max
    then ok (record n {
      bsets = n.bsets ++ record { seq = s; needs_whiteout = false; entries = [] } ∷ [];
    })
    else panic

abbrev pub has_bset : Node → Bool
has_bset n = ltb 0 (bset_count n)

unfoldable pub append_to_last_bset : Node → DiskEntry → Outcome Node
unfolding total_stored update_last
append_to_last_bset n e =
    if ltb (total_stored n) max_entries && has_bset n
    then ok
        (record n { bsets = update_last (λ s. record s { entries = s.entries ++ e ∷ [] }) n.bsets })
    else panic

-- `entries.copy_within(i.., i + 1); entries[i] = e`.
abbrev pub insert_nth : ℕ → DiskEntry → List DiskEntry → List DiskEntry
insert_nth zero e es = e ∷ es
insert_nth (suc i) e [] = e ∷ []
insert_nth (suc i) e (x ∷ es) = x ∷ insert_nth i e es

abbrev pub place : Found → DiskEntry → List DiskEntry → List DiskEntry
place (at i) e es = set es i e
place (insert_at i) e es = insert_nth i e es

abbrev pub is_at : Found → Bool
is_at (at i) = true
is_at (insert_at i) = false

-- The entry takes the place of one with its key, or a new slot if the node has room. The result
-- says which, as the source's `Result<usize, usize>` does.
unfoldable pub sort_insert_into_last_bset : Node → DiskEntry → Outcome (Node × Found)
unfolding total_stored update_last search_entries
sort_insert_into_last_bset n e = or_panic (last? n.bsets) >>= λ last.
    let r = search_entries last.entries (key_bytes e) in
    if is_at r || ltb (total_stored n) max_entries
    then ok (
      record n { bsets = update_last (λ s. record s { entries = place r e s.entries }) n.bsets },
      r,
    )
    else panic

-- The flag of bset `b`.
unfoldable pub set_bset_needs_whiteout : Node → ℕ → Bool → Node
set_bset_needs_whiteout n b needs = elim (get_elem? n.bsets b) [
  | none ↦ n
  | some s ↦ record n { bsets = set n.bsets b (record s { needs_whiteout = needs }) }
]

-- The entries of bset 0, which is the only one of an internal node.
abbrev pub single : Node → List DiskEntry
single n = elim n.bsets [ [] ↦ [] | s ∷ ss ↦ s.entries ]

abbrev pub set_single : List DiskEntry → List Bset → List Bset
set_single es [] = []
set_single es (s ∷ ss) = record s { entries = es } ∷ ss

-- The search among the separators leaves out the slot of the rightmost child.
unfoldable pub search_internal : Node → Bytes → Found
unfolding search_entries
search_internal n key = search_entries (take (length (single n) - 1) (single n)) key

-- The child to descend into: behind an equal separator, or at the insertion point.
abbrev pub child_index : Found → ℕ
child_index (at i) = i + 1
child_index (insert_at i) = i

unfoldable pub child_block : Node → ℕ → Option ℕ
child_block n i = elim (get_elem? (single n) i) [ none ↦ none | some e ↦ some (child e) ]

unfoldable pub set_child_block : Node → ℕ → ℕ → Node
set_child_block n i nr = elim (get_elem? (single n) i) [
  | none ↦ n
  | some e ↦ record n { bsets = set_single (set (single n) i (set_child e nr)) n.bsets }
]

-- A new count for bset 0: fewer entries are cut off, and further slots of a fresh node are zeros.
unfoldable pub set_nkeys : Node → ℕ → Node
set_nkeys n k =
    let stored : ℕ = if ltb 0 n.level then k + 1 else k in
    record n { bsets = set_single (take stored (single n ++ replicate stored empty)) n.bsets }
