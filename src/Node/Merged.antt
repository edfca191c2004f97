-- ===== src/Node/Merged.antt =====
-- block_btree.rs: `merged_find` and `MergedIter`, the reads that go over all bsets of a node. A
-- cursor is the list of the entries that a bset has left, and the iterator yields the entries
-- themselves, which every caller fetches from the positions that the source yields.
pub mod Find
pub mod Best
pub mod Advance
pub mod Order
use rfs.Prelude.{
  ℕ, zero, suc, ◌+◌, Option, none, some, List, [], ◌∷◌, length, drop, lt, eq, gt, ltb, leb,
  if◌then◌else◌, map,
}
use rfs.Bytes.{Bytes, compare_bytes}
use rfs.Entry.{DiskEntry, key_bytes}
use rfs.Node.{Node, Bset, Found, at, insert_at, search_entries, total_stored, total_of, entry_at}

pub record MergedHit : Type 0 where
  pub bset_idx : ℕ
  pub entry_idx : ℕ
  pub seq : ℕ

-- `Some(h) if h.seq >= seq => {}`: an older or equal hit does not replace the best one.
abbrev pub better : Option MergedHit → MergedHit → Option MergedHit
better none h = some h
better (some b) h = if leb h.seq b.seq then some b else some h

abbrev pub hit : Option MergedHit → ℕ → ℕ → Found → Option MergedHit
hit best b s (at i) = better best (record { bset_idx = b; entry_idx = i; seq = s })
hit best b s (insert_at i) = best

-- The loop of `merged_find` from bset `b` on.
unfoldable pub find_from : ℕ → List Bset → Bytes → Option MergedHit → Option MergedHit
unfolding search_entries
find_from b [] key best = best
find_from b (s ∷ ss) key best =
    find_from (b + 1) ss key (hit best b s.seq (search_entries s.entries key))

unfoldable pub merged_find : Node → Bytes → Option MergedHit
unfolding find_from
merged_find n key = find_from 0 n.bsets key none

-- The entry of a hit.
unfoldable pub resolve : Node → Option MergedHit → Option DiskEntry
unfolding entry_at
resolve n none = none
resolve n (some h) = entry_at n h.bset_idx h.entry_idx

pub record Cursor : Type 0 where
  pub seq : ℕ
  pub rest : List DiskEntry

-- The best key so far, with the number of its bset.
abbrev pub Best : Type 0
Best = Option (ℕ × DiskEntry)

-- A smaller key is better; of equal keys the one of the higher number.
abbrev pub pick : Best → ℕ → DiskEntry → Best
pick none s e = some (s, e)
pick (some (bs, be)) s e = elim (compare_bytes (key_bytes e) (key_bytes be)) [
  | lt ↦ some (s, e)
  | eq ↦ if ltb bs s then some (s, e) else some (bs, be)
  | gt ↦ some (bs, be)
]

abbrev pub consider : Best → ℕ → List DiskEntry → Best
consider best s [] = best
consider best s (e ∷ es) = pick best s e

unfoldable pub best_of : Best → List Cursor → Best
best_of best [] = best
best_of best (c ∷ cs) = best_of (consider best c.seq c.rest) cs

-- Past an entry with the given key.
abbrev pub step_past : Bytes → List DiskEntry → List DiskEntry
step_past key [] = []
step_past key (e ∷ es) = elim (compare_bytes (key_bytes e) key) [ eq ↦ es | _ ↦ e ∷ es ]

unfoldable pub advance : Bytes → List Cursor → List Cursor
advance key [] = []
advance key (c ∷ cs) = record c { rest = step_past key c.rest } ∷ advance key cs

-- `Iterator::next`: the entry, and the cursors after it.
unfoldable pub next : List Cursor → Option (DiskEntry × List Cursor)
unfolding best_of advance
next cs = elim (best_of none cs) [ none ↦ none | some (s, e) ↦ some (e, advance (key_bytes e) cs) ]

-- What `next` yields, until it yields nothing; the fuel is the number of entries.
unfoldable pub collect : ℕ → List Cursor → List DiskEntry
collect zero cs = []
collect (suc fuel) cs = elim (next cs) [ none ↦ [] | some (e, cs') ↦ e ∷ collect fuel cs' ]

abbrev pub cursors : List Bset → List Cursor
cursors [] = []
cursors (s ∷ ss) = record { seq = s.seq; rest = s.entries } ∷ cursors ss

-- `collect_leaf_entries_sorted`: everything that `MergedIter::new` yields.
unfoldable pub merged : Node → List DiskEntry
unfolding collect total_stored next
merged n = collect (total_stored n) (cursors n.bsets)

abbrev pub lower_bound : Found → ℕ
lower_bound (at i) = i
lower_bound (insert_at i) = i

-- `MergedIter::with_lower_bound`.
unfoldable pub cursors_from : List Bset → Bytes → List Cursor
unfolding search_entries
cursors_from [] key = []
cursors_from (s ∷ ss) key =
    record { seq = s.seq; rest = drop (lower_bound (search_entries s.entries key)) s.entries }
    ∷ cursors_from ss key
