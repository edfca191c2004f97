-- ===== src/Btree/Handle.antt =====
-- btree.rs: `Btree`. A call that fails returns no tree: the fresh blocks that it has written by then
-- are left out. The checkpoint of the source frees the blocks it lists only behind the walk.
use rfs.Prelude.{
  ℕ, ◌-◌, Bool, true, false, Option, none, some, List, [], ◌∷◌, ◌++◌, length, take, drop, replicate,
  leb, ◌==◌, if◌then◌else◌,
}
use rfs.Prelude.Outcome.{Outcome, ok, ◌>>=◌, assert}
use rfs.Bytes.{Bytes, of_be}
use rfs.Entry.{sortable_key, max_logical_key_size, snap_id_bytes}
use rfs.Entry.Kind.{EntryKind, live, deleted, whiteout}
use rfs.Visible.{Row, visible_rows, visible_pairs}
use rfs.Btree.Record.{LogRecord}
use rfs.Btree.{NodeStore, WriteMode, in_place, alloc, free, write_node}
use rfs.Btree.Split.{Edit, one_bset}
use rfs.Btree.Insert.{insert}
use rfs.Btree.Flip.{flip_kind_in_place}
use rfs.Btree.Flush.{checkpoint_flush, collect_node_blocks}
use rfs.Btree.Read as Read

pub record Btree : Type 0 where
  pub root_block : ℕ
  pub store : NodeStore
  pub next_bset_seq : ℕ
  pub log : List LogRecord
  pub logging : Bool

unfoldable pub reopen : NodeStore → ℕ → ℕ → Btree
reopen s root next_bset_seq = record {
  root_block = root;
  store = s;
  next_bset_seq = next_bset_seq;
  log = [];
  logging = true;
}

-- `create_in`: an empty leaf on the first block that the store hands out.
unfoldable pub create_in : NodeStore → Btree
unfolding alloc write_node reopen
create_in s = let a : ℕ × NodeStore = alloc s in reopen (write_node a.1 a.0 (one_bset 0 0 [])) a.0 1

unfoldable pub drain_log : Btree → List LogRecord × Btree
drain_log t = (t.log, record t { log = [] })

-- A write that was made, with its record if the tree logs.
unfoldable pub push : LogRecord → Btree → Btree
push r t = if t.logging then record t { log = t.log ++ r ∷ [] } else t

abbrev pub edit : Btree → Edit
edit t = record { store = t.store; next_bset_seq = t.next_bset_seq }

-- The tree behind a write to the subtree of `root`; the new root is returned with it.
unfoldable pub write_at :
    ℕ → WriteMode → ℕ → Bytes → ℕ → EntryKind → Bytes → Btree → Outcome (ℕ × Btree)
unfolding sortable_key insert push
write_at fuel mode root key snap kind value t = do
  sk ← sortable_key key snap
  (nr, e) ← insert fuel mode sk kind value (edit t) root
  ok (
    nr,
    push (record { sortable_key = sk; kind = kind; value = value })
        (record t { store = e.store; next_bset_seq = e.next_bset_seq }),
  )

-- The tree behind a flip to `deleted`.
unfoldable pub flip_at : ℕ → WriteMode → ℕ → Bytes → ℕ → Btree → Outcome (ℕ × Btree)
unfolding sortable_key flip_kind_in_place push
flip_at fuel mode root key snap t = do
  sk ← sortable_key key snap
  (nr, s) ← flip_kind_in_place fuel mode sk deleted t.store root
  ok (nr, push (record { sortable_key = sk; kind = deleted; value = [] }) (record t { store = s }))

-- What a delete does about the visible entry: its kind is flipped where it lives at the snapshot
-- itself, and hidden behind a whiteout where it is inherited.
unfoldable pub delete_found :
    ℕ → WriteMode → ℕ → Bytes → ℕ → Btree → Option (Bytes × ℕ) → Outcome (Bool × ℕ × Btree)
unfolding write_at flip_at
delete_found fuel mode root key snap t none = ok (false, root, t)
delete_found fuel mode root key snap t (some (v, visible_snap)) =
    if visible_snap == snap
    then (flip_at fuel mode root key snap t >>= λ r. ok (true, r.0, r.1))
    else (write_at fuel mode root key snap whiteout [] t >>= λ r. ok (true, r.0, r.1))

-- A delete below `root`: whether there was a visible entry, the new root, and the tree.
unfoldable pub delete_below :
    ℕ → WriteMode → ℕ → Bytes → ℕ → List ℕ → Btree → Outcome (Bool × ℕ × Btree)
unfolding Read.find_visible_with_snap delete_found
delete_below fuel mode root key snap chain t =
    Read.find_visible_with_snap fuel t.store root key chain >>= λ found.
    delete_found fuel mode root key snap t found

unfoldable pub insert_with_kind : ℕ → Bytes → ℕ → EntryKind → Bytes → Btree → Outcome Btree
unfolding write_at
insert_with_kind fuel key snap kind value t =
    write_at fuel in_place t.root_block key snap kind value t >>= λ r.
    ok (record r.1 { root_block = r.0 })

unfoldable pub insert_at : ℕ → Bytes → ℕ → Bytes → Btree → Outcome Btree
unfolding insert_with_kind
insert_at fuel key snap value t = insert_with_kind fuel key snap live value t

unfoldable pub delete_at : ℕ → Bytes → ℕ → List ℕ → Btree → Outcome (Bool × Btree)
unfolding delete_below
delete_at fuel key snap chain t = delete_below fuel in_place t.root_block key snap chain t >>= λ r.
    ok (r.0, record r.2 { root_block = r.1 })

unfoldable pub find_at : ℕ → Bytes → ℕ → Btree → Outcome (Option Bytes)
unfolding sortable_key Read.find
find_at fuel key snap t = sortable_key key snap >>= λ sk. Read.find fuel t.store t.root_block sk

unfoldable pub find_visible : ℕ → Bytes → List ℕ → Btree → Outcome (Option Bytes)
unfolding Read.find_visible
find_visible fuel logical chain t = Read.find_visible fuel t.store t.root_block logical chain

unfoldable pub find_visible_with_snap : ℕ → Bytes → List ℕ → Btree → Outcome (Option (Bytes × ℕ))
unfolding Read.find_visible_with_snap
find_visible_with_snap fuel logical chain t =
    Read.find_visible_with_snap fuel t.store t.root_block logical chain

unfoldable pub range_scan_all : ℕ → Bytes → Bytes → Btree → Outcome (List Row)
unfolding Read.range_scan_all
range_scan_all fuel start end t = do
  _ ← assert (leb (length start) max_logical_key_size)
  _ ← assert (leb (length end) max_logical_key_size)
  Read.range_scan_all fuel t.store t.root_block (start ++ replicate snap_id_bytes 0)
      (end ++ replicate snap_id_bytes 0)

unfoldable pub range_scan_at : ℕ → Bytes → Bytes → Btree → Outcome (List (Bytes × Bytes))
unfolding Read.range_scan
range_scan_at fuel start end t = do
  _ ← assert (leb (length start) max_logical_key_size)
  _ ← assert (leb (length end) max_logical_key_size)
  Read.range_scan fuel t.store t.root_block (start ++ replicate snap_id_bytes 0)
      (end ++ replicate snap_id_bytes 0)

unfoldable pub range_scan_visible_with_snap :
    ℕ → Bytes → Bytes → List ℕ → Btree → Outcome (List Row)
unfolding range_scan_all visible_rows
range_scan_visible_with_snap fuel start end chain t =
    range_scan_all fuel start end t >>= λ raw. ok (visible_rows chain raw)

unfoldable pub range_scan_visible :
    ℕ → Bytes → Bytes → List ℕ → Btree → Outcome (List (Bytes × Bytes))
unfolding range_scan_all visible_rows
range_scan_visible fuel start end chain t =
    range_scan_all fuel start end t >>= λ raw. ok (visible_pairs chain raw)

abbrev pub free_all : NodeStore → List ℕ → NodeStore
free_all s [] = s
free_all s (nr ∷ nrs) = free_all (free s nr) nrs

unfoldable pub checkpoint : ℕ → Btree → Outcome Btree
unfolding checkpoint_flush free
checkpoint fuel t = checkpoint_flush fuel t.store [] t.root_block >>= λ f.
    ok (record t { root_block = f.root; store = free_all f.store f.freed })

unfoldable pub collect_live_node_blocks : ℕ → Btree → Outcome (List ℕ)
unfolding collect_node_blocks
collect_live_node_blocks fuel t = collect_node_blocks fuel t.store t.root_block

-- The record's key is split into the logical key and the snapshot; a shorter one fails the slice.
unfoldable pub replay_record : ℕ → LogRecord → Btree → Outcome Btree
unfolding insert_with_kind
replay_record fuel r t = do
  _ ← assert (leb snap_id_bytes (length r.sortable_key))
  let n = length r.sortable_key - snap_id_bytes
  t' ←
      insert_with_kind fuel (take n r.sortable_key) (of_be (drop n r.sortable_key)) r.kind r.value
        (record t { logging = false })
  ok (record t' { logging = t.logging })
