-- ===== src/Btree/Insert.antt =====
-- btree.rs: `insert`, `insert_leaf` and `insert_internal`. The two take the recursive call of
-- `insert` as an argument.
use rfs.Prelude.{ℕ, zero, suc, get_elem?, ltb, ◌==◌, if◌then◌else◌}
use rfs.Prelude.Outcome.{Outcome, ok, panic, ◌>>=◌, or_panic}
use rfs.Bytes.{Bytes}
use rfs.Entry.{key_bytes}
use rfs.Entry.Kind.{EntryKind}
use rfs.Node.{Node, single, child_block, set_child_block}
use rfs.Leaf.{must_split, apply_write}
use rfs.Btree.{
  NodeStore, WriteMode, in_place, cow, with_node, edit_node, write_node, write_fresh, route,
}
use rfs.Btree.Split.{Edit, Halves, split_leaf_node, with_halves, promote_to_parent}

-- A block number, and the store and counter behind the call.
abbrev pub Moved : Type 0
Moved = ℕ × Edit

-- How an edited leaf lands: at its own block, dirty, or on a fresh one.
unfoldable pub land : WriteMode → NodeStore → ℕ → Node → ℕ × NodeStore
unfolding edit_node write_fresh
land in_place s nr n = (nr, edit_node s nr n)
land cow s nr n = write_fresh s n

-- The median and the two children of a node that a split made.
pub record Promoted : Type 0 where
  pub median : Bytes
  pub left : ℕ
  pub right : ℕ

unfoldable pub promoted : NodeStore → ℕ → Outcome Promoted
unfolding with_node child_block
promoted s nr = do
  n ← with_node s nr
  e ← or_panic (get_elem? (single n) 0)
  l ← or_panic (child_block n 0)
  r ← or_panic (child_block n 1)
  ok (record { median = key_bytes e; left = l; right = r })

-- The split of a child that grew a level, taken up by its parent.
unfoldable pub absorb_split : Edit → Node → ℕ → ℕ → Outcome Moved
unfolding promoted promote_to_parent
absorb_split e parent child_idx new_child = do
  p ← promoted e.store new_child
  (nr, s) ← promote_to_parent e.store parent child_idx p.median p.left p.right
  ok (nr, record e { store = s })

module _ (mode : WriteMode) (key : Bytes) (kind : EntryKind) (value : Bytes)
    (recur : Edit → ℕ → Outcome Moved) where
  -- The write into the half that holds the key, below a parent that is written last.
  unfoldable pub insert_half : Edit → Halves → Outcome Moved
  unfolding with_halves route with_node absorb_split write_node set_child_block
  insert_half e h = do
    let root = with_halves h
    (child_idx, child_nr) ← route root key
    c ← with_node e.store child_nr
    (new_child, e') ← recur e child_nr
    n ← with_node e'.store new_child
    (if ltb c.level n.level
        then absorb_split e' root child_idx new_child
        else ok (
          h.root_nr,
          record e' {
            store = write_node e'.store h.root_nr (set_child_block root child_idx new_child);
          },
        ))

  unfoldable pub insert_leaf : Edit → ℕ → Outcome Moved
  unfolding with_node must_split apply_write land split_leaf_node insert_half
  insert_leaf e nr = with_node e.store nr >>= λ n.
      if must_split n key
      then (split_leaf_node e n >>= λ h.
          insert_half (record { store = h.0.store; next_bset_seq = h.1 }) h.0)
      else (apply_write n key kind value e.next_bset_seq >>= λ w.
          let landed : ℕ × NodeStore = land mode e.store nr w.0 in
          ok (landed.0, record { store = landed.1; next_bset_seq = w.1 }))

  unfoldable pub insert_internal : Edit → ℕ → Outcome Moved
  unfolding route with_node absorb_split write_fresh set_child_block
  insert_internal e nr = do
    node ← with_node e.store nr
    (child_idx, child_nr) ← route node key
    c ← with_node e.store child_nr
    (new_child, e') ← recur e child_nr
    n ← with_node e'.store new_child
    (if ltb c.level n.level
        then (with_node e'.store nr >>= λ old. absorb_split e' old child_idx new_child)
        else if new_child == child_nr
        then ok (nr, e')
        else (with_node e'.store nr >>= λ old.
            let landed : ℕ × NodeStore =
              write_fresh e'.store (set_child_block old child_idx new_child) in
            ok (landed.0, record e' { store = landed.1 })))

unfoldable pub insert : ℕ → WriteMode → Bytes → EntryKind → Bytes → Edit → ℕ → Outcome Moved
unfolding with_node insert_leaf insert_internal
insert zero mode key kind value e nr = panic
insert (suc fuel) mode key kind value e nr = with_node e.store nr >>= λ n.
    if n.level == 0
    then insert_leaf mode key kind value (λ d c. insert fuel mode key kind value d c) e nr
    else insert_internal mode key kind value (λ d c. insert fuel mode key kind value d c) e nr
