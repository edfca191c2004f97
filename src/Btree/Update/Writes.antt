-- ===== src/Btree/Update/Writes.antt =====
-- A transaction of writes on a tree, against a map of keys to rows.
use rfs.Prelude.{
  ℕ, suc, ◌+◌, ◌*◌, ◌^◌, ◌≤◌, ◌<◌, ◌≡◌, refl, ap, ◌∙◌, none, List, [], ◌∷◌, arith, length, subst,
  map,
}
use rfs.Prelude.Outcome.{ok, Ends}
use rfs.Bytes.{Bytes}
use rfs.Entry.Image.{sortable_key_lem}
use rfs.Node.Search.{lookup}
use rfs.Btree.{NodeStore, cow, write_fresh}
use rfs.Btree.Split.{Edit, one_bset}
use rfs.Btree.Insert.{Moved}
use rfs.Btree.Read.{find_raw, value_and_kind}
use rfs.Btree.Lookup.{find_raw_lem}
use rfs.Btree.Shape.{entries_of-leaf}
use rfs.Btree.Fresh.{Extends}
use rfs.Btree.Cow.{insert-Extends}
use rfs.Btree.Sound.{Clean, write_fresh_lem, Good, Sound-IsTree}
use rfs.Btree.Record.{LogRecord}
use rfs.Btree.Handle.{Btree, push, edit, create_in, reopen}
use rfs.Btree.Tx.{Tx, Call, write, run_call, run_calls, transaction}
use rfs.Btree.Update.Whole.{insert_lem}
use rfs.Btree.Update.Held.{
  Row, call_of, sortable, Short, AllShort, RowMap, set_row, set_rows, Holds, edit-push,
  Holds-Inserted,
}

-- What one call makes of the state of a transaction.
record Wrote (fuel h : ℕ) (m : RowMap) (tx tx' : Tx) : Type 0 where
  pub holds : Holds h m (edit tx'.btree) tx'.pending_root
  pub handed : tx'.btree.store.next_block_nr ≤ tx.btree.store.next_block_nr + 7 * fuel

write_lem :
    (fuel l : ℕ) (w : Row) (m : RowMap) (tx : Tx)
    → Short w
    → Holds l m (edit tx.btree) tx.pending_root
    → tx.btree.store.next_block_nr + 7 * fuel < 2 ^ 64
    → suc (suc l) ≤ fuel
    → (tx' : Tx) × (h : ℕ) × (run_call fuel (call_of w) tx ≡ ok tx')
      × (h ≤ suc l)
      × Wrote fuel h (set_row w m) tx tx'
unfolding run_call rfs.Btree.Tx.insert_with_kind rfs.Btree.Handle.write_at
write_lem fuel l w m tx s o room f =
    let e : Edit = edit tx.btree in
    let sk = sortable_key_lem w.key w.snap s.0 in
    let good : Good none none (sortable w) =
      (tt, tt, (let x = sk.1 in omega arith, let x = sk.1 in let y = s.0 in omega arith)) in
    let (r, done, i) =
      insert_lem (sortable w) w.kind w.value l fuel e tx.pending_root none none o.sound good o.clean
        room f in
    let g =
      subst (λ x. Ends (λ (y : Moved). Extends (7 * fuel) e.store y.1.store) x) done
        (insert-Extends fuel (sortable w) w.kind w.value e tx.pending_root) room in
    let (h, low, holds) = Holds-Inserted l w m e tx.pending_root r s o i in
    let t : Btree = record tx.btree { store = r.1.store; next_bset_seq = r.1.next_bset_seq } in
    let log : LogRecord = record { sortable_key = sortable w; kind = w.kind; value = w.value } in
    let pushed : edit (push log t) ≡ r.1 = edit-push log t in
    (
      record { btree = push log t; pending_root = r.0 },
      h,
      rw (sk.0) (rw done refl),
      low,
      record { holds = rw pushed holds; handed = rw (ap (λ (x : Edit). x.store) pushed) (g.high) },
    )

-- The blocks that writes hand out at most.
abbrev pub spend : ℕ → List Row → ℕ
spend k [] = 0
spend k (w ∷ ws) = k + spend k ws

writes_lem :
    (fuel : ℕ) (ws : List Row) (l : ℕ) (m : RowMap) (tx : Tx)
    → AllShort ws
    → Holds l m (edit tx.btree) tx.pending_root
    → tx.btree.store.next_block_nr + spend (7 * fuel) ws < 2 ^ 64
    → l + length ws < fuel
    → (tx' : Tx) × (h : ℕ) × (run_calls fuel (map call_of ws) tx ≡ (tx', ok tt))
      × (h ≤ l + length ws)
      × Holds h (set_rows ws m) (edit tx'.btree) tx'.pending_root
unfolding run_calls
writes_lem fuel [] l m tx s o room f = (tx, l, refl, omega arith, o)
writes_lem fuel (w ∷ ws) l m tx s o room f =
    let (tx', h, done, low, i) = write_lem fuel l w m tx s.0 o (omega arith) (omega arith) in
    let next = i.handed in
    let (tx'', h', run, low', o') =
      writes_lem fuel ws h (set_row w m) tx' s.1 i.holds (omega arith) (omega arith) in
    (tx'', h', rw done run, omega arith, o')

-- A transaction of writes whose keys and values fit, on a sound tree that holds the rows of a map
-- in a store with a clean allocator, succeeds if its fuel is above the level and the number of
-- writes together and the counter of blocks does not wrap around within the blocks that the writes
-- hand out at most: the tree that it leaves is sound and holds the map with the rows set in turn,
-- its level is higher by the number of writes at most, and a lookup of any key with the same fuel
-- returns what that map has for it.
pub transaction-set_rows :
    (fuel : ℕ) (ws : List Row) (l : ℕ) (m : RowMap) (t : Btree)
    → AllShort ws
    → Holds l m (edit t) t.root_block
    → t.store.next_block_nr + spend (7 * fuel) ws < 2 ^ 64
    → l + length ws < fuel
    → (t' : Btree) × (h : ℕ) × (transaction fuel (map call_of ws) t ≡ (t', ok tt))
      × (h ≤ l + length ws)
      × Holds h (set_rows ws m) (edit t') t'.root_block
      × ((j : Bytes) → find_raw fuel t'.store t'.root_block j ≡ ok (set_rows ws m j))
unfolding transaction rfs.Btree.Tx.finish
transaction-set_rows fuel ws l m t s o room f =
    let start : Tx = record { btree = t; pending_root = t.root_block } in
    let (tx, h, run, low, o') = writes_lem fuel ws l m start s o room f in
    let root = tx.pending_root in
    let store = tx.btree.store in
    (
      record tx.btree { root_block = root },
      h,
      rw run refl,
      low,
      o',
      λ j.
          find_raw_lem h fuel store none none root j
            (Sound-IsTree h tx.btree.next_bset_seq store none none root o'.sound) tt tt
            (omega arith)
          ∙ ap ok (o'.rows j),
    )

-- A new tree on a clean store whose counter of blocks does not wrap around holds no rows.
pub create_in-Holds :
    (s : NodeStore)
    → Clean s
    → s.next_block_nr + 1 < 2 ^ 64
    → Holds 0 (λ j. none) (edit (create_in s)) (create_in s).root_block
unfolding create_in write_fresh reopen rfs.Node.Merged.merged value_and_kind lookup
create_in-Holds s c h =
    let w = write_fresh_lem s (one_bset 0 0 []) c h in
    record {
      sound = (
        one_bset 0 0 [],
        w.reads,
        w.taken,
        record {
          leaf = refl;
          ordered = (tt, tt, tt);
          seqs = (omega arith, tt);
          room = omega arith;
          few = omega arith;
        },
        tt,
      );
      clean = w.clean;
      rows = λ j.
          ap (λ x. value_and_kind (lookup x j)) (entries_of-leaf _ _ (one_bset 0 0 []) w.reads);
    }
