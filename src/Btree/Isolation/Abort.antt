-- ===== src/Btree/Isolation/Abort.antt =====
-- `Btree::transaction`: what a closure's calls change, and the end of a transaction that fails.
use rfs.Prelude.{
  ℕ, ◌+◌, ◌*◌, ◌≤◌, ◌<◌, ◌^◌, ◌≡◌, refl, ap, ◌∙◌, sym, Bool, true, false, Option, none, some, List,
  [], ◌∷◌, ◌++◌, arith, length, take-length, append_assoc, append-nil, ◌==◌,
}
use rfs.Prelude.Outcome.{Outcome, Error, ok, err, panic, Ends, Ends-bind, Ends-any, Ends-if}
use rfs.Bytes.{Bytes}
use rfs.Entry.{sortable_key}
use rfs.Entry.Kind.{EntryKind, deleted, whiteout}
use rfs.Btree.{NodeStore, cow}
use rfs.Btree.Shape.{IsTree, entries_of}
use rfs.Btree.Fresh.{Extends, Extends-refl, Extends-trans, Extends-more}
use rfs.Btree.Cow.{insert-Extends, flip-Extends}
use rfs.Btree.Insert.{insert}
use rfs.Btree.Flip.{flip_kind_in_place}
use rfs.Btree.Read as Read
use rfs.Btree.Record.{LogRecord}
use rfs.Btree.Handle.{Btree, push, edit, write_at, flip_at, delete_found, delete_below}
use rfs.Btree.Tx.{
  Tx, Call, write, delete, fail, insert_with_kind, delete_at, go_on, run_call, run_calls, finish,
  transaction,
}
use rfs.Btree.Isolation.{Owned, tree-kept}

-- The tree behind calls of a transaction: fresh blocks, and more records in the log.
pub record Behind (m : ℕ) (t t' : Btree) : Type 0 where
  pub store : Extends m t.store t'.store
  pub tail : List LogRecord
  pub log : t'.log ≡ t.log ++ tail
  pub root : t'.root_block ≡ t.root_block

Behind-refl : (t : Btree) → Behind 0 t t
Behind-refl t = record {
  store = Extends-refl t.store;
  tail = [];
  log = sym (append-nil t.log);
  root = refl;
}

Behind-trans : (m k : ℕ) (t u v : Btree) → Behind m t u → Behind k u v → Behind (m + k) t v
Behind-trans m k t u v a b = record {
  store = Extends-trans m k t.store u.store v.store a.store b.store;
  tail = a.tail ++ b.tail;
  log = b.log ∙ ap (λ x. x ++ b.tail) a.log ∙ append_assoc t.log a.tail b.tail;
  root = b.root ∙ a.root;
}

Behind-more : (m k : ℕ) (t u : Btree) → m ≤ k → Behind m t u → Behind k t u
Behind-more m k t u l a = record {
  store = Extends-more m k t.store u.store l a.store;
  tail = a.tail;
  log = a.log;
  root = a.root;
}

-- A write that was made, with the store that it made.
pushed-Behind :
    (m : ℕ) (t : Btree) (s : NodeStore) (next : ℕ) (r : LogRecord)
    → Extends m t.store s
    → Behind m t (push r (record t { store = s; next_bset_seq = next }))
unfolding push
pushed-Behind m t s next r a = by t.logging refl
  where
    by :
        (b : Bool)
        → t.logging ≡ b
        → Behind m t (push r (record t { store = s; next_bset_seq = next }))
    by true p = rw (p, push) (record { store = a; tail = r ∷ []; log = refl; root = refl })
    by false p =
        rw (p, push) (record { store = a; tail = []; log = sym (append-nil t.log); root = refl })

module _ (fuel root : ℕ) (key : Bytes) (snap : ℕ) (t : Btree) where
  write_at-Behind :
      (kind : EntryKind) (value : Bytes)
      → Ends
          (λ (r : ℕ × Btree). Behind (7 * fuel) t r.1)
          (write_at fuel cow root key snap kind value t)
  unfolding write_at
  write_at-Behind kind value =
      let P = λ (r : ℕ × Btree). Behind (7 * fuel) t r.1 in
      Ends-any P (sortable_key key snap) _ λ sk.
        Ends-bind (λ r. Extends (7 * fuel) t.store r.1.store) P
          (insert fuel cow sk kind value (edit t) root) _
          (insert-Extends fuel sk kind value (edit t) root)
          λ r w. pushed-Behind (7 * fuel) t r.1.store r.1.next_bset_seq _ w

  flip_at-Behind :
      Ends (λ (r : ℕ × Btree). Behind (7 * fuel) t r.1) (flip_at fuel cow root key snap t)
  unfolding flip_at
  flip_at-Behind =
      let P = λ (r : ℕ × Btree). Behind (7 * fuel) t r.1 in
      Ends-any P (sortable_key key snap) _ λ sk.
        Ends-bind (λ (r : ℕ × NodeStore). Extends fuel t.store r.1) P
          (flip_kind_in_place fuel cow sk deleted t.store root) _
          (flip-Extends fuel sk deleted t.store root)
          λ r w.
            Behind-more fuel (7 * fuel) t _ (omega arith)
              (pushed-Behind fuel t r.1 t.next_bset_seq _ w)

  delete_found-Behind :
      (o : Option (Bytes × ℕ))
      → Ends
          (λ (r : Bool × ℕ × Btree). Behind (7 * fuel) t r.2)
          (delete_found fuel cow root key snap t o)
  unfolding delete_found
  delete_found-Behind none = Behind-more 0 (7 * fuel) t t (omega arith) (Behind-refl t)
  delete_found-Behind (some (v, visible_snap)) =
      let P = λ (r : Bool × ℕ × Btree). Behind (7 * fuel) t r.2 in
      let Q = λ (r : ℕ × Btree). Behind (7 * fuel) t r.1 in
      Ends-if P (visible_snap == snap) _ _
        (Ends-bind Q P (flip_at fuel cow root key snap t) _ flip_at-Behind λ r w. w)
        (Ends-bind Q P (write_at fuel cow root key snap whiteout [] t) _
          (write_at-Behind whiteout []) λ r w. w)

  delete_below-Behind :
      (chain : List ℕ)
      → Ends
          (λ (r : Bool × ℕ × Btree). Behind (7 * fuel) t r.2)
          (delete_below fuel cow root key snap chain t)
  unfolding delete_below
  delete_below-Behind chain =
      Ends-any (λ (r : Bool × ℕ × Btree). Behind (7 * fuel) t r.2)
        (Read.find_visible_with_snap fuel t.store root key chain) _
        λ found. delete_found-Behind found

run_call-Behind :
    (fuel : ℕ) (c : Call) (tx : Tx)
    → Ends (λ tx'. Behind (7 * fuel) tx.btree tx'.btree) (run_call fuel c tx)
unfolding run_call insert_with_kind delete_at
run_call-Behind fuel (write key snap kind value) tx =
    Ends-bind (λ (r : ℕ × Btree). Behind (7 * fuel) tx.btree r.1)
      (λ tx'. Behind (7 * fuel) tx.btree tx'.btree)
      (write_at fuel cow tx.pending_root key snap kind value tx.btree) _
      (write_at-Behind fuel tx.pending_root key snap tx.btree kind value) λ r w. w
run_call-Behind fuel (delete key snap chain) tx =
    let P = λ (tx' : Tx). Behind (7 * fuel) tx.btree tx'.btree in
    let Q = λ (r : Bool × ℕ × Btree). Behind (7 * fuel) tx.btree r.2 in
    let R = λ (r : Bool × Tx). Behind (7 * fuel) tx.btree r.1.btree in
    Ends-bind R P (delete_at fuel key snap chain tx) _
      (Ends-bind Q R (delete_below fuel cow tx.pending_root key snap chain tx.btree) _
        (delete_below-Behind fuel tx.pending_root key snap tx.btree chain) λ r w. w)
      λ r w. w
run_call-Behind fuel (fail e) tx = tt

-- The blocks that calls hand out at most.
abbrev pub budget : ℕ → List Call → ℕ
budget fuel [] = 0
budget fuel (c ∷ cs) = 7 * fuel + budget fuel cs

go_on-Behind :
    (m k : ℕ) (tx : Tx) (rest : Tx → Tx × Outcome (Unit {0})) (o : Outcome Tx)
    → Ends (λ tx'. Behind m tx.btree tx'.btree) o
    → ((tx' : Tx) → Behind k tx'.btree (rest tx').0.btree)
    → Behind (m + k) tx.btree (go_on rest tx o).0.btree
go_on-Behind m k tx rest (ok tx') h g =
    Behind-trans m k tx.btree tx'.btree (rest tx').0.btree h (g tx')
go_on-Behind m k tx rest (err e) h g =
    Behind-more 0 (m + k) tx.btree tx.btree (omega arith) (Behind-refl tx.btree)
go_on-Behind m k tx rest panic h g =
    Behind-more 0 (m + k) tx.btree tx.btree (omega arith) (Behind-refl tx.btree)

run_calls-Behind :
    (fuel : ℕ) (cs : List Call) (tx : Tx)
    → Behind (budget fuel cs) tx.btree (run_calls fuel cs tx).0.btree
unfolding run_calls
run_calls-Behind fuel [] tx = Behind-refl tx.btree
run_calls-Behind fuel (c ∷ cs) tx =
    go_on-Behind (7 * fuel) (budget fuel cs) tx (λ tx'. run_calls fuel cs tx') (run_call fuel c tx)
      (run_call-Behind fuel c tx) (λ tx'. run_calls-Behind fuel cs tx')

finish-store : (m : ℕ) (r : Tx × Outcome (Unit {0})) → (finish m r).0.store ≡ r.0.btree.store
unfolding finish
finish-store m (tx, ok v) = refl
finish-store m (tx, err e) = refl
finish-store m (tx, panic) = refl

-- What an aborted transaction leaves: the root, the log, and what the root holds.
pub record Untouched (l : ℕ) (t t' : Btree) : Type 0 where
  pub root : t'.root_block ≡ t.root_block
  pub log : t'.log ≡ t.log
  pub tree : IsTree l t'.store none none t'.root_block
  pub entries : entries_of l t'.store t'.root_block ≡ entries_of l t.store t.root_block

finish-Untouched :
    (l m : ℕ) (t : Btree) (r : Tx × Outcome (Unit {0})) (e : Error)
    → IsTree l t.store none none t.root_block
    → Owned l t.store t.root_block
    → t.store.next_block_nr + m < 2 ^ 64
    → Behind m t r.0.btree
    → r.1 ≡ err e
    → Untouched l t (finish (length t.log) r).0
unfolding finish
finish-Untouched l m t (tx, ok v) e h o n b q = let p : ⊥ = cc in absurd p
finish-Untouched l m t (tx, panic) e h o n b q = let p : ⊥ = cc in absurd p
finish-Untouched l m t (tx, err x) e h o n b q =
    let k = tree-kept m t.store tx.btree.store (b.store n) l none none t.root_block h o in
    record {
      root = b.root;
      log = rw b.log (take-length t.log b.tail);
      tree = rw b.root k.0;
      entries = rw b.root k.1;
    }

finish-end : (m : ℕ) (r : Tx × Outcome (Unit {0})) → (finish m r).1 ≡ r.1
unfolding finish
finish-end m (tx, ok v) = refl
finish-end m (tx, err e) = refl
finish-end m (tx, panic) = refl

-- A transaction whose closure fails leaves the tree untouched: the root and the log are those before
-- it, and what the root holds is the same. The blocks of the tree are taken, and the counter of
-- blocks does not wrap around within the blocks that the calls hand out at most.
pub transaction-abort :
    (fuel l : ℕ) (calls : List Call) (t : Btree) (e : Error)
    → IsTree l t.store none none t.root_block
    → Owned l t.store t.root_block
    → t.store.next_block_nr + budget fuel calls < 2 ^ 64
    → (transaction fuel calls t).1 ≡ err e
    → Untouched l t (transaction fuel calls t).0
unfolding transaction
transaction-abort fuel l calls t e h o n q =
    let r = run_calls fuel calls (record { btree = t; pending_root = t.root_block }) in
    finish-Untouched l (budget fuel calls) t r e h o n
      (run_calls-Behind fuel calls (record { btree = t; pending_root = t.root_block }))
      (sym (finish-end (length t.log) r) ∙ q)

-- However a transaction ends, the tree that it began with can still be read at its root.
pub transaction-old_root :
    (fuel l : ℕ) (calls : List Call) (t : Btree)
    → IsTree l t.store none none t.root_block
    → Owned l t.store t.root_block
    → t.store.next_block_nr + budget fuel calls < 2 ^ 64
    → IsTree l (transaction fuel calls t).0.store none none t.root_block
      × (entries_of l (transaction fuel calls t).0.store t.root_block
          ≡ entries_of l t.store t.root_block)
unfolding transaction
transaction-old_root fuel l calls t h o n =
    let r = run_calls fuel calls (record { btree = t; pending_root = t.root_block }) in
    let b = run_calls-Behind fuel calls (record { btree = t; pending_root = t.root_block }) in
    rw (finish-store (length t.log) r) (
      tree-kept (budget fuel calls) t.store r.0.btree.store (b.store n) l none none t.root_block h
        o)
