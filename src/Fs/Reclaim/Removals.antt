-- ===== src/Fs/Reclaim/Removals.antt =====
-- The records of a removal that a call of the tree adds to its log.
use rfs.Prelude.{
  ℕ, ◌+◌, ◌≤◌, ◌++◌, ◌≡◌, Bool, Option, none, some, List, [], ◌∷◌, arith, ◌==◌, if◌then◌else◌,
}
use rfs.Prelude.Outcome.{Ends, Ends-bind, Ends-any, Ends-if}
use rfs.Bytes.{Bytes}
use rfs.Entry.{sortable_key}
use rfs.Entry.Kind.{EntryKind, live, deleted, whiteout, is_live}
use rfs.Btree.{WriteMode, in_place}
use rfs.Btree.Insert.{insert}
use rfs.Btree.Flip.{flip_kind_in_place}
use rfs.Btree.Read as Read
use rfs.Btree.Record.{LogRecord}
use rfs.Btree.Handle.{Btree, push, edit, write_at, flip_at, delete_found, delete_below}
use rfs.Btree.Handle as Btree
use rfs.Fs.State.{Fs, put_at}

-- The records of a log that take a row away.
abbrev pub removals : List LogRecord → ℕ
removals [] = 0
removals (r ∷ rs) = (if is_live r.kind then 0 else 1) + removals rs

removals-snoc :
    (rs : List LogRecord) (r : LogRecord)
    → removals (rs ++ r ∷ []) ≡ removals rs + (if is_live r.kind then 0 else 1)
removals-snoc [] r = ground arith
removals-snoc (x ∷ rs) r = let h = removals-snoc rs r in omega (arith, h)

removals-push :
    (r : LogRecord) (t : Btree)
    → removals (push r t).log ≤ removals t.log + (if is_live r.kind then 0 else 1)
unfolding push
removals-push r t = ground (arith, removals-snoc t.log r)

module _ (fuel : ℕ) (key : Bytes) (snap : ℕ) (t : Btree) where
  write_at-removals :
      (mode : WriteMode) (root : ℕ) (kind : EntryKind) (value : Bytes)
      → Ends
          (λ (r : ℕ × Btree). removals r.1.log ≤ removals t.log + (if is_live kind then 0 else 1))
          (write_at fuel mode root key snap kind value t)
  unfolding write_at
  write_at-removals mode root kind value =
      let P =
        λ (r : ℕ × Btree). removals r.1.log ≤ removals t.log + (if is_live kind then 0 else 1) in
      Ends-any P (sortable_key key snap) _ λ sk.
        Ends-any P (insert fuel mode sk kind value (edit t) root) _ λ r.
          removals-push (record { sortable_key = sk; kind = kind; value = value })
            (record t { store = r.1.store; next_bset_seq = r.1.next_bset_seq })

  flip_at-removals :
      (mode : WriteMode) (root : ℕ)
      → Ends
          (λ (r : ℕ × Btree). removals r.1.log ≤ removals t.log + 1)
          (flip_at fuel mode root key snap t)
  unfolding flip_at
  flip_at-removals mode root =
      let P = λ (r : ℕ × Btree). removals r.1.log ≤ removals t.log + 1 in
      Ends-any P (sortable_key key snap) _ λ sk.
        Ends-any P (flip_kind_in_place fuel mode sk deleted t.store root) _ λ r.
          removals-push (record { sortable_key = sk; kind = deleted; value = [] })
            (record t { store = r.1 })

  pub delete_at-removals :
      (chain : List ℕ)
      → Ends
          (λ (r : Bool × Btree). removals r.1.log ≤ removals t.log + 1)
          (Btree.delete_at fuel key snap chain t)
  unfolding Btree.delete_at delete_below delete_found
  delete_at-removals chain =
      let R = λ (r : Bool × Btree). removals r.1.log ≤ removals t.log + 1 in
      let P = λ (r : Bool × ℕ × Btree). removals r.2.log ≤ removals t.log + 1 in
      let Q = λ (r : ℕ × Btree). removals r.1.log ≤ removals t.log + 1 in
      Ends-bind P R (delete_below fuel in_place t.root_block key snap chain t) _
        (Ends-any P (Read.find_visible_with_snap fuel t.store t.root_block key chain) _ λ o. by o)
        λ r w. w
    where
      by :
          (o : Option (Bytes × ℕ))
          → Ends
              (λ (r : Bool × ℕ × Btree). removals r.2.log ≤ removals t.log + 1)
              (delete_found fuel in_place t.root_block key snap t o)
      by none = omega arith
      by (some (v, visible_snap)) =
          Ends-if (λ (r : Bool × ℕ × Btree). removals r.2.log ≤ removals t.log + 1)
            (visible_snap == snap) _ _
            (Ends-bind (λ (r : ℕ × Btree). removals r.1.log ≤ removals t.log + 1)
              (λ (r : Bool × ℕ × Btree). removals r.2.log ≤ removals t.log + 1)
              (flip_at fuel in_place t.root_block key snap t) _
              (flip_at-removals in_place t.root_block) λ r w. w)
            (Ends-bind (λ (r : ℕ × Btree). removals r.1.log ≤ removals t.log + 1)
              (λ (r : Bool × ℕ × Btree). removals r.2.log ≤ removals t.log + 1)
              (write_at fuel in_place t.root_block key snap whiteout [] t) _
              (write_at-removals in_place t.root_block whiteout []) λ r w. w)

pub put_at-removals :
    (fuel : ℕ) (key : Bytes) (snap : ℕ) (value : Bytes) (f : Fs)
    → Ends (λ (g : Fs). removals g.tree.log ≤ removals f.tree.log) (put_at fuel key snap value f)
unfolding put_at Btree.insert_at Btree.insert_with_kind
put_at-removals fuel key snap value f =
    let P = λ (t : Btree). removals t.log ≤ removals f.tree.log in
    Ends-bind P (λ (g : Fs). removals g.tree.log ≤ removals f.tree.log)
      (Btree.insert_at fuel key snap value f.tree) _
      (Ends-bind (λ (r : ℕ × Btree). removals r.1.log ≤ removals f.tree.log + 0) P
        (write_at fuel in_place f.tree.root_block key snap live value f.tree) _
        (write_at-removals fuel key snap f.tree in_place f.tree.root_block live value)
        λ r w. (omega arith))
      λ t w. w
