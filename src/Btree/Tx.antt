-- ===== src/Btree/Tx.antt =====
-- btree.rs: `Tx` and `Btree::transaction`. The closure of a transaction is a list of its calls, run
-- until one fails; a closure that gives up by itself has the call `fail`.
use rfs.Prelude.{ℕ, Bool, Option, List, [], ◌∷◌, length, take}
use rfs.Prelude.Outcome.{Outcome, Error, ok, err, panic, ◌>>=◌}
use rfs.Bytes.{Bytes}
use rfs.Entry.{sortable_key}
use rfs.Entry.Kind.{EntryKind}
use rfs.Btree.{cow}
use rfs.Btree.Read as Read
use rfs.Btree.Handle.{Btree, write_at, delete_below}

pub record Tx : Type 0 where
  pub btree : Btree
  pub pending_root : ℕ

unfoldable pub insert_with_kind : ℕ → Bytes → ℕ → EntryKind → Bytes → Tx → Outcome Tx
unfolding write_at
insert_with_kind fuel key snap kind value tx =
    write_at fuel cow tx.pending_root key snap kind value tx.btree >>= λ r.
    ok (record { pending_root = r.0; btree = r.1 })

unfoldable pub delete_at : ℕ → Bytes → ℕ → List ℕ → Tx → Outcome (Bool × Tx)
unfolding delete_below
delete_at fuel key snap chain tx =
    delete_below fuel cow tx.pending_root key snap chain tx.btree >>= λ r.
    ok (r.0, record { pending_root = r.1; btree = r.2 })

unfoldable pub find_at : ℕ → Bytes → ℕ → Tx → Outcome (Option Bytes)
unfolding sortable_key Read.find
find_at fuel key snap tx =
    sortable_key key snap >>= λ sk. Read.find fuel tx.btree.store tx.pending_root sk

unfoldable pub find_visible : ℕ → Bytes → List ℕ → Tx → Outcome (Option Bytes)
unfolding Read.find_visible
find_visible fuel key chain tx = Read.find_visible fuel tx.btree.store tx.pending_root key chain

-- A call on a transaction.
pub data Call : Type 0 where
  write : Bytes → ℕ → EntryKind → Bytes → Call
  delete : Bytes → ℕ → List ℕ → Call
  fail : Error → Call

unfoldable pub run_call : ℕ → Call → Tx → Outcome Tx
unfolding insert_with_kind delete_at
run_call fuel (write key snap kind value) tx = insert_with_kind fuel key snap kind value tx
run_call fuel (delete key snap chain) tx = delete_at fuel key snap chain tx >>= λ r. ok r.1
run_call fuel (fail e) tx = err e

-- The rest of the calls, unless one has failed.
abbrev pub go_on : (Tx → Tx × Outcome (Unit {0})) → Tx → Outcome Tx → Tx × Outcome (Unit {0})
go_on rest tx (ok tx') = rest tx'
go_on rest tx (err e) = (tx, err e)
go_on rest tx panic = (tx, panic)

-- The transaction where the closure ends, and how it ends.
unfoldable pub run_calls : ℕ → List Call → Tx → Tx × Outcome (Unit {0})
unfolding run_call
run_calls fuel [] tx = (tx, ok tt)
run_calls fuel (c ∷ cs) tx = go_on (λ tx'. run_calls fuel cs tx') tx (run_call fuel c tx)

-- The end of a transaction that began with a log of `log_mark` records: the pending root becomes the
-- root, or the records behind the mark are cut off and the root stays.
unfoldable pub finish : ℕ → Tx × Outcome (Unit {0}) → Btree × Outcome (Unit {0})
finish log_mark (tx, ok v) = (record tx.btree { root_block = tx.pending_root }, ok v)
finish log_mark (tx, err e) = (record tx.btree { log = take log_mark tx.btree.log }, err e)
finish log_mark (tx, panic) = (tx.btree, panic)

unfoldable pub transaction : ℕ → List Call → Btree → Btree × Outcome (Unit {0})
unfolding run_calls finish
transaction fuel calls t =
    finish (length t.log) (run_calls fuel calls (record { btree = t; pending_root = t.root_block }))
