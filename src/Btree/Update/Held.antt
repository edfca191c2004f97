-- ===== src/Btree/Update/Held.antt =====
-- Maps of keys to rows, and trees that hold them: a new tree, and a tree behind an insert.
use rfs.Prelude.{
  ℕ, suc, ◌≤◌, ◌≡◌, refl, ap, ◌∙◌, Bool, true, false, Option, none, some, List, [], ◌∷◌, ◌++◌,
  arith, length, Ordering, eq,
}
use rfs.Bytes.{Bytes, compare_bytes, to_be}
use rfs.Entry.{DiskEntry, max_logical_key_size, max_value_size}
use rfs.Entry.Kind.{EntryKind}
use rfs.Entry.Image.{leaf_entry, value_bytes-leaf_entry, kind_enum-leaf_entry}
use rfs.Node.Search.{lookup}
use rfs.Btree.{NodeStore}
use rfs.Btree.Split.{Edit}
use rfs.Btree.Insert.{Moved}
use rfs.Btree.Read.{value_and_kind}
use rfs.Btree.Shape.{entries_of}
use rfs.Btree.Slots.Focus.{Updated}
use rfs.Btree.Sound.{Clean, Sound}
use rfs.Btree.Promote.{Rises, same, grew, Twin-Sound}
use rfs.Btree.Record.{LogRecord}
use rfs.Btree.Handle.{Btree, push, edit}
use rfs.Btree.Tx.{Call, write}
use rfs.Btree.Update.{Inserted}

-- A write that a transaction is asked for.
pub record Row : Type 0 where
  pub key : Bytes
  pub snap : ℕ
  pub kind : EntryKind
  pub value : Bytes

abbrev pub call_of : Row → Call
call_of w = write w.key w.snap w.kind w.value

abbrev pub sortable : Row → Bytes
sortable w = w.key ++ to_be 4 w.snap

-- A row that fits into a slot.
abbrev pub Short : Row → Type 0
Short w = (length w.key ≤ max_logical_key_size) × (length w.value ≤ max_value_size)

abbrev pub AllShort : List Row → Type 0
AllShort [] = Unit
AllShort (w ∷ ws) = Short w × AllShort ws

-- A map of sortable keys to values and kinds, and the map with one row set, or with rows set in turn.
abbrev pub RowMap : Type 0
RowMap = Bytes → Option (Bytes × EntryKind)

abbrev pub set_row : Row → RowMap → RowMap
set_row w m j = elim (compare_bytes (sortable w) j) [ eq ↦ some (w.value, w.kind) | _ ↦ m j ]

abbrev pub set_rows : List Row → RowMap → RowMap
set_rows [] m = m
set_rows (w ∷ ws) m = set_rows ws (set_row w m)

-- What the leaves of a tree hold.
abbrev pub held : ℕ → NodeStore → ℕ → RowMap
held l s nr j = value_and_kind (lookup (entries_of l s nr) j)

-- A tree at level `l` that holds the rows of a map.
pub record Holds (l : ℕ) (m : RowMap) (e : Edit) (nr : ℕ) : Type 0 where
  pub sound : Sound l e.next_bset_seq e.store none none nr
  pub clean : Clean e.store
  pub rows : (j : Bytes) → held l e.store nr j ≡ m j

pub edit-push : (r : LogRecord) (t : Btree) → edit (push r t) ≡ edit t
unfolding push
edit-push r t = by t.logging refl
  where
    by : (b : Bool) → t.logging ≡ b → edit (push r t) ≡ edit t
    by true p = rw (p, push) refl
    by false p = rw (p, push) refl

value_and_kind-leaf_entry :
    (k : Bytes) (kind : EntryKind) (value : Bytes)
    → length value ≤ max_value_size
    → value_and_kind (some (leaf_entry k kind value)) ≡ some (value, kind)
unfolding value_and_kind
value_and_kind-leaf_entry k kind value h =
    rw (value_bytes-leaf_entry k kind value h, kind_enum-leaf_entry k kind value) refl

set_row-Updated :
    (w : Row) (old new : List DiskEntry) (m : RowMap) (j : Bytes)
    → Short w
    → Updated (sortable w) (leaf_entry (sortable w) w.kind w.value) old new
    → value_and_kind (lookup old j) ≡ m j
    → value_and_kind (lookup new j) ≡ set_row w m j
set_row-Updated w old new m j s u h = by (compare_bytes (sortable w) j) refl
  where
    v : value_and_kind (some (leaf_entry (sortable w) w.kind w.value)) ≡ some (w.value, w.kind)
    v = value_and_kind-leaf_entry (sortable w) w.kind w.value s.1

    by :
        (o : Ordering)
        → compare_bytes (sortable w) j ≡ o
        → value_and_kind (lookup new j) ≡ set_row w m j
    by o p = ground (arith, u j, p, v, h)

-- The tree behind an insert.
pub Holds-Inserted :
    (l : ℕ) (w : Row) (m : RowMap) (e : Edit) (nr : ℕ) (r : Moved)
    → Short w
    → Holds l m e nr
    → Inserted l none none
        (sortable w)
        (leaf_entry (sortable w) w.kind w.value)
        (entries_of l e.store nr)
        e
        r
    → (h : ℕ) × (h ≤ suc l) × Holds h (set_row w m) r.1 r.0
Holds-Inserted l w m e nr r s o i = by i.rises
  where
    rows_of :
        (es : List DiskEntry)
        → es ≡ i.below
        → (j : Bytes) → value_and_kind (lookup es j) ≡ set_row w m j
    rows_of es p j =
        ap (λ x. value_and_kind (lookup x j)) p
        ∙ set_row-Updated w (entries_of l e.store nr) i.below m j s i.updated (o.rows j)

    by :
        Rises l r.1.next_bset_seq r.1.store none none r.0 i.below
        → (h : ℕ) × (h ≤ suc l) × Holds h (set_row w m) r.1 r.0
    by (same d p) =
        (l, omega arith, record { sound = d; clean = i.clean; rows = λ j. rows_of _ p j })
    by (grew d p) = (
      suc l,
      omega arith,
      record {
        sound = Twin-Sound l r.1.next_bset_seq r.1.store none none r.0 d;
        clean = i.clean;
        rows = λ j. rows_of _ p j;
      },
    )
