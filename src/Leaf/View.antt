-- ===== src/Leaf/View.antt =====
-- What a leaf holds: the newest entry of each key. How the edits of the list of bsets change it.
use rfs.Prelude.{
  ℕ, suc, ◌+◌, ◌≤◌, ◌<◌, ◌≡◌, refl, Option, none, some, List, [], ◌∷◌, arith, length, eq, ap, ◌∙◌,
  sym,
}
use rfs.Bytes.{Bytes, compare_bytes}
use rfs.Entry.{DiskEntry, key_bytes}
use rfs.Node.{Node, Bset, last?, update_last, total_of, search_entries, insert_at, at}
use rfs.Node.Search.{
  insert_sorted, IsSorted-insert_sorted, lookup-insert_sorted, length-insert_sorted,
}
use rfs.Node.Merged.{cursors}
use rfs.Node.Merged.Best.{IsOrdered, Newer, latest}

-- The entry that a leaf has for a sortable key.
unfoldable pub view : Node → Bytes → Option DiskEntry
view n k = latest (cursors n.bsets) k

-- Every bset is older than the counter.
abbrev pub SeqsBelow : ℕ → List Bset → Type 0
SeqsBelow m [] = Unit
SeqsBelow m (s ∷ ss) = (s.seq < m) × SeqsBelow m ss

-- The shape of a leaf between two writes.
pub record IsLeaf (n : Node) (next : ℕ) : Type 0 where
  pub leaf : n.level ≡ 0
  pub ordered : IsOrdered (cursors n.bsets)
  pub seqs : SeqsBelow next n.bsets
  pub room : total_of n.bsets ≤ 29
  pub few : length n.bsets ≤ 4

-- The write of an entry into the newest bset.
abbrev pub write_entry : DiskEntry → Bset → Bset
write_entry e s = record s { entries = insert_sorted e s.entries }

pub update_last-same :
    (f g : Bset → Bset) (l : Bset) (ss : List Bset)
    → last? ss ≡ some l
    → f l ≡ g l
    → update_last f ss ≡ update_last g ss
unfolding update_last
update_last-same f g l [] h p = refl
update_last-same f g l (s ∷ []) h p =
    let q : s ≡ l = cc in ap (λ b. b ∷ []) (ap f q ∙ p ∙ ap g (sym q))
update_last-same f g l (s ∷ t ∷ ss) h p = ap (λ r. s ∷ r) (update_last-same f g l (t ∷ ss) h p)

pub view-write :
    (e : DiskEntry) (l : Bset) (ss : List Bset) (k : Bytes)
    → last? ss ≡ some l
    → latest (cursors (update_last (write_entry e) ss)) k
      ≡ (elim (compare_bytes (key_bytes e) k) [ eq ↦ some e | _ ↦ latest (cursors ss) k ])
unfolding update_last latest
view-write e l [] k h = ground arith
view-write e l (s ∷ []) k h = rw (lookup-insert_sorted e s.entries k) (ground arith)
view-write e l (s ∷ t ∷ ss) k h = ground (arith, view-write e l (t ∷ ss) k h)

Newer-write :
    (m : ℕ) (e : DiskEntry) (ss : List Bset)
    → Newer m (cursors ss)
    → Newer m (cursors (update_last (write_entry e) ss))
unfolding update_last
Newer-write m e [] h = tt
Newer-write m e (s ∷ []) h = h
Newer-write m e (s ∷ t ∷ ss) h = (h.0, Newer-write m e (t ∷ ss) h.1)

IsOrdered-write :
    (e : DiskEntry) (ss : List Bset)
    → IsOrdered (cursors ss)
    → IsOrdered (cursors (update_last (write_entry e) ss))
unfolding update_last
IsOrdered-write e [] o = tt
IsOrdered-write e (s ∷ []) o = (tt, IsSorted-insert_sorted e s.entries o.1, tt)
IsOrdered-write e (s ∷ t ∷ ss) o =
    (Newer-write s.seq e (t ∷ ss) o.0, o.1, IsOrdered-write e (t ∷ ss) o.2)

SeqsBelow-write :
    (m : ℕ) (e : DiskEntry) (ss : List Bset)
    → SeqsBelow m ss
    → SeqsBelow m (update_last (write_entry e) ss)
unfolding update_last
SeqsBelow-write m e [] h = tt
SeqsBelow-write m e (s ∷ []) h = h
SeqsBelow-write m e (s ∷ t ∷ ss) h = (h.0, SeqsBelow-write m e (t ∷ ss) h.1)

length-write :
    (e : DiskEntry) (ss : List Bset) → length (update_last (write_entry e) ss) ≡ length ss
unfolding update_last
length-write e [] = refl
length-write e (s ∷ []) = refl
length-write e (s ∷ t ∷ ss) = ap suc (length-write e (t ∷ ss))

-- Whether a write takes a new slot.
abbrev pub grows : List Bset → DiskEntry → ℕ
grows ss e = elim (last? ss) [
  | none ↦ 0
  | some s ↦ elim (search_entries s.entries (key_bytes e)) [ at i ↦ 0 | insert_at i ↦ 1 ]
]

total-write :
    (e : DiskEntry) (ss : List Bset)
    → total_of (update_last (write_entry e) ss) ≡ total_of ss + grows ss e
unfolding update_last
total-write e [] = refl
total-write e (s ∷ []) = ground (arith, length-insert_sorted e s.entries)
total-write e (s ∷ t ∷ ss) = omega (arith, total-write e (t ∷ ss))

-- A leaf that takes a write in its newest bset is a leaf again, if it has room for it.
pub IsLeaf-write :
    (n : Node) (next : ℕ) (e : DiskEntry)
    → IsLeaf n next
    → total_of n.bsets + grows n.bsets e ≤ 29
    → IsLeaf (record n { bsets = update_last (write_entry e) n.bsets }) next
IsLeaf-write n next e h r = record {
  leaf = h.leaf;
  ordered = IsOrdered-write e n.bsets h.ordered;
  seqs = SeqsBelow-write next e n.bsets h.seqs;
  room = rw (total-write e n.bsets) r;
  few = rw (length-write e n.bsets) h.few;
}
