-- ===== src/Leaf/Opening.antt =====
-- What a leaf holds does not change when a bset is opened or a flag is set.
use rfs.Prelude.{
  ℕ, zero, suc, ◌+◌, ◌<◌, ◌≡◌, refl, Option, none, some, List, [], ◌∷◌, ◌++◌, arith, length, ap,
  Bool, false, get_elem?, set, length-append, subst,
}
use rfs.Bytes.{Bytes}
use rfs.Node.{Node, Bset, last?, total_of, set_bset_needs_whiteout}
use rfs.Node.Search.{lookup-nil}
use rfs.Node.Merged.{cursors}
use rfs.Node.Merged.Best.{IsOrdered, Newer, latest}
use rfs.Leaf.View.{view, SeqsBelow, IsLeaf}

-- A bset that was just opened.
abbrev pub fresh : ℕ → Bset
fresh m = record { seq = m; needs_whiteout = false; entries = [] }

view-open :
    (m : ℕ) (ss : List Bset) (k : Bytes)
    → latest (cursors (ss ++ fresh m ∷ [])) k ≡ latest (cursors ss) k
unfolding latest
view-open m [] k = lookup-nil k
view-open m (s ∷ ss) k = ground (arith, view-open m ss k)

Newer-open :
    (j m : ℕ) (ss : List Bset)
    → j < m
    → Newer j (cursors ss)
    → Newer j (cursors (ss ++ fresh m ∷ []))
Newer-open j m [] l h = (l, tt)
Newer-open j m (s ∷ ss) l h = (h.0, Newer-open j m ss l h.1)

IsOrdered-open :
    (m : ℕ) (ss : List Bset)
    → SeqsBelow m ss
    → IsOrdered (cursors ss)
    → IsOrdered (cursors (ss ++ fresh m ∷ []))
IsOrdered-open m [] b o = (tt, tt, tt)
IsOrdered-open m (s ∷ ss) b o = (Newer-open s.seq m ss b.0 o.0, o.1, IsOrdered-open m ss b.1 o.2)

SeqsBelow-open : (m : ℕ) (ss : List Bset) → SeqsBelow m ss → SeqsBelow (m + 1) (ss ++ fresh m ∷ [])
SeqsBelow-open m [] h = (omega arith, tt)
SeqsBelow-open m (s ∷ ss) h = (omega arith, SeqsBelow-open m ss h.1)

total-open : (m : ℕ) (ss : List Bset) → total_of (ss ++ fresh m ∷ []) ≡ total_of ss
total-open m [] = refl
total-open m (s ∷ ss) = omega (arith, total-open m ss)

last-open : (m : ℕ) (ss : List Bset) → last? (ss ++ fresh m ∷ []) ≡ some (fresh m)
last-open m [] = refl
last-open m (s ∷ []) = refl
last-open m (s ∷ t ∷ ss) = last-open m (t ∷ ss)

-- Opening a bset with the next number changes nothing that the leaf holds.
pub record Opened (n : Node) (m : ℕ) (n' : Node) : Type 0 where
  pub leaf : IsLeaf n' (m + 1)
  pub same : (k : Bytes) → view n' k ≡ view n k
  pub total : total_of n'.bsets ≡ total_of n.bsets
  pub last : last? n'.bsets ≡ some (fresh m)

pub open_lem :
    (n : Node) (m : ℕ)
    → IsLeaf n m
    → length n.bsets < 4
    → Opened n m (record n { bsets = n.bsets ++ fresh m ∷ [] })
unfolding view
open_lem n m h l = record {
  leaf = record {
    leaf = h.leaf;
    ordered = IsOrdered-open m n.bsets h.seqs h.ordered;
    seqs = SeqsBelow-open m n.bsets h.seqs;
    room = rw (total-open m n.bsets) h.room;
    few = omega (arith, length-append n.bsets (fresh m ∷ []));
  };
  same = view-open m n.bsets;
  total = total-open m n.bsets;
  last = last-open m n.bsets;
}

cursors-flag :
    (ss : List Bset) (b : ℕ) (s : Bset) (x : Bool)
    → get_elem? ss b ≡ some s
    → cursors (set ss b (record s { needs_whiteout = x })) ≡ cursors ss
cursors-flag [] b s x h = refl
cursors-flag (t ∷ ss) zero s x h =
    let q : s ≡ t = cc in ap (λ (r : Bset). record { seq = r.seq; rest = r.entries } ∷ cursors ss) q
cursors-flag (t ∷ ss) (suc b) s x h =
    ap (λ r. record { seq = t.seq; rest = t.entries } ∷ r) (cursors-flag ss b s x h)

total-flag :
    (ss : List Bset) (b : ℕ) (s : Bset) (x : Bool)
    → get_elem? ss b ≡ some s
    → total_of (set ss b (record s { needs_whiteout = x })) ≡ total_of ss
total-flag [] b s x h = refl
total-flag (t ∷ ss) zero s x h =
    let q : s ≡ t = cc in ap (λ (r : Bset). length r.entries + total_of ss) q
total-flag (t ∷ ss) (suc b) s x h = omega (arith, total-flag ss b s x h)

seqs-flag :
    (m : ℕ) (ss : List Bset) (b : ℕ) (s : Bset) (x : Bool)
    → get_elem? ss b ≡ some s
    → SeqsBelow m ss
    → SeqsBelow m (set ss b (record s { needs_whiteout = x }))
seqs-flag m [] b s x h w = tt
seqs-flag m (t ∷ ss) zero s x h w =
    let q : t ≡ s = cc in (subst (λ (r : Bset). r.seq < m) q w.0, w.1)
seqs-flag m (t ∷ ss) (suc b) s x h w = (w.0, seqs-flag m ss b s x h w.1)

length-flag : (ss : List Bset) (b : ℕ) (s : Bset) → length (set ss b s) ≡ length ss
length-flag [] b s = refl
length-flag (t ∷ ss) zero s = refl
length-flag (t ∷ ss) (suc b) s = ap suc (length-flag ss b s)

-- The flag of a bset is no part of what a leaf holds.
pub flag_lem :
    (n : Node) (b : ℕ) (x : Bool) (m : ℕ)
    → IsLeaf n m
    → IsLeaf (set_bset_needs_whiteout n b x) m
      × ((k : Bytes) → view (set_bset_needs_whiteout n b x) k ≡ view n k)
unfolding set_bset_needs_whiteout view
flag_lem n b x m h = by (get_elem? n.bsets b) refl
  where
    by :
        (o : Option Bset)
        → get_elem? n.bsets b ≡ o
        → IsLeaf (set_bset_needs_whiteout n b x) m
          × ((k : Bytes) → view (set_bset_needs_whiteout n b x) k ≡ view n k)
    by none p = rw (p, set_bset_needs_whiteout) (h, λ k. refl)
    by (some s) p =
        rw (p, set_bset_needs_whiteout)
          (
            record {
              leaf = h.leaf;
              ordered = rw (cursors-flag n.bsets b s x p) h.ordered;
              seqs = seqs-flag m n.bsets b s x p h.seqs;
              room = rw (total-flag n.bsets b s x p) h.room;
              few = rw (length-flag n.bsets b (record s { needs_whiteout = x })) h.few;
            },
            λ k. rw (cursors-flag n.bsets b s x p),
          )
