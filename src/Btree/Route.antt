-- ===== src/Btree/Route.antt =====
-- The slots of an internal node: the search among its separators leads to the child whose range
-- holds the key.
use rfs.Prelude.{
  suc, ◌-◌, ◌≡◌, refl, ap, List, [], ◌∷◌, arith, length, take, drop, lt, eq, gt, Ordering,
  if◌then◌else◌, sym, ◌∙◌, subst,
}
use native.Mathlib.Numerals.{unary_clauses}
use rfs.Bytes.{Bytes, compare_bytes}
use rfs.Bytes.Order.{eq_of_compare, gt_of_lt, lt_of_gt, compare_refl}
use rfs.Entry.{DiskEntry, key_bytes}
use rfs.Node.{
  Node, Found, at, insert_at, shift, search_entries, search_internal, child_index, single,
}
use rfs.Node.Search.{Above, IsSorted}
use rfs.Btree.Read.{below}

-- All slots but the last, which has no separator.
abbrev pub separators : List DiskEntry → List DiskEntry
separators [] = []
separators (e ∷ []) = []
separators (e ∷ f ∷ es) = e ∷ separators (f ∷ es)

take-separators : (es : List DiskEntry) → take (length es - 1) es ≡ separators es
take-separators [] = refl
take-separators (e ∷ []) = refl
take-separators (e ∷ f ∷ es) =
    let q : suc (suc (length es)) - 1 ≡ suc (suc (length es) - 1) = omega arith in
    rw q (ap (λ r. e ∷ r) (take-separators (f ∷ es)))

-- The slots from the first on whose separator is above the key.
abbrev pub seek : List DiskEntry → Bytes → List DiskEntry
seek [] k = []
seek (e ∷ []) k = e ∷ []
seek (e ∷ f ∷ es) k =
    let rest = seek (f ∷ es) k in if below k (key_bytes e) then e ∷ f ∷ es else rest

seek_low :
    (f : DiskEntry) (es : List DiskEntry) (k : Bytes)
    → Above k (separators (f ∷ es))
    → seek (f ∷ es) k ≡ f ∷ es
seek_low f [] k a = refl
seek_low f (g ∷ es) k a = rw (a.0) refl

drop-shift :
    (r : Found) (e : DiskEntry) (es : List DiskEntry)
    → drop (child_index (shift r)) (e ∷ es) ≡ drop (child_index r) es
drop-shift (at i) e es = simp unary_clauses refl
drop-shift (insert_at i) e es = refl

drop_search :
    (es : List DiskEntry) (k : Bytes)
    → IsSorted (separators es)
    → drop (child_index (search_entries (separators es) k)) es ≡ seek es k
unfolding search_entries
drop_search [] k s = refl
drop_search (e ∷ []) k s = refl
drop_search (e ∷ f ∷ es) k s = by (compare_bytes (key_bytes e) k) refl (drop_search (f ∷ es) k s.1)
  where
    by :
        (o : Ordering)
        → compare_bytes (key_bytes e) k ≡ o
        → drop (child_index (search_entries (separators (f ∷ es)) k)) (f ∷ es) ≡ seek (f ∷ es) k
        → drop (child_index (search_entries (separators (e ∷ f ∷ es)) k)) (e ∷ f ∷ es)
          ≡ seek (e ∷ f ∷ es) k
    by lt p ih =
        let g = gt_of_lt (key_bytes e) k p in
        rw (p, g, search_entries)
          (drop-shift (search_entries (separators (f ∷ es)) k) e (f ∷ es) ∙ ih)
    by eq p ih =
        let q : key_bytes e ≡ k = eq_of_compare (key_bytes e) k p in
        let r : compare_bytes k (key_bytes e) ≡ eq = rw q (compare_refl k) in
        let low = seek_low f es k (subst (λ x. Above x (separators (f ∷ es))) q s.0) in
        rw (p, r, search_entries) (sym low)
    by gt p ih = let l = lt_of_gt (key_bytes e) k p in rw (p, l, search_entries) refl

-- The slots from the child on that a search leads to.
pub seek_lem :
    (n : Node) (k : Bytes)
    → IsSorted (separators (single n))
    → drop (child_index (search_internal n k)) (single n) ≡ seek (single n) k
unfolding search_internal
seek_lem n k s = rw (take-separators (single n)) (drop_search (single n) k s)
