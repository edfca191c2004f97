-- ===== src/Node/Merged/Order.antt =====
-- What `MergedIter` yields over all bsets of a node: each key once, in ascending order, with the
-- entry of the newest bset that has the key.
use rfs.Prelude.{
  ℕ, zero, suc, ◌+◌, ◌≤◌, ◌≡◌, ◌≢◌, refl, none, some, List, [], ◌∷◌, arith, length, Ordering, lt,
  eq, gt, ap, ◌∙◌, sym,
}
use rfs.Bytes.{Bytes, compare_bytes, ◌≺◌}
use rfs.Bytes.Order.{compare_refl, eq_of_compare, lt_of_gt}
use rfs.Entry.{DiskEntry, key_bytes}
use rfs.Node.{Node, Bset, total_of}
use rfs.Node.Search.{
  Above, IsSorted, lookup, lookup-Above, Above-trans, lookup-head, lookup_tail, lookup-nil,
}
use rfs.Node.Merged.{Cursor, Best, best_of, advance, next, collect, cursors, merged}
use rfs.Node.Merged.Best.{IsOrdered, latest, best_from, best_from_lem, best_of_lem, IsBest}
use rfs.Node.Merged.Advance.{
  heads_from, AllAbove, advance-AllAbove, advance-IsOrdered, latest-advance, left, left-advance-lt,
}

-- Where every remaining key lies above `k`, so does all that is yielded.
latest-AllAbove :
    (k : Bytes) (cs : List Cursor) → AllAbove k cs → (j : Bytes) → j ≺ k → latest cs j ≡ none
unfolding latest
latest-AllAbove k [] a j l = refl
latest-AllAbove k (c ∷ cs) a j l =
    ground
      (arith, latest-AllAbove k cs a.1 j l, lookup-Above j c.rest (Above-trans j k c.rest l a.0))

latest-AllAbove_self : (k : Bytes) (cs : List Cursor) → AllAbove k cs → latest cs k ≡ none
unfolding latest
latest-AllAbove_self k [] a = refl
latest-AllAbove_self k (c ∷ cs) a =
    ground (arith, latest-AllAbove_self k cs a.1, lookup-Above k c.rest a.0)

-- What one step of the iterator returns.
abbrev Next : List Cursor → Best → Type 0
Next cs none = next cs ≡ none
Next cs (some (s, e)) = next cs ≡ some (e, advance (key_bytes e) cs)

next_lem : (cs : List Cursor) → IsOrdered cs → Next cs (best_from cs)
unfolding next
next_lem cs o = by (best_from cs) (best_of_lem none cs tt o)
  where
    by : (b : Best) → best_of none cs ≡ b → Next cs b
    by none p = rw (p, next)
    by (some (s, e)) p = rw (p, next)

-- The yielded entries are in ascending order, and read as the newest bsets do.
abbrev pub Yields : List Cursor → List DiskEntry → Type 0
Yields cs es = IsSorted es × ((k : Bytes) → lookup es k ≡ latest cs k)

Above-yields :
    (k : Bytes) (cs : List Cursor) (es : List DiskEntry)
    → AllAbove k cs
    → ((j : Bytes) → lookup es j ≡ latest cs j)
    → IsSorted es
    → Above k es
Above-yields k cs [] a h s = tt
Above-yields k cs (e ∷ es) a h s = by (compare_bytes k (key_bytes e)) refl
  where
    by : (o : Ordering) → compare_bytes k (key_bytes e) ≡ o → Above k (e ∷ es)
    by lt p = (p, Above-trans k (key_bytes e) es p s.0)
    by eq p =
        let same = eq_of_compare k (key_bytes e) p in
        let gone = rw same at (latest-AllAbove_self k cs a) in
        cc (h (key_bytes e), lookup-head e es, gone)
    by gt p =
        let gone = latest-AllAbove k cs a (key_bytes e) (lt_of_gt k (key_bytes e) p) in
        cc (h (key_bytes e), lookup-head e es, gone)

latest_empty : (cs : List Cursor) (k : Bytes) → left cs ≤ 0 → latest cs k ≡ none
unfolding latest
latest_empty [] k l = refl
latest_empty (c ∷ cs) k l = go c.rest l (latest_empty cs k (omega arith))
  where
    go :
        (es : List DiskEntry)
        → length es + left cs ≤ 0
        → latest cs k ≡ none
        → (elim (latest cs k) [ some e ↦ some e | none ↦ lookup es k ]) ≡ none
    go [] m ih = rw ih (lookup-nil k)
    go (e ∷ es) m ih = absurd (omega arith)

-- One step: the best entry, and then what the rest yields.
collect_step :
    (s : ℕ) (e : DiskEntry) (cs : List Cursor) (es : List DiskEntry)
    → IsOrdered cs
    → IsBest cs (some (s, e))
    → Yields (advance (key_bytes e) cs) es
    → Yields cs (e ∷ es)
collect_step s e cs es o b y =
    let heads = heads_from (key_bytes e) cs b.1 in
    let above = advance-AllAbove (key_bytes e) cs o heads in
    (
      (Above-yields (key_bytes e) (advance (key_bytes e) cs) es above y.1 y.0, y.0),
      λ k. by k (compare_bytes (key_bytes e) k) refl,
    )
  where
    by :
        (k : Bytes) (c : Ordering)
        → compare_bytes (key_bytes e) k ≡ c
        → lookup (e ∷ es) k ≡ latest cs k
    by k lt p =
        let n : key_bytes e ≢ k =
          λ q. ground (arith, compare_refl k, ap (λ j. compare_bytes j k) q) in
        lookup_tail e es k n ∙ y.1 k ∙ latest-advance (key_bytes e) k cs n
    by k eq p = rw (← eq_of_compare (key_bytes e) k p) (lookup-head e es ∙ sym b.0)
    by k gt p =
        let n : key_bytes e ≢ k =
          λ q. ground (arith, compare_refl k, ap (λ j. compare_bytes j k) q) in
        lookup_tail e es k n ∙ y.1 k ∙ latest-advance (key_bytes e) k cs n

collect_lem :
    (fuel : ℕ) (cs : List Cursor) → IsOrdered cs → left cs ≤ fuel → Yields cs (collect fuel cs)
unfolding collect
collect_lem zero cs o l = (tt, λ k. lookup-nil k ∙ sym (latest_empty cs k l))
collect_lem (suc fuel) cs o l =
    by (best_from cs) (next_lem cs o) (best_from_lem cs o) (λ cs'. collect_lem fuel cs')
  where
    by :
        (b : Best)
        → Next cs b
        → IsBest cs b
        → ((cs' : List Cursor) → IsOrdered cs' → left cs' ≤ fuel → Yields cs' (collect fuel cs'))
        → Yields cs (collect (suc fuel) cs)
    by none n i ih = rw (n, collect) (tt, λ k. lookup-nil k ∙ sym (i k))
    by (some (s, e)) n i ih =
        let smaller =
          left-advance-lt (key_bytes e) cs o (heads_from (key_bytes e) cs i.1) (λ q. cc (i.0, q)) in
        rw (n, collect)
          (collect_step s e cs (collect fuel (advance (key_bytes e) cs)) o i
            (ih (advance (key_bytes e) cs) (advance-IsOrdered (key_bytes e) cs o) (omega arith)))

left-cursors : (ss : List Bset) → left (cursors ss) ≡ total_of ss
left-cursors [] = refl
left-cursors (s ∷ ss) = omega (arith, left-cursors ss)

-- The merge of a node whose bsets are sorted, and in the order of their numbers, is in strictly
-- ascending order of keys, and has for each key the entry of the newest bset that has the key.
pub merged_lem : (n : Node) → IsOrdered (cursors n.bsets) → Yields (cursors n.bsets) (merged n)
unfolding merged
merged_lem n o =
    collect_lem (total_of n.bsets) (cursors n.bsets) o (omega (arith, left-cursors n.bsets))
