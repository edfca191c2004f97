-- ===== src/Node/Merged/Advance.antt =====
-- One step of `MergedIter`: what is left when the cursors move past a key.
use rfs.Prelude.{
  ℕ, suc, ◌+◌, ◌≤◌, ◌<◌, ◌≡◌, ◌≢◌, refl, none, some, List, [], ◌∷◌, arith, length, Ordering, lt, eq,
  gt,
}
use rfs.Bytes.{Bytes, compare_bytes, ◌≺◌}
use rfs.Bytes.Order.{eq_of_compare, lt_of_gt}
use rfs.Entry.{DiskEntry, key_bytes}
use rfs.Node.Search.{
  Above, IsSorted, lookup, Above-trans, lookup-head, lookup_low, lookup_tail, lookup-nil,
}
use rfs.Node.Merged.{Cursor, step_past, advance}
use rfs.Node.Merged.Best.{IsOrdered, Newer, latest, HeadsFrom, From}

-- No key lies below the best one.
pub heads_from :
    (b : Bytes) (cs : List Cursor) → ((k : Bytes) → k ≺ b → latest cs k ≡ none) → HeadsFrom b cs
unfolding latest
heads_from b [] h = tt
heads_from b (c ∷ cs) h = (first c.rest h, heads_from b cs (λ k l. ground (arith, h k l)))
  where
    first :
        (es : List DiskEntry)
        → ((k : Bytes)
            → k ≺ b
            → (elim (latest cs k) [ some e ↦ some e | none ↦ lookup es k ]) ≡ none)
        → From b es
    first [] f = tt
    first (e ∷ es) f = λ l. ground (arith, f (key_bytes e) l, lookup-head e es)

abbrev pub AllAbove : Bytes → List Cursor → Type 0
AllAbove k [] = Unit
AllAbove k (c ∷ cs) = Above k c.rest × AllAbove k cs

step_past-Above :
    (k : Bytes) (es : List DiskEntry) → IsSorted es → From k es → Above k (step_past k es)
step_past-Above k [] s f = tt
step_past-Above k (e ∷ es) s f = by (compare_bytes (key_bytes e) k) refl
  where
    by :
        (o : Ordering)
        → compare_bytes (key_bytes e) k ≡ o
        → Above k (elim o [ eq ↦ es | _ ↦ e ∷ es ])
    by lt p = absurd (f p)
    by eq p = rw (eq_of_compare (key_bytes e) k p) at s.0
    by gt p = let l = lt_of_gt (key_bytes e) k p in (l, Above-trans k (key_bytes e) es l s.0)

pub advance-AllAbove :
    (k : Bytes) (cs : List Cursor) → IsOrdered cs → HeadsFrom k cs → AllAbove k (advance k cs)
unfolding advance
advance-AllAbove k [] o h = tt
advance-AllAbove k (c ∷ cs) o h = (step_past-Above k c.rest o.1 h.0, advance-AllAbove k cs o.2 h.1)

step_past-IsSorted : (k : Bytes) (es : List DiskEntry) → IsSorted es → IsSorted (step_past k es)
step_past-IsSorted k [] s = tt
step_past-IsSorted k (e ∷ es) s = ground arith

Newer-advance : (n : ℕ) (k : Bytes) (cs : List Cursor) → Newer n cs → Newer n (advance k cs)
unfolding advance
Newer-advance n k [] h = tt
Newer-advance n k (c ∷ cs) h = (h.0, Newer-advance n k cs h.1)

pub advance-IsOrdered : (k : Bytes) (cs : List Cursor) → IsOrdered cs → IsOrdered (advance k cs)
unfolding advance
advance-IsOrdered k [] o = tt
advance-IsOrdered k (c ∷ cs) o =
    (Newer-advance c.seq k cs o.0, step_past-IsSorted k c.rest o.1, advance-IsOrdered k cs o.2)

lookup-step_past :
    (k j : Bytes) (es : List DiskEntry) → k ≢ j → lookup (step_past k es) j ≡ lookup es j
lookup-step_past k j [] n = refl
lookup-step_past k j (e ∷ es) n = ground (arith, lookup_tail e es j, eq_of_compare (key_bytes e) k)

-- Passing `k` does not change what the other keys read.
pub latest-advance :
    (k j : Bytes) (cs : List Cursor) → k ≢ j → latest (advance k cs) j ≡ latest cs j
unfolding latest advance
latest-advance k j [] n = refl
latest-advance k j (c ∷ cs) n =
    ground (arith, latest-advance k j cs n, lookup-step_past k j c.rest n)

abbrev pub left : List Cursor → ℕ
left [] = 0
left (c ∷ cs) = length c.rest + left cs

length-step_past : (k : Bytes) (es : List DiskEntry) → length (step_past k es) ≤ length es
length-step_past k [] = omega arith
length-step_past k (e ∷ es) = ground arith

left-advance-le : (k : Bytes) (cs : List Cursor) → left (advance k cs) ≤ left cs
unfolding advance
left-advance-le k [] = omega arith
left-advance-le k (c ∷ cs) = omega (arith, length-step_past k c.rest, left-advance-le k cs)

-- Each step takes an entry away.
pub left-advance-lt :
    (k : Bytes) (cs : List Cursor)
    → IsOrdered cs
    → HeadsFrom k cs
    → latest cs k ≢ none
    → left (advance k cs) < left cs
unfolding advance latest
left-advance-lt k [] o h n = absurd (n refl)
left-advance-lt k (c ∷ cs) o h n =
    go c.rest o.1 h.0 n (left-advance-lt k cs o.2 h.1) (left-advance-le k cs)
  where
    go :
        (es : List DiskEntry)
        → IsSorted es
        → From k es
        → (elim (latest cs k) [ some e ↦ some e | none ↦ lookup es k ]) ≢ none
        → (latest cs k ≢ none → left (advance k cs) < left cs)
        → left (advance k cs) ≤ left cs
        → length (step_past k es) + left (advance k cs) < length es + left cs
    go [] s f m ih le = let strict = ih (λ e. m (rw e (lookup-nil k))) in omega arith
    go (e ∷ es) s f m ih le = by (compare_bytes (key_bytes e) k) refl
      where
        by :
            (o : Ordering)
            → compare_bytes (key_bytes e) k ≡ o
            → length (elim o as (λ _. List DiskEntry) [ eq ↦ es | _ ↦ e ∷ es ])
                + left (advance k cs)
              < suc (length es) + left cs
        by lt p = absurd (f p)
        by eq p = omega arith
        by gt p =
            let strict =
              ih (λ none_. m (rw none_ (lookup_low e es k s.0 (lt_of_gt (key_bytes e) k p)))) in
            omega arith
