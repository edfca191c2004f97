-- ===== src/Node/Search.antt =====
-- One bset: entries in strictly ascending order of their sortable keys, searched by
-- `bset_search` and written by `sort_insert_into_last_bset`.
use rfs.Prelude.{
  ℕ, zero, suc, ◌≤◌, ◌<◌, ◌≡◌, ◌≢◌, refl, Option, none, some, List, [], ◌∷◌, arith, length,
  get_elem?, set, Ordering, lt, eq, gt, ap,
}
use rfs.Bytes.{Bytes, compare_bytes, ◌≺◌}
use rfs.Bytes.Order.{compare_refl, eq_of_compare, lt_of_gt, gt_of_lt, lt_trans}
use rfs.Entry.{DiskEntry, key_bytes}
use rfs.Node.{Found, at, insert_at, shift, search_entries, place, insert_nth}

-- Every key of the list lies above `k`.
abbrev pub Above : Bytes → List DiskEntry → Type 0
Above k [] = Unit
Above k (e ∷ es) = (k ≺ key_bytes e) × Above k es

abbrev pub IsSorted : List DiskEntry → Type 0
IsSorted [] = Unit
IsSorted (e ∷ es) = Above (key_bytes e) es × IsSorted es

-- The entry with a key.
unfoldable pub lookup : List DiskEntry → Bytes → Option DiskEntry
lookup [] k = none
lookup (e ∷ es) k = elim (compare_bytes (key_bytes e) k) [ eq ↦ some e | _ ↦ lookup es k ]

pub Above-trans : (j k : Bytes) (es : List DiskEntry) → j ≺ k → Above k es → Above j es
Above-trans j k [] h a = tt
Above-trans j k (e ∷ es) h a = (lt_trans j k (key_bytes e) h a.0, Above-trans j k es h a.1)

pub lookup-Above : (k : Bytes) (es : List DiskEntry) → Above k es → lookup es k ≡ none
unfolding lookup
lookup-Above k [] a = refl
lookup-Above k (e ∷ es) a = ground (arith, gt_of_lt k (key_bytes e) a.0, lookup-Above k es a.1)

-- What the result of a search says of the entries.
abbrev pub Finds : List DiskEntry → Bytes → Found → Type 0
Finds es k (at i) = (lookup es k ≡ get_elem? es i) × (i < length es)
Finds es k (insert_at i) = (lookup es k ≡ none) × (i ≤ length es)

Finds-shift :
    (e : DiskEntry) (es : List DiskEntry) (k : Bytes) (r : Found)
    → key_bytes e ≺ k
    → Finds es k r
    → Finds (e ∷ es) k (shift r)
unfolding lookup
Finds-shift e es k (at i) h f = ground arith
Finds-shift e es k (insert_at i) h f = ground arith

-- In sorted entries a search finds the entry with the key, or that there is none.
pub search_entries-Finds :
    (es : List DiskEntry) (k : Bytes) → IsSorted es → Finds es k (search_entries es k)
unfolding search_entries
search_entries-Finds [] k s = (unfold lookup in refl, omega arith)
search_entries-Finds (e ∷ es) k s =
    by (compare_bytes (key_bytes e) k) refl (search_entries-Finds es k s.1)
  where
    by :
        (o : Ordering)
        → compare_bytes (key_bytes e) k ≡ o
        → Finds es k (search_entries es k)
        → Finds
            (e ∷ es)
            k
            (elim o [ lt ↦ shift (search_entries es k) | eq ↦ at 0 | gt ↦ insert_at 0 ])
    by lt o f = Finds-shift e es k (search_entries es k) o f
    by eq o f = (unfold lookup in rw (o, lookup), omega arith)
    by gt o f =
        let high =
          lookup-Above k es (Above-trans k (key_bytes e) es (lt_of_gt (key_bytes e) k o) s.0) in
        (unfold lookup in rw (o, lookup) high, omega arith)

pub place-shift :
    (r : Found) (e x : DiskEntry) (es : List DiskEntry)
    → place (shift r) e (x ∷ es) ≡ x ∷ place r e es
place-shift (at i) e x es = refl
place-shift (insert_at i) e x es = refl

-- The entries with `e` put at the place that the search for its key found.
abbrev pub insert_sorted : DiskEntry → List DiskEntry → List DiskEntry
insert_sorted e es = place (search_entries es (key_bytes e)) e es

-- One step of `insert_sorted`.
insert_sorted_step :
    (e x : DiskEntry) (es : List DiskEntry)
    → insert_sorted e (x ∷ es) ≡ (elim (compare_bytes (key_bytes x) (key_bytes e)) [
      | lt ↦ x ∷ insert_sorted e es
      | eq ↦ e ∷ es
      | gt ↦ e ∷ x ∷ es
    ])
unfolding search_entries
insert_sorted_step e x es = ground (arith, place-shift (search_entries es (key_bytes e)) e x es)

Above-insert_sorted :
    (j : Bytes) (e : DiskEntry) (es : List DiskEntry)
    → j ≺ key_bytes e
    → Above j es
    → Above j (insert_sorted e es)
Above-insert_sorted j e [] h a = unfold search_entries in (h, tt)
Above-insert_sorted j e (x ∷ es) h a =
    rw (insert_sorted_step e x es) (ground (arith, Above-insert_sorted j e es h a.1))

Above-of_eq : (j k : Bytes) (es : List DiskEntry) → j ≡ k → Above j es → Above k es
Above-of_eq j k es p a = rw (← p) a

-- Writing an entry keeps the bset in strictly ascending order.
pub IsSorted-insert_sorted :
    (e : DiskEntry) (es : List DiskEntry) → IsSorted es → IsSorted (insert_sorted e es)
IsSorted-insert_sorted e [] s = unfold search_entries in (tt, tt)
IsSorted-insert_sorted e (x ∷ es) s = rw (insert_sorted_step e x es) (
    ground (
      arith,
      Above-insert_sorted (key_bytes x) e es,
      IsSorted-insert_sorted e es s.1,
      Above-of_eq (key_bytes x) (key_bytes e) es,
      eq_of_compare (key_bytes x) (key_bytes e),
      lt_of_gt (key_bytes x) (key_bytes e),
      Above-trans (key_bytes e) (key_bytes x) es,
    ))

-- After it the key reads as the new entry, and every other key as before.
pub lookup-insert_sorted :
    (e : DiskEntry) (es : List DiskEntry) (k : Bytes)
    → lookup (insert_sorted e es) k
      ≡ (elim (compare_bytes (key_bytes e) k) [ eq ↦ some e | _ ↦ lookup es k ])
unfolding lookup
lookup-insert_sorted e [] k = unfold search_entries in refl
lookup-insert_sorted e (x ∷ es) k = rw (insert_sorted_step e x es) (
    ground (
      arith,
      lookup-insert_sorted e es k,
      eq_of_compare (key_bytes x) (key_bytes e),
      eq_of_compare (key_bytes e) k,
      eq_of_compare (key_bytes x) k,
      compare_refl k,
    ))

pub length-insert_sorted :
    (e : DiskEntry) (es : List DiskEntry)
    → length (insert_sorted e es) ≡ (elim (search_entries es (key_bytes e)) [
      | at i ↦ length es
      | insert_at i ↦ suc (length es)
    ])
length-insert_sorted e es = length-place (search_entries es (key_bytes e))
  where
    length-insert_nth : (i : ℕ) (xs : List DiskEntry) → length (insert_nth i e xs) ≡ suc (length xs)
    length-insert_nth zero xs = refl
    length-insert_nth (suc i) [] = refl
    length-insert_nth (suc i) (x ∷ xs) = ap suc (length-insert_nth i xs)

    length-set : (i : ℕ) (xs : List DiskEntry) → length (set xs i e) ≡ length xs
    length-set i [] = refl
    length-set zero (x ∷ xs) = refl
    length-set (suc i) (x ∷ xs) = ap suc (length-set i xs)

    length-place :
        (r : Found)
        → length (place r e es) ≡ (elim r [ at i ↦ length es | insert_at i ↦ suc (length es) ])
    length-place (at i) = length-set i es
    length-place (insert_at i) = length-insert_nth i es

pub lookup-head : (e : DiskEntry) (es : List DiskEntry) → lookup (e ∷ es) (key_bytes e) ≡ some e
unfolding lookup
lookup-head e es = rw (compare_refl (key_bytes e), lookup)

pub lookup_low :
    (e : DiskEntry) (es : List DiskEntry) (k : Bytes)
    → Above (key_bytes e) es
    → k ≺ key_bytes e
    → lookup (e ∷ es) k ≡ none
unfolding lookup
lookup_low e es k a h =
    rw (gt_of_lt k (key_bytes e) h, lookup) (lookup-Above k es (Above-trans k (key_bytes e) es h a))

pub lookup_tail :
    (e : DiskEntry) (es : List DiskEntry) (k : Bytes)
    → key_bytes e ≢ k
    → lookup (e ∷ es) k ≡ lookup es k
unfolding lookup
lookup_tail e es k n = ground (arith, eq_of_compare (key_bytes e) k)

pub lookup-nil : (k : Bytes) → lookup [] k ≡ none
unfolding lookup
lookup-nil k = refl
