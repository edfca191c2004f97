-- ===== src/Node/Merged/Best.antt =====
-- The entry that one step of the merge yields: the smallest key, from the newest bset that has it.
use rfs.Prelude.{
  ℕ, ◌<◌, ◌≡◌, ◌≢◌, refl, Option, none, some, List, [], ◌∷◌, arith, Ordering, lt, eq, gt, ◌∙◌, sym,
}
use rfs.Bytes.{Bytes, compare_bytes, ◌≺◌}
use rfs.Bytes.Order.{compare_refl, eq_of_compare, lt_of_gt, gt_of_lt, lt_trans}
use rfs.Entry.{DiskEntry, key_bytes}
use rfs.Node.Search.{IsSorted, lookup, lookup-head, lookup_low, lookup-nil}
use rfs.Node.Merged.{Cursor, Best, consider, best_of}

-- Every bset from here on is newer than `s`.
abbrev pub Newer : ℕ → List Cursor → Type 0
Newer s [] = Unit
Newer s (c ∷ cs) = (s < c.seq) × Newer s cs

-- The bsets are in the order of their numbers, and each is sorted.
abbrev pub IsOrdered : List Cursor → Type 0
IsOrdered [] = Unit
IsOrdered (c ∷ cs) = Newer c.seq cs × IsSorted c.rest × IsOrdered cs

-- The entry with a key in the newest bset that has one.
unfoldable pub latest : List Cursor → Bytes → Option DiskEntry
latest [] k = none
latest (c ∷ cs) k = elim (latest cs k) [ some e ↦ some e | none ↦ lookup c.rest k ]

-- Of two candidates, the one with the smaller key, the later one if the keys agree.
abbrev pub join : Best → Best → Best
join none y = y
join (some x) none = some x
join (some x) (some y) = elim (compare_bytes (key_bytes y.1) (key_bytes x.1)) [
  | gt ↦ some x
  | _ ↦ some y
]

join_assoc : (a b c : Best) → join (join a b) c ≡ join a (join b c)
join_assoc none b c = refl
join_assoc (some x) none c = refl
join_assoc (some x) (some y) none = ground arith
join_assoc (some x) (some y) (some z) =
    let kx = key_bytes x.1 in
    let ky = key_bytes y.1 in
    let kz = key_bytes z.1 in
    ground (
      arith,
      lt_trans kz ky kx,
      lt_trans kx ky kz,
      eq_of_compare ky kx,
      eq_of_compare kz ky,
      eq_of_compare kz kx,
      lt_of_gt ky kx,
      lt_of_gt kz ky,
      lt_of_gt kz kx,
      gt_of_lt kx kz,
      gt_of_lt kx ky,
      compare_refl kx,
    )

-- The best candidate of all cursors, from the last one on.
abbrev pub best_from : List Cursor → Best
best_from [] = none
best_from (c ∷ cs) = join (consider none c.seq c.rest) (best_from cs)

abbrev pub Older : Best → List Cursor → Type 0
Older none cs = Unit
Older (some (s, e)) cs = Newer s cs

-- `consider` is `join` with the head of a newer cursor.
consider_lem :
    (best : Best) (s : ℕ) (es : List DiskEntry) (cs : List Cursor)
    → Older best (record { seq = s; rest = es } ∷ cs)
    → consider best s es ≡ join best (consider none s es)
consider_lem none s [] cs o = refl
consider_lem none s (e ∷ es) cs o = refl
consider_lem (some x) s [] cs o = refl
consider_lem (some x) s (e ∷ es) cs o = ground arith

Older-join :
    (best : Best) (s : ℕ) (es : List DiskEntry) (cs : List Cursor)
    → Older best cs
    → Newer s cs
    → Older (join best (consider none s es)) cs
Older-join none s [] cs o n = tt
Older-join none s (e ∷ es) cs o n = n
Older-join (some x) s [] cs o n = o
Older-join (some x) s (e ∷ es) cs o n = ground arith

Older-tail : (best : Best) (c : Cursor) (cs : List Cursor) → Older best (c ∷ cs) → Older best cs
Older-tail none c cs o = tt
Older-tail (some x) c cs o = o.1

join-none : (b : Best) → join b none ≡ b
join-none none = refl
join-none (some x) = refl

-- The loop finds the best candidate.
pub best_of_lem :
    (best : Best) (cs : List Cursor)
    → Older best cs
    → IsOrdered cs
    → best_of best cs ≡ join best (best_from cs)
unfolding best_of
best_of_lem best [] o h = sym (join-none best)
best_of_lem best (c ∷ cs) o h =
    let here = consider_lem best c.seq c.rest cs o in
    let next_ = Older-join best c.seq c.rest cs (Older-tail best c cs o) h.0 in
    rw here (
      best_of_lem (join best (consider none c.seq c.rest)) cs next_ h.2
      ∙ join_assoc best (consider none c.seq c.rest) (best_from cs))

-- What the best candidate is: the entry of its key in the newest bset, and no key is smaller.
abbrev pub IsBest : List Cursor → Best → Type 0
IsBest cs none = (k : Bytes) → latest cs k ≡ none
IsBest cs (some (s, e)) =
    (latest cs (key_bytes e) ≡ some e) × ((k : Bytes) → k ≺ key_bytes e → latest cs k ≡ none)

pub best_from_lem : (cs : List Cursor) → IsOrdered cs → IsBest cs (best_from cs)
unfolding latest
best_from_lem [] h = λ k. refl
best_from_lem (c ∷ cs) h = go c.rest (best_from cs) h.1 (best_from_lem cs h.2)
  where
    go :
        (es : List DiskEntry) (b : Best)
        → IsSorted es
        → IsBest cs b
        → IsBest (record { seq = c.seq; rest = es } ∷ cs) (join (consider none c.seq es) b)
    go [] none s i = λ k. rw (i k) (lookup-nil k)
    go [] (some x) s i = (rw i.0, λ k l. rw (i.1 k l) (lookup-nil k))
    go (e ∷ es) none s i =
        (rw (i (key_bytes e)) (lookup-head e es), λ k l. rw (i k) (lookup_low e es k s.0 l))
    go (e ∷ es) (some (t, x)) s i = by (compare_bytes (key_bytes x) (key_bytes e)) refl
      where
        by :
            (o : Ordering)
            → compare_bytes (key_bytes x) (key_bytes e) ≡ o
            → IsBest
                (record { seq = c.seq; rest = e ∷ es } ∷ cs)
                (elim o [ gt ↦ some (c.seq, e) | _ ↦ some (t, x) ])
        by lt p = (
          rw i.0,
          λ k l. rw (i.1 k l) (lookup_low e es k s.0 (lt_trans k (key_bytes x) (key_bytes e) l p)),
        )
        by eq p =
            let same = eq_of_compare (key_bytes x) (key_bytes e) p in
            (rw i.0, λ k l. rw (i.1 k l) (lookup_low e es k s.0 (rw same at l)))
        by gt p =
            let low = lt_of_gt (key_bytes x) (key_bytes e) p in
            (
              rw (i.1 (key_bytes e) low) (lookup-head e es),
              λ k l.
                  rw (i.1 k (lt_trans k (key_bytes e) (key_bytes x) l low))
                    (lookup_low e es k s.0 l),
            )

abbrev pub From : Bytes → List DiskEntry → Type 0
From k [] = Unit
From k (e ∷ es) = compare_bytes (key_bytes e) k ≢ lt

-- No remaining key lies below `k`.
abbrev pub HeadsFrom : Bytes → List Cursor → Type 0
HeadsFrom k [] = Unit
HeadsFrom k (c ∷ cs) = From k c.rest × HeadsFrom k cs
