-- ===== src/Btree/Bounds.antt =====
-- Ranges of keys, from a bound on and below another, either of which may be open.
use rfs.Prelude.{
  ◌≡◌, ◌≢◌, refl, Option, none, some, List, [], ◌∷◌, ◌++◌, arith, lt, eq, gt, Ordering, subst,
}
use rfs.Bytes.{Bytes, compare_bytes, ◌≺◌}
use rfs.Bytes.Order.{eq_of_compare, gt_of_lt, lt_of_gt, lt_trans}
use rfs.Entry.{DiskEntry, key_bytes}
use rfs.Node.Search.{lookup, Above, IsSorted}

infix 40 ◌⪯◌
abbrev pub ◌⪯◌ : Bytes → Bytes → Type 0
a ⪯ b = compare_bytes b a ≢ lt

pub lt_le_trans : (a b c : Bytes) → a ≺ b → b ⪯ c → a ≺ c
lt_le_trans a b c h g = by (compare_bytes c b) refl
  where
    by : (o : Ordering) → compare_bytes c b ≡ o → a ≺ c
    by lt p = absurd (g p)
    by eq p = rw (eq_of_compare c b p) h
    by gt p = lt_trans a b c h (lt_of_gt c b p)

pub le_lt_trans : (a b c : Bytes) → a ⪯ b → b ≺ c → a ≺ c
le_lt_trans a b c g h = by (compare_bytes b a) refl
  where
    by : (o : Ordering) → compare_bytes b a ≡ o → a ≺ c
    by lt p = absurd (g p)
    by eq p = subst (λ x. x ≺ c) (eq_of_compare b a p) h
    by gt p = lt_trans a b c (lt_of_gt b a p) h

pub le_of_lt : (a b : Bytes) → a ≺ b → a ⪯ b
le_of_lt a b h = ground (arith, gt_of_lt a b h)

abbrev pub FromLo : Option Bytes → Bytes → Type 0
FromLo none k = Unit
FromLo (some lo) k = lo ⪯ k

abbrev pub OverLo : Option Bytes → Bytes → Type 0
OverLo none k = Unit
OverLo (some lo) k = lo ≺ k

abbrev pub UnderHi : Option Bytes → Bytes → Type 0
UnderHi none k = Unit
UnderHi (some hi) k = k ≺ hi

abbrev pub AllWithin : Option Bytes → Option Bytes → List DiskEntry → Type 0
AllWithin lo hi [] = Unit
AllWithin lo hi (e ∷ es) = FromLo lo (key_bytes e) × UnderHi hi (key_bytes e) × AllWithin lo hi es

pub FromLo-trans : (lo : Option Bytes) (j k : Bytes) → OverLo lo j → j ⪯ k → FromLo lo k
FromLo-trans none j k h g = tt
FromLo-trans (some lo) j k h g = le_of_lt lo k (lt_le_trans lo j k h g)

pub OverLo-trans : (lo : Option Bytes) (j k : Bytes) → OverLo lo j → j ≺ k → OverLo lo k
OverLo-trans none j k h g = tt
OverLo-trans (some lo) j k h g = lt_trans lo j k h g

pub UnderHi-trans : (hi : Option Bytes) (j k : Bytes) → UnderHi hi j → k ≺ j → UnderHi hi k
UnderHi-trans none j k h g = tt
UnderHi-trans (some hi) j k h g = lt_trans k j hi g h

pub within_from :
    (lo hi : Option Bytes) (j : Bytes) (es : List DiskEntry)
    → OverLo lo j
    → AllWithin (some j) hi es
    → AllWithin lo hi es
within_from lo hi j [] h w = tt
within_from lo hi j (e ∷ es) h (a, b, w) =
    (FromLo-trans lo j (key_bytes e) h a, b, within_from lo hi j es h w)

pub within_under :
    (lo hi : Option Bytes) (j : Bytes) (es : List DiskEntry)
    → UnderHi hi j
    → AllWithin lo (some j) es
    → AllWithin lo hi es
within_under lo hi j [] h w = tt
within_under lo hi j (e ∷ es) h (a, b, w) =
    (a, UnderHi-trans hi j (key_bytes e) h b, within_under lo hi j es h w)

pub within-append :
    (lo hi : Option Bytes) (xs ys : List DiskEntry)
    → AllWithin lo hi xs
    → AllWithin lo hi ys
    → AllWithin lo hi (xs ++ ys)
within-append lo hi [] ys a b = b
within-append lo hi (x ∷ xs) ys (a, c, w) b = (a, c, within-append lo hi xs ys w b)

-- A key outside the range of the entries is none of theirs.
pub lookup_under :
    (hi : Option Bytes) (j k : Bytes) (es : List DiskEntry)
    → AllWithin (some j) hi es
    → k ≺ j
    → lookup es k ≡ none
unfolding lookup
lookup_under hi j k [] w h = refl
lookup_under hi j k (e ∷ es) (a, b, w) h =
    let g = gt_of_lt k (key_bytes e) (lt_le_trans k j (key_bytes e) h a) in
    rw (g, lookup) (lookup_under hi j k es w h)

pub lookup_over :
    (lo : Option Bytes) (j k : Bytes) (es : List DiskEntry)
    → AllWithin lo (some j) es
    → j ⪯ k
    → lookup es k ≡ none
unfolding lookup
lookup_over lo j k [] w h = refl
lookup_over lo j k (e ∷ es) (a, b, w) h =
    let g = lt_le_trans (key_bytes e) j k b h in rw (g, lookup) (lookup_over lo j k es w h)

-- A lookup in two runs goes to the second where the first has no such key.
abbrev pub or_else : Option DiskEntry → Option DiskEntry → Option DiskEntry
or_else none o = o
or_else (some e) o = some e

pub lookup-append :
    (xs ys : List DiskEntry) (k : Bytes) → lookup (xs ++ ys) k ≡ or_else (lookup xs k) (lookup ys k)
unfolding lookup
lookup-append [] ys k = refl
lookup-append (x ∷ xs) ys k = by (compare_bytes (key_bytes x) k) refl (lookup-append xs ys k)
  where
    by :
        (o : Ordering)
        → compare_bytes (key_bytes x) k ≡ o
        → lookup (xs ++ ys) k ≡ or_else (lookup xs k) (lookup ys k)
        → lookup (x ∷ xs ++ ys) k ≡ or_else (lookup (x ∷ xs) k) (lookup ys k)
    by o p ih = ground (arith, p, ih)

Above-within :
    (j : Bytes) (hi : Option Bytes) (es : List DiskEntry) (k : Bytes)
    → k ≺ j
    → AllWithin (some j) hi es
    → Above k es
Above-within j hi [] k h w = tt
Above-within j hi (e ∷ es) k h (a, b, w) =
    (lt_le_trans k j (key_bytes e) h a, Above-within j hi es k h w)

Above-append : (k : Bytes) (xs ys : List DiskEntry) → Above k xs → Above k ys → Above k (xs ++ ys)
Above-append k [] ys a b = b
Above-append k (x ∷ xs) ys a b = (a.0, Above-append k xs ys a.1 b)

-- Two sorted runs that a bound separates make a sorted run.
pub IsSorted-append :
    (lo hi : Option Bytes) (j : Bytes) (xs ys : List DiskEntry)
    → IsSorted xs
    → IsSorted ys
    → AllWithin lo (some j) xs
    → AllWithin (some j) hi ys
    → IsSorted (xs ++ ys)
IsSorted-append lo hi j [] ys s t w v = t
IsSorted-append lo hi j (x ∷ xs) ys s t (a, b, w) v = (
  Above-append (key_bytes x) xs ys s.0 (Above-within j hi ys (key_bytes x) b v),
  IsSorted-append lo hi j xs ys s.1 t w v,
)
