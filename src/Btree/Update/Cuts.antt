-- ===== src/Btree/Update/Cuts.antt =====
-- `split_leaf_node` on a leaf of a tree: two leaves, and a separator between their keys.
use rfs.Prelude.{
  ℕ, zero, suc, ◌-◌, ◌≤◌, ◌<◌, ◌≡◌, refl, ap, ◌∙◌, sym, List, [], ◌∷◌, ◌++◌, arith, length, take,
  drop, replicate, append_assoc, take-length, drop-length, length-append,
}
use rfs.Bytes.{Bytes, ◌≺◌}
use rfs.Bytes.Order.{compare_refl}
use rfs.Entry.{DiskEntry, empty, key_bytes}
use rfs.Node.{Bset, set_nkeys}
use rfs.Node.Search.{IsSorted, Above, lookup}
use rfs.Node.Merged.{merged}
use rfs.Node.Merged.Best.{latest}
use rfs.Node.Merged.Order.{merged_lem}
use rfs.Leaf.View.{IsLeaf, view}
use rfs.Btree.Split.{lower_half, upper_half}
use rfs.Btree.Bounds.{◌⪯◌, le_of_lt}
use rfs.Btree.Sound.{AllKeys}
use rfs.Btree.Update.Leaves.{AllKeys-of_lookup, lookup-AllKeys, merged-view}
use rfs.Btree.Update.Canonical.{leaf_of}

-- One sorted bset as a leaf.
pub run_lem :
    (g m : ℕ) (s : Bset) (es : List DiskEntry)
    → IsSorted es
    → s.seq < m
    → length es ≤ 29
    → IsLeaf (leaf_of g s es) m × ((j : Bytes) → lookup (merged (leaf_of g s es)) j ≡ lookup es j)
unfolding lookup view latest
run_lem g m s es o q f =
    let h : IsLeaf (leaf_of g s es) m = record {
      leaf = refl;
      ordered = (tt, o, tt);
      seqs = (q, tt);
      room = omega arith;
      few = omega arith;
    } in
    (h, λ j. merged-view (leaf_of g s es) m h j ∙ view_of j)
  where
    view_of : (j : Bytes) → view (leaf_of g s es) j ≡ lookup es j
    view_of j = refl

pub lower_lem :
    (g : ℕ) (s : Bset) (lows highs : List DiskEntry)
    → lower_half (leaf_of g s (lows ++ highs)) (length lows) ≡ leaf_of g s lows
unfolding lower_half set_nkeys
lower_lem g s lows highs =
    let fill = replicate {A = DiskEntry} (length lows) empty in
    ap (λ es. leaf_of g s es)
      (ap (λ es. take (length lows) es) (append_assoc lows highs fill)
        ∙ take-length lows (highs ++ fill))

pub upper_lem :
    (g : ℕ) (s : Bset) (lows highs : List DiskEntry)
    → upper_half (leaf_of g s (lows ++ highs)) (length lows) ≡ leaf_of g s highs
unfolding upper_half set_nkeys
upper_lem g s lows highs =
    let es = lows ++ highs in
    let n : length es - length lows ≡ length highs = omega (arith, length-append lows highs) in
    let d : drop (length lows) es ≡ highs = drop-length lows highs in
    ap (λ xs. leaf_of g s xs)
      (rw (n, d) (ap (λ xs. take (length highs) xs) (append_assoc highs _ _) ∙ take-length highs _))

-- Sorted entries around one of them.
pub record Around (lows : List DiskEntry) (x : DiskEntry) (highs : List DiskEntry) : Type 0 where
  pub lows_sorted : IsSorted lows
  pub highs_sorted : IsSorted (x ∷ highs)
  pub lows_under : AllKeys (λ k. k ≺ key_bytes x) lows
  pub highs_from : AllKeys (λ k. key_bytes x ⪯ k) (x ∷ highs)

Above-from : (k : Bytes) (es : List DiskEntry) → Above k es → AllKeys (λ j. k ⪯ j) es
Above-from k [] a = tt
Above-from k (e ∷ es) a = (le_of_lt k (key_bytes e) a.0, Above-from k es a.1)

pub around :
    (lows : List DiskEntry) (x : DiskEntry) (highs : List DiskEntry)
    → IsSorted (lows ++ x ∷ highs)
    → Around lows x highs
around [] x highs s = record {
  lows_sorted = tt;
  highs_sorted = s;
  lows_under = tt;
  highs_from = (ground (arith, compare_refl (key_bytes x)), Above-from (key_bytes x) highs s.0);
}
around (e ∷ lows) x highs s =
    let a = around lows x highs s.1 in
    record {
      lows_sorted = (first (key_bytes e) lows s.0, a.lows_sorted);
      highs_sorted = a.highs_sorted;
      lows_under = (mid (key_bytes e) lows s.0, a.lows_under);
      highs_from = a.highs_from;
    }
  where
    first : (k : Bytes) (es : List DiskEntry) → Above k (es ++ x ∷ highs) → Above k es
    first k [] b = tt
    first k (d ∷ es) b = (b.0, first k es b.1)

    mid : (k : Bytes) (es : List DiskEntry) → Above k (es ++ x ∷ highs) → k ≺ key_bytes x
    mid k [] b = b.0
    mid k (d ∷ es) b = mid k es b.1

pub AllKeys-and :
    (P Q R : Bytes → Type 0)
    → ((k : Bytes) → P k → Q k → R k)
    → (es : List DiskEntry) → AllKeys P es
    → AllKeys Q es
    → AllKeys R es
AllKeys-and P Q R f [] a b = tt
AllKeys-and P Q R f (e ∷ es) a b = (f (key_bytes e) a.0 b.0, AllKeys-and P Q R f es a.1 b.1)

pub AllKeys-parts :
    (Q : Bytes → Type 0) (xs ys : List DiskEntry)
    → AllKeys Q (xs ++ ys)
    → AllKeys Q xs × AllKeys Q ys
AllKeys-parts Q [] ys a = (tt, a)
AllKeys-parts Q (x ∷ xs) ys a = let p = AllKeys-parts Q xs ys a.1 in ((a.0, p.0), p.1)

-- A part of a cut leaf, in its range.
pub run-AllKeys :
    (Q : Bytes → Type 0) (g m : ℕ) (s : Bset) (es : List DiskEntry)
    → IsSorted es
    → s.seq < m
    → length es ≤ 29
    → AllKeys Q es
    → AllKeys Q (merged (leaf_of g s es))
run-AllKeys Q g m s es o q f a =
    let r = run_lem g m s es o q f in
    AllKeys-of_lookup Q (merged (leaf_of g s es)) (merged_lem (leaf_of g s es) r.0.ordered).0
      λ j d p. lookup-AllKeys Q es j d a (sym (r.1 j) ∙ p)

pub place_in :
    (i : ℕ) (es : List DiskEntry)
    → i < length es
    → (pre : List DiskEntry) × (x : DiskEntry) × (post : List DiskEntry) × (es ≡ pre ++ x ∷ post)
      × (length pre ≡ i)
place_in i [] h = absurd (omega arith)
place_in zero (e ∷ es) h = ([], e, es, refl, refl)
place_in (suc i) (e ∷ es) h =
    let (pre, x, post, p, n) = place_in i es (omega arith) in
    (e ∷ pre, x, post, ap (λ r. e ∷ r) p, ap suc n)
