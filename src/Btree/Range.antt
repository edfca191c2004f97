-- ===== src/Btree/Range.antt =====
-- The range scans from the root against the entries of all leaves.
use rfs.Prelude.{
  ℕ, zero, suc, ◌≤◌, ◌<◌, ◌≡◌, ◌≢◌, refl, ap, ◌∙◌, sym, false, not, ◌&&◌, Option, some, List, [],
  ◌∷◌, ◌++◌, arith, length, drop, min, if◌then◌else◌, append-nil, drop_all, Bool-cases, inl, inr,
  ◌⊎◌,
}
use rfs.Prelude.Outcome.{Outcome, ok, panic}
use rfs.Bytes.{Bytes}
use rfs.Bytes.Order.{gt_of_lt}
use rfs.Entry.{DiskEntry, key_bytes, child}
use rfs.Node.{Node, single, search_internal, child_index}
use rfs.Node.Search.{Above, IsSorted}
use rfs.Node.Merged.{merged}
use rfs.Node.Merged.Order.{merged_lem}
use rfs.Btree.{NodeStore}
use rfs.Btree.Read.{below, leaf_rows, plan, scan_plan, scan_entries}
use rfs.Btree.Route.{seek, seek_lem, separators}
use rfs.Btree.Bounds.{◌⪯◌, AllWithin, lt_le_trans, le_lt_trans}
use rfs.Btree.Shape.{IsTree, Branches, gather, entries_of, entries_of-leaf, entries_of-internal}
use rfs.Btree.Shape.Choice.{separators-IsSorted, entries_of-within, gather-within}
use rfs.Btree.Lookup.{level_zero, level_suc}

-- The entries from `start` on and below `end`.
unfoldable pub between : Bytes → Bytes → List DiskEntry → List DiskEntry
between start end [] = []
between start end (e ∷ es) =
    let rest : List DiskEntry = between start end es in
    if not (below (key_bytes e) start) && below (key_bytes e) end then e ∷ rest else rest

module _ (start end : Bytes) where
  pub between-append :
      (xs ys : List DiskEntry)
      → between start end (xs ++ ys) ≡ between start end xs ++ between start end ys
  unfolding between
  between-append [] ys = refl
  between-append (x ∷ xs) ys = ground (arith, between-append xs ys)

  not_below : (a b : Bytes) → b ⪯ a → below a b ≡ false
  not_below a b h = ground arith

  beyond_end : (k : Bytes) (es : List DiskEntry) → end ⪯ k → Above k es → between start end es ≡ []
  unfolding between
  beyond_end k [] h a = refl
  beyond_end k (e ∷ es) h a =
      let g = gt_of_lt end (key_bytes e) (le_lt_trans end k (key_bytes e) h a.0) in
      ground (arith, g, beyond_end k es h a.1)

  over_end :
      (hi : Option Bytes) (j : Bytes) (es : List DiskEntry)
      → end ⪯ j
      → AllWithin (some j) hi es
      → between start end es ≡ []
  unfolding between
  over_end hi j [] h w = refl
  over_end hi j (e ∷ es) h (a, b, w) =
      let g : end ⪯ key_bytes e = λ p. a (lt_le_trans (key_bytes e) end j p h) in
      ground (arith, g, over_end hi j es h w)

  under_start :
      (lo : Option Bytes) (j : Bytes) (es : List DiskEntry)
      → j ⪯ start
      → AllWithin lo (some j) es
      → between start end es ≡ []
  unfolding between
  under_start lo j [] h w = refl
  under_start lo j (e ∷ es) h (a, b, w) =
      let g = lt_le_trans (key_bytes e) j start b h in ground (arith, g, under_start lo j es h w)

  leaf_rows_lem :
      (es : List DiskEntry) → IsSorted es → leaf_rows start end es ≡ between start end es
  unfolding leaf_rows between
  leaf_rows_lem [] s = refl
  leaf_rows_lem (e ∷ es) s =
      let past = λ (h : end ⪯ key_bytes e). beyond_end (key_bytes e) es h s.0 in
      ground (arith, past, leaf_rows_lem es s.1)

  module _ (P : Option Bytes → Option Bytes → ℕ → Type 0) (f : ℕ → List DiskEntry)
      (good : (lo hi : Option Bytes) (c : ℕ) → P lo hi c → AllWithin lo hi (f c))
      (good_all : (lo hi : Option Bytes) (es : List DiskEntry)
        → Branches P lo hi es
        → AllWithin lo hi (gather f es))
      (scan : ℕ → Outcome (List DiskEntry))
      (scans : (lo hi : Option Bytes) (c : ℕ)
        → P lo hi c
        → scan c ≡ ok (between start end (f c))) where
    scan_plan_lem :
        (lo hi : Option Bytes) (es : List DiskEntry)
        → Branches P lo hi es
        → scan_plan scan end es ≡ ok (between start end (gather f es))
    unfolding scan_plan
    scan_plan_lem lo hi [] b = absurd b
    scan_plan_lem lo hi (e ∷ []) b =
        scans lo hi (child e) b
        ∙ ap (λ r. ok (between start end r)) (sym (append-nil (f (child e))))
    scan_plan_lem lo hi (e ∷ g ∷ es) (o, u, p, b) =
        let here = scans lo (some (key_bytes e)) (child e) p in
        let rest = scan_plan_lem (some (key_bytes e)) hi (g ∷ es) b in
        let split = between-append (f (child e)) (gather f (g ∷ es)) in
        elim (Bool-cases (below (key_bytes e) end)) [
          | inl q ↦ rw (here, scan_plan) (rw (q, rest, split) refl)
          | inr q ↦
              let none_left =
                over_end hi (key_bytes e) (gather f (g ∷ es)) (ground arith)
                  (good_all (some (key_bytes e)) hi (g ∷ es) b) in
              rw (here, scan_plan)
                (rw (q, split, none_left) (rw (append-nil (between start end (f (child e)))) refl))
        ]

    -- The children before the one that `start` leads to have nothing in the range.
    seek_scan :
        (lo hi : Option Bytes) (es : List DiskEntry)
        → Branches P lo hi es
        → scan_plan scan end (seek es start) ≡ ok (between start end (gather f es))
    seek_scan lo hi [] b = absurd b
    seek_scan lo hi (e ∷ []) b = scan_plan_lem lo hi (e ∷ []) b
    seek_scan lo hi (e ∷ g ∷ es) (o, u, p, b) = elim (Bool-cases (below start (key_bytes e))) [
      | inl q ↦ rw q (scan_plan_lem lo hi (e ∷ g ∷ es) (o, u, p, b))
      | inr q ↦
          let skipped =
            under_start lo (key_bytes e) (f (child e)) (ground arith)
              (good lo (some (key_bytes e)) (child e) p) in
          let split = between-append (f (child e)) (gather f (g ∷ es)) in
          rw (q, split, skipped) (seek_scan (some (key_bytes e)) hi (g ∷ es) b)
    ]

seek_some : (e : DiskEntry) (es : List DiskEntry) (k : Bytes) → seek (e ∷ es) k ≢ []
seek_some e [] k h = cc
seek_some e (g ∷ es) k h = elim (Bool-cases (below k (key_bytes e))) [
  | inl q ↦ cons_nil (rw q at h)
  | inr q ↦ seek_some g es k (rw q at h)
]
  where
    cons_nil : e ∷ g ∷ es ≡ [] → ⊥
    cons_nil r = cc

cut :
    (i : ℕ) (es : List DiskEntry) (k : Bytes)
    → es ≢ []
    → drop i es ≡ seek es k
    → (elim es as (λ x. Outcome (List DiskEntry)) [
      | [] ↦ panic
      | f ∷ fs ↦ ok (drop (min i (length fs)) (f ∷ fs))
    ])
      ≡ ok (seek es k)
cut i [] k ne h = absurd (ne refl)
cut i (e ∷ es) k ne h = elim (nat_le i (length es)) [
  | inl small ↦ let m : min i (length es) ≡ i = omega arith in rw (m, h) refl
  | inr big ↦ absurd (seek_some e es k (sym h ∙ drop_all i (e ∷ es) (omega arith)))
]
  where
    nat_le : (a b : ℕ) → (a ≤ b) ⊎ (b < a)
    nat_le a b = ground arith

-- The plan of a scan begins where a lookup of its start descends.
plan_lem :
    (n : Node) (start : Bytes)
    → single n ≢ []
    → IsSorted (separators (single n))
    → plan n start ≡ ok (seek (single n) start)
unfolding plan
plan_lem n start ne s =
    cut (child_index (search_internal n start)) (single n) start ne (seek_lem n start s)

Branches-some :
    (P : Option Bytes → Option Bytes → ℕ → Type 0) (lo hi : Option Bytes) (es : List DiskEntry)
    → Branches P lo hi es
    → es ≢ []
Branches-some P lo hi [] b h = b
Branches-some P lo hi (e ∷ es) b h = cc

-- In a tree with its root at some level, a scan with fuel above the level succeeds, and walks over
-- exactly the entries of the leaves whose keys lie in the range, in their order.
pub scan_entries_lem :
    (start end : Bytes) (l fuel : ℕ) (s : NodeStore) (lo hi : Option Bytes) (nr : ℕ)
    → IsTree l s lo hi nr
    → l < fuel
    → scan_entries fuel s nr start end ≡ ok (between start end (entries_of l s nr))
unfolding scan_entries
scan_entries_lem start end l zero s lo hi nr t h = absurd (omega arith)
scan_entries_lem start end zero (suc fuel) s lo hi nr (n, r, lv, o, w) h =
    let rows = leaf_rows_lem start end (merged n) (merged_lem n o).0 in
    rw (entries_of-leaf s nr n r, r, scan_entries) (rw (level_zero n lv) (rw rows refl))
scan_entries_lem start end (suc l) (suc fuel) s lo hi nr (n, r, lv, b) h =
    let planned =
      plan_lem n start (Branches-some (λ x y c. IsTree l s x y c) lo hi (single n) b)
        (separators-IsSorted l s lo hi (single n) b) in
    let scanned =
      seek_scan start end (λ x y c. IsTree l s x y c) (λ c. entries_of l s c)
        (entries_of-within l s) (gather-within l s) (λ c. scan_entries fuel s c start end)
        (λ x y c t. scan_entries_lem start end l fuel s x y c t (omega arith)) lo hi (single n) b in
    rw (entries_of-internal l s nr n r, r, scan_entries)
      (rw (level_suc n l lv) (rw planned scanned))
