-- ===== src/Fs/Gc/Live.antt =====
-- What a file system refers to: the nodes of its tree, and the data blocks of its live extents.
use rfs.Prelude.{
  ℕ, zero, suc, ◌+◌, ◌<◌, ◌≡◌, refl, ap, ◌∙◌, sym, Bool, true, false, ◌&&◌, ◌||◌, Option, none,
  some, List, [], ◌∷◌, ◌++◌, arith, map, Bool-cases, inl, inr, replicate, ◌==◌,
}
use rfs.Prelude.Outcome.{Outcome, ok, err, panic}
use rfs.Bytes.{Bytes}
use rfs.Entry.{DiskEntry, child, key_bytes}
use rfs.Entry.Kind.{is_live}
use rfs.Visible.{Row}
use rfs.Leaf.{contains}
use rfs.Node.{single}
use rfs.Btree.{NodeStore, with_node, children}
use rfs.Btree.Read as Read
use rfs.Btree.Handle as Btree
use rfs.Btree.Flush.{collect_all, collect_node_blocks}
use rfs.Btree.Lookup.{level_zero, level_suc}
use rfs.Btree.Range.{between, scan_entries_lem}
use rfs.Btree.Shape.{IsTree, Branches, entries_of}
use rfs.Fs.Keys.{kind_extent}
use rfs.Fs.Values.{ExtentV1, extent_of_bytes}
use rfs.Fs.Gc.{live_data}

-- The blocks of the nodes of a tree, from its levels.
abbrev gather_blocks : (ℕ → List ℕ) → List DiskEntry → List ℕ
gather_blocks f [] = []
gather_blocks f (e ∷ es) = f (child e) ++ gather_blocks f es

unfoldable pub nodes_of : ℕ → NodeStore → ℕ → List ℕ
nodes_of zero s nr = nr ∷ []
nodes_of (suc l) s nr = nr ∷ (elim (with_node s nr) [
  | ok n ↦ gather_blocks (λ c. nodes_of l s c) (single n)
  | err e ↦ []
  | panic ↦ []
])

-- What `children` returns for the slots of a node.
abbrev children_of : List DiskEntry → Outcome (List ℕ)
children_of es = elim es [ [] ↦ panic | e ∷ rest ↦ ok (map child (e ∷ rest)) ]

gathered :
    (P : Option Bytes → Option Bytes → ℕ → Type 0) (f : ℕ → List ℕ) (walk : ℕ → Outcome (List ℕ))
    (walks : (lo hi : Option Bytes) (c : ℕ) → P lo hi c → walk c ≡ ok (f c)) (lo hi : Option Bytes)
    (es : List DiskEntry)
    → Branches P lo hi es
    → (collect_all walk (map child es) ≡ ok (gather_blocks f es))
      × (children_of es ≡ ok (map child es))
unfolding collect_all
gathered P f walk walks lo hi [] b = absurd b
gathered P f walk walks lo hi (e ∷ []) b = (rw (walks lo hi (child e) b) refl, refl)
gathered P f walk walks lo hi (e ∷ g ∷ es) (o, u, p, b) =
    let here = walks lo (some (key_bytes e)) (child e) p in
    let rest = gathered P f walk walks (some (key_bytes e)) hi (g ∷ es) b in
    (rw here (rw (rest.0) refl), refl)

-- The walk over the nodes of a tree.
pub collect_node_blocks_lem :
    (l fuel : ℕ) (s : NodeStore) (lo hi : Option Bytes) (nr : ℕ)
    → IsTree l s lo hi nr
    → l < fuel
    → collect_node_blocks fuel s nr ≡ ok (nodes_of l s nr)
unfolding collect_node_blocks nodes_of children
collect_node_blocks_lem l zero s lo hi nr t h = absurd (omega arith)
collect_node_blocks_lem zero (suc fuel) s lo hi nr (n, r, lv, o, w) h =
    rw r (rw (level_zero n lv) refl)
collect_node_blocks_lem (suc l) (suc fuel) s lo hi nr (n, r, lv, b) h =
    let g =
      gathered (λ x y c. IsTree l s x y c) (λ c. nodes_of l s c) (λ c. collect_node_blocks fuel s c)
        (λ x y c t. collect_node_blocks_lem l fuel s x y c t (omega arith)) lo hi (single n) b in
    let cs : children n ≡ ok (map child (single n)) = g.1 in
    let all : collect_node_blocks (suc fuel) s nr
        ≡ ok (nr ∷ gather_blocks (λ c. nodes_of l s c) (single n)) =
      rw r (rw (level_suc n l lv) (rw cs (rw (g.0) refl))) in
    let spec : nodes_of (suc l) s nr ≡ nr ∷ gather_blocks (λ c. nodes_of l s c) (single n) =
      rw (r, nodes_of) refl in
    all ∙ ap ok (sym spec)

-- An extent's row that is live and has its data at a block.
abbrev points_at : Bytes → ℕ → Bool
points_at value i = elim (extent_of_bytes value) [ none ↦ false | some x ↦ x.data_block == i ]

abbrev pub refers : List Row → ℕ → Bool
refers [] i = false
refers (r ∷ rows) i = (is_live r.kind && points_at r.value i) || refers rows i

-- The values of the live rows are extents.
abbrev pub AllExtents : List Row → Type 0
AllExtents [] = Unit
AllExtents (r ∷ rows) =
    (is_live r.kind ≡ true → (x : ExtentV1) × (extent_of_bytes r.value ≡ some x)) × AllExtents rows

pub live_data_lem :
    (rows : List Row)
    → AllExtents rows
    → (xs : List ℕ) × (live_data rows ≡ ok xs) × ((i : ℕ) → contains xs i ≡ refers rows i)
unfolding live_data
live_data_lem [] a = ([], refl, λ i. refl)
live_data_lem (r ∷ rows) (d, a) =
    let (xs, e, c) = live_data_lem rows a in
    elim (Bool-cases (is_live r.kind)) [
      | inl q ↦
          let (x, p) = d q in
          (x.data_block ∷ xs, rw e (rw q (rw p refl)), λ i. ground (arith, q, p, c i))
      | inr q ↦ (xs, rw e (rw q refl), λ i. ground (arith, q, c i))
    ]

-- The rows with an extent's key, in a tree at level `l`.
abbrev pub extent_rows : ℕ → NodeStore → ℕ → List Row
extent_rows l s nr =
    map (λ e. Read.row_of e)
      (between (kind_extent ∷ replicate 4 0) ((kind_extent + 1) ∷ replicate 4 0)
        (entries_of l s nr))

-- The scan that `gc` makes over all extents.
pub extent_rows_lem :
    (l fuel : ℕ) (t : Btree.Btree)
    → IsTree l t.store none none t.root_block
    → l < fuel
    → Btree.range_scan_all fuel (kind_extent ∷ []) ((kind_extent + 1) ∷ []) t
      ≡ ok (extent_rows l t.store t.root_block)
unfolding Btree.range_scan_all Read.range_scan_all
extent_rows_lem l fuel t w h =
    let start = kind_extent ∷ replicate 4 0 in
    let end = (kind_extent + 1) ∷ replicate 4 0 in
    rw (scan_entries_lem start end l fuel t.store none none t.root_block w h) refl

-- A block that the file system refers to: in the free list's chain, free, with a live extent's data,
-- or with a node of the tree.
abbrev pub is_referred : ℕ → List ℕ → Btree.Btree → ℕ → Bool
is_referred l chain t i =
    contains chain i
    || (contains t.store.free_list i
        || (refers (extent_rows l t.store t.root_block) i
            || contains (nodes_of l t.store t.root_block) i))
