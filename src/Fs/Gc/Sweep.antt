-- ===== src/Fs/Gc/Sweep.antt =====
-- The sweep frees exactly the blocks in use that nothing refers to.
use rfs.Prelude.{
  ℕ, zero, suc, ◌+◌, ◌-◌, ◌≤◌, ◌<◌, ◌≡◌, refl, ap, ◌∙◌, sym, Bool, true, false, not, ◌&&◌, ◌||◌,
  none, some, List, [], ◌∷◌, ◌++◌, arith, length, ltb, leb, ◌==◌, if◌then◌else◌, get_elem?,
  Bool-cases, inl, inr, subst,
}
use rfs.Prelude.Outcome as Outcome
use rfs.Prelude.Outcome.{Outcome, ok, ◌>>=◌}
use rfs.Leaf.{contains}
use rfs.Store.{get, first_data_block_nr}
use rfs.Store.Coherent.{get-remove_apart}
use rfs.Fs.State.{Fs}
use rfs.Fs.Files.{free_data_block}
use rfs.Btree.Shape.{IsTree}
use rfs.Fs.Gc.Live.{
  nodes_of, extent_rows, AllExtents, is_referred, collect_node_blocks_lem, extent_rows_lem,
  live_data_lem,
}
use rfs.Fs.Gc.Marks.{is_live_block, marks_lem}
use rfs.Fs.Gc.{sweep, marks, mark_and_sweep}

contains-push : (xs : List ℕ) (nr i : ℕ) → contains (xs ++ nr ∷ []) i ≡ (contains xs i || (nr == i))
contains-push [] nr i = ground arith
contains-push (x ∷ xs) nr i = ground (arith, contains-push xs nr i)

length-push : (xs : List ℕ) (nr : ℕ) → length (xs ++ nr ∷ []) ≡ length xs + 1
length-push [] nr = refl
length-push (x ∷ xs) nr = let h = length-push xs nr in omega (arith, h)

-- A dead block in the range.
abbrev pub is_dead : (ℕ → Bool) → (lo hi : ℕ) → ℕ → Bool
is_dead live lo hi i = leb lo i && (ltb i hi && not (live i))

is_dead_none : (live : ℕ → Bool) (nr i : ℕ) (c : Bool) → c ≡ (c || is_dead live nr (nr + 0) i)
is_dead_none live nr i c = ground arith

is_dead_first :
    (live : ℕ → Bool) (nr n i : ℕ)
    → is_dead live nr (nr + suc n) i
      ≡ (((nr == i) && not (live nr)) || is_dead live (nr + 1) ((nr + 1) + n) i)
is_dead_first live nr n i = elim (Bool-cases (nr == i)) [
  | inl e ↦
      let p : nr ≡ i = ground arith in
      subst
        (λ j.
          is_dead live nr (nr + suc n) j
          ≡ (((nr == j) && not (live nr)) || is_dead live (nr + 1) ((nr + 1) + n) j))
        p (ground arith)
  | inr e ↦ ground arith
]

-- What the sweep of the blocks of a range leaves: the free list has gained the dead ones of the range,
-- and what the live blocks hold is as before.
pub record Swept (live : ℕ → Bool) (lo hi : ℕ) (r r' : ℕ × Fs) : Type 0 where
  pub free_is :
      (i : ℕ)
      → contains r'.1.tree.store.free_list i
        ≡ (contains r.1.tree.store.free_list i || is_dead live lo hi i)
  pub counted : length r'.1.tree.store.free_list + r.0 ≡ length r.1.tree.store.free_list + r'.0
  pub nodes_kept :
      (i : ℕ) → live i ≡ true → get r'.1.tree.store.nodes i ≡ get r.1.tree.store.nodes i
  pub data_kept : (i : ℕ) → live i ≡ true → get r'.1.data_blocks i ≡ get r.1.data_blocks i
  pub root_kept : r'.1.tree.root_block ≡ r.1.tree.root_block

assoc_or : (a b c d : Bool) → a ≡ (b || c) → (a || d) ≡ (b || (c || d))
assoc_or a true c d h = ground (arith, h)
assoc_or a false c d h = ap (λ x. x || d) h

Swept-keep :
    (live : ℕ → Bool) (nr n : ℕ) (r r' : ℕ × Fs)
    → live nr ≡ true
    → Swept live (nr + 1) ((nr + 1) + n) r r'
    → Swept live nr (nr + suc n) r r'
Swept-keep live nr n r r' h w = record {
  free_is = λ i.
      w.free_is i
      ∙ ap (λ x. contains r.1.tree.store.free_list i || x)
          (sym (is_dead_first live nr n i ∙ ground (arith, h)));
  counted = w.counted;
  nodes_kept = w.nodes_kept;
  data_kept = w.data_kept;
  root_kept = w.root_kept;
}

Swept-drop :
    (live : ℕ → Bool) (nr n : ℕ) (r r' : ℕ × Fs)
    → live nr ≡ false
    → Swept live (nr + 1) ((nr + 1) + n) (r.0 + 1, free_data_block nr r.1) r'
    → Swept live nr (nr + suc n) r r'
unfolding free_data_block
Swept-drop live nr n r r' h w =
    let apart = λ (i : ℕ) (l : live i ≡ true) (e : i ≡ nr). (let p : ⊥ = cc in p) in
    record {
      free_is = λ i.
          w.free_is i
          ∙ assoc_or _ (contains r.1.tree.store.free_list i) (nr == i) _
              (contains-push r.1.tree.store.free_list nr i)
          ∙ ap (λ x. contains r.1.tree.store.free_list i || x)
              (sym (is_dead_first live nr n i ∙ ground (arith, h)));
      counted =
          let x = w.counted in
          let y = length-push r.1.tree.store.free_list nr in omega (arith, x, y);
      nodes_kept =
          λ i l. w.nodes_kept i l ∙ get-remove_apart r.1.tree.store.nodes nr i (λ e. apart i l e);
      data_kept = λ i l. w.data_kept i l ∙ get-remove_apart r.1.data_blocks nr i (λ e. apart i l e);
      root_kept = w.root_kept;
    }

sweep_lem :
    (mark : List Bool) (live : ℕ → Bool) (n nr : ℕ) (r : ℕ × Fs)
    → ((i : ℕ) → nr ≤ i → i < nr + n → get_elem? mark i ≡ some (live i))
    → (r' : ℕ × Fs) × (sweep mark n nr r ≡ ok r') × Swept live nr (nr + n) r r'
unfolding sweep
sweep_lem mark live zero nr r h = (
  r,
  refl,
  record {
    free_is = λ i. is_dead_none live nr i (contains r.1.tree.store.free_list i);
    counted = refl;
    nodes_kept = λ i l. refl;
    data_kept = λ i l. refl;
    root_kept = refl;
  },
)
sweep_lem mark live (suc n) nr r h =
    let next =
      λ (m : Bool). sweep mark n (nr + 1) (if m then r else (r.0 + 1, free_data_block nr r.1)) in
    let step : sweep mark (suc n) nr r ≡ next (live nr) =
      ap (λ o. Outcome.or_panic o >>= next) (h nr (omega arith) (omega arith)) in
    let later =
      λ (s : ℕ × Fs). sweep_lem mark live n (nr + 1) s (λ i a b. h i (omega arith) (omega arith)) in
    elim (Bool-cases (live nr)) [
      | inl p ↦
          let (r', e, w) = later r in (r', step ∙ ap next p ∙ e, Swept-keep live nr n r r' p w)
      | inr p ↦
          let (r', e, w) = later (r.0 + 1, free_data_block nr r.1) in
          (r', step ∙ ap next p ∙ e, Swept-drop live nr n r r' p w)
    ]

clip : (live : ℕ → Bool) (lo hi i : ℕ) → is_dead live lo (lo + (hi - lo)) i ≡ is_dead live lo hi i
clip live lo hi i = ground arith

-- Over a tree whose extents' live rows hold extents, with fuel above its level, the pass succeeds:
-- it adds to the free list exactly the blocks behind the journal and below the allocator's counter
-- that are no node of the tree, not at the data block of a live row with an extent's key, not free
-- already and not in the free list's chain, counts them, and leaves the root and what the blocks
-- that are referred to hold.
pub mark_and_sweep-Swept :
    (l fuel : ℕ) (chain : List ℕ) (f : Fs)
    → IsTree l f.tree.store none none f.tree.root_block
    → l < fuel
    → AllExtents (extent_rows l f.tree.store f.tree.root_block)
    → (r : ℕ × Fs) × (mark_and_sweep fuel chain f ≡ ok r)
      × Swept (is_referred l chain f.tree) first_data_block_nr f.tree.store.next_block_nr (0, f) r
unfolding mark_and_sweep
mark_and_sweep-Swept l fuel chain f t deep d =
    let hwm = f.tree.store.next_block_nr in
    let fl = f.tree.store.free_list in
    let root = f.tree.root_block in
    let nodes = nodes_of l f.tree.store root in
    let rows = extent_rows l f.tree.store root in
    let (extents, he, same) = live_data_lem rows d in
    let hn = collect_node_blocks_lem l fuel f.tree.store none none root t deep in
    let hr = extent_rows_lem l fuel f.tree t deep in
    let live = is_referred l chain f.tree in
    let referred : (i : ℕ) → is_live_block nodes extents fl chain i ≡ live i =
      λ i. ap (λ x. contains chain i || (contains fl i || (x || contains nodes i))) (same i) in
    let (r, e, w) =
      sweep_lem (marks hwm nodes extents fl chain) live (hwm - first_data_block_nr)
        first_data_block_nr (0, f)
        (λ i a b.
          marks_lem hwm nodes extents fl chain i a (omega arith) ∙ ap (λ x. some x) (referred i)) in
    (
      r,
      rw hn (rw hr (rw he e)),
      record {
        free_is =
            λ i. w.free_is i ∙ ap (λ x. contains fl i || x) (clip live first_data_block_nr hwm i);
        counted = w.counted;
        nodes_kept = w.nodes_kept;
        data_kept = w.data_kept;
        root_kept = w.root_kept;
      },
    )
