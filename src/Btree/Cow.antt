-- ===== src/Btree/Cow.antt =====
-- Copy-on-write inserts and flips write to fresh blocks only.
use rfs.Prelude.{ℕ, zero, suc, ◌+◌, ◌*◌, ◌/◌, ◌≤◌, arith, ltb, leb, ◌==◌, get_elem?, drop}
use rfs.Prelude.Outcome.{
  Outcome, ok, err, panic, ◌>>=◌, or_panic, Ends, Ends-bind, Ends-any, Ends-if,
}
use rfs.Bytes.{Bytes}
use rfs.Entry.{set_key, empty, key_bytes}
use rfs.Entry.Kind.{EntryKind}
use rfs.Node.{Node, nkeys, set_nkeys, single, set_child_block, max_internal_keys}
use rfs.Leaf.{must_split, apply_write}
use rfs.Btree.{NodeStore, cow, alloc, with_node, write_fresh, route}
use rfs.Btree.Split.{
  Edit, Halves, one_bset, write_halves, split_leaf_node, split_internal_node, promote_to_parent,
  canonical, lower_half, upper_half, copy_slots, place_split, with_halves,
}
use rfs.Btree.Insert.{
  Moved, land, promoted, absorb_split, insert_half, insert_leaf, insert_internal, insert,
}
use rfs.Btree.Flip.{flip, patch, flip_kind_in_place}
use rfs.Btree.Fresh.{
  Extends, Extends-refl, Extends-trans, Extends-more, Extends-alloc, Extends-write,
  Extends-write_fresh, Fresh, Fresh-alloc, Fresh-later, Fresh-more,
}

-- The halves of a split of a tree in `s`.
abbrev NewHalves : NodeStore → Halves → Type 0
NewHalves s h = Extends 3 s h.store × Fresh 3 s h.root_nr

write_halves-NewHalves :
    (s : NodeStore) (level generation : ℕ) (median : Bytes) (l r : Node)
    → Ends (NewHalves s) (write_halves s level generation median l r)
unfolding write_halves
write_halves-NewHalves s level generation median l r =
    let left = write_fresh s l in
    let right = write_fresh left.1 r in
    let two =
      Extends-trans 1 1 s left.1 right.1 (Extends-write_fresh s l) (Extends-write_fresh left.1 r) in
    Ends-any (NewHalves s) (set_key empty median) _ λ e. (
      Extends-trans 2 1 s right.1 (alloc right.1).1 two (Extends-alloc right.1),
      Fresh-later 2 1 s right.1 (alloc right.1).0 two (Fresh-alloc 1 right.1),
    )

split_leaf_node-NewHalves :
    (e : Edit) (n : Node) → Ends (λ h. NewHalves e.store h.0) (split_leaf_node e n)
unfolding split_leaf_node
split_leaf_node-NewHalves e n = Ends-any _ (canonical n e.next_bset_seq) _ λ c.
    Ends-any _ (or_panic (get_elem? (single c.0) (nkeys c.0 / 2))) _ λ median.
      Ends-bind (NewHalves e.store) _ _ _
        (write_halves-NewHalves e.store 1 c.0.generation (key_bytes median)
          (lower_half c.0 (nkeys c.0 / 2)) (upper_half c.0 (nkeys c.0 / 2)))
        λ h w. w

split_internal_node-NewHalves :
    (s : NodeStore) (n : Node) → Ends (NewHalves s) (split_internal_node s n)
unfolding split_internal_node
split_internal_node-NewHalves s n =
    Ends-any (NewHalves s) (or_panic (get_elem? (single n) (nkeys n / 2))) _ λ median.
      Ends-any (NewHalves s) (copy_slots (drop (nkeys n / 2 + 1) (single n))) _ λ upper.
        write_halves-NewHalves s (n.level + 1) n.generation (key_bytes median)
          (set_nkeys n (nkeys n / 2)) (one_bset n.level n.generation upper)

promote_lem :
    (s : NodeStore) (parent : Node) (i : ℕ) (median : Bytes) (l r : ℕ)
    → Ends (λ m. Extends 4 s m.1) (promote_to_parent s parent i median l r)
unfolding promote_to_parent
promote_lem s parent i median l r =
    let s1 = (alloc s).1 in
    Ends-any (λ m. Extends 4 s m.1) (place_split i median l r (single parent)) _
      λ es.
        let n : Node = one_bset parent.level parent.generation es in
        Ends-if (λ m. Extends 4 s m.1) (leb (nkeys n) max_internal_keys) _ _
          (Extends-more 1 4 s _ (omega arith)
            (Extends-write 1 s s1 (alloc s).0 n (Fresh-alloc 1 s) (Extends-alloc s)))
          (Ends-bind (NewHalves s1) (λ m. Extends 4 s m.1) (split_internal_node s1 n) _
            (split_internal_node-NewHalves s1 n)
            λ h w.
              Extends-write 4 s h.store h.root_nr (with_halves h)
                (Fresh-later 1 3 s s1 h.root_nr (Extends-alloc s) w.1)
                (Extends-trans 1 3 s s1 h.store (Extends-alloc s) w.0))

-- The store behind an edit that began in `s`.
abbrev pub Edits : ℕ → NodeStore → Moved → Type 0
Edits m s r = Extends m s r.1.store

weaken :
    (m k : ℕ) (s : NodeStore) (o : Outcome Moved) → m ≤ k → Ends (Edits m s) o → Ends (Edits k s) o
weaken m k s (ok r) l w = Extends-more m k s r.1.store l w
weaken m k s (err x) l w = tt
weaken m k s panic l w = tt

absorb_lem :
    (e : Edit) (parent : Node) (i new_child : ℕ)
    → Ends (Edits 4 e.store) (absorb_split e parent i new_child)
unfolding absorb_split
absorb_lem e parent i new_child = Ends-any (Edits 4 e.store) (promoted e.store new_child) _ λ p.
    Ends-bind (λ m. Extends 4 e.store m.1) (Edits 4 e.store) _ _
      (promote_lem e.store parent i p.median p.left p.right) λ m w. w

module _ (key : Bytes) (kind : EntryKind) (value : Bytes) (recur : Edit → ℕ → Outcome Moved) (k : ℕ)
    (recurs : (d : Edit) (c : ℕ) → Ends (Edits k d.store) (recur d c)) where
  -- An insert into a child, and then a step that moves the counter of blocks by `j` at most.
  after :
      (s : NodeStore) (m j : ℕ) (d : Edit) (c : ℕ) (f : Moved → Outcome Moved)
      → Extends m s d.store
      → ((r : Moved) → Extends (m + k) s r.1.store → Ends (Edits (m + k + j) s) (f r))
      → Ends (Edits (m + k + j) s) (recur d c >>= f)
  after s m j d c f a g =
      Ends-bind (Edits k d.store) (Edits (m + k + j) s) (recur d c) f (recurs d c)
        λ r w. g r (Extends-trans m k s d.store r.1.store a w)

  -- The split of a child, taken up behind it.
  taken_up :
      (s : NodeStore) (m : ℕ) (d : Edit) (parent : Node) (i c : ℕ)
      → Extends m s d.store
      → Ends (Edits (m + 4) s) (absorb_split d parent i c)
  taken_up s m d parent i c a = weaken (absorb_split d parent i c) (absorb_lem d parent i c)
    where
      weaken : (o : Outcome Moved) → Ends (Edits 4 d.store) o → Ends (Edits (m + 4) s) o
      weaken (ok r) w = Extends-trans m 4 s d.store r.1.store a w
      weaken (err x) w = tt
      weaken panic w = tt

  half_lem :
      (s : NodeStore) (e : Edit) (h : Halves)
      → Extends 3 s e.store
      → Fresh 3 s h.root_nr
      → Ends (Edits (3 + k + 4) s) (insert_half cow key kind value recur e h)
  unfolding insert_half
  half_lem s e h a f =
      let P = Edits (3 + k + 4) s in
      Ends-any P (route (with_halves h) key) _ λ r. Ends-any P (with_node e.store r.1) _ λ c.
        after s 3 4 e r.1 _ a λ m w. Ends-any P (with_node m.1.store m.0) _ λ n.
          Ends-if P (ltb c.level n.level) _ _ (taken_up s (3 + k) m.1 (with_halves h) r.0 m.0 w) (
            Extends-more (3 + k) (3 + k + 4) s _ (omega arith) (
              Extends-write (3 + k) s m.1.store h.root_nr _
                (Fresh-more 3 (3 + k) s h.root_nr (omega arith) f) w))

  leaf_lem :
      (e : Edit) (nr : ℕ) → Ends (Edits (7 + k) e.store) (insert_leaf cow key kind value recur e nr)
  unfolding insert_leaf land
  leaf_lem e nr =
      let P = Edits (7 + k) e.store in
      Ends-any P (with_node e.store nr) _ λ n.
        Ends-if P (must_split n key) _ _
          (Ends-bind (λ h. NewHalves e.store h.0) P (split_leaf_node e n) _
            (split_leaf_node-NewHalves e n)
            λ h w.
              weaken (3 + k + 4) (7 + k) e.store _ (omega arith)
                (half_lem e.store (record { store = h.0.store; next_bset_seq = h.1 }) h.0 w.0 w.1))
          (Ends-any P (apply_write n key kind value e.next_bset_seq) _
            λ w. Extends-more 1 (7 + k) e.store _ (omega arith) (Extends-write_fresh e.store w.0))

  internal_lem :
      (e : Edit) (nr : ℕ)
      → Ends (Edits (0 + k + 4) e.store) (insert_internal cow key kind value recur e nr)
  unfolding insert_internal
  internal_lem e nr =
      let s = e.store in
      let P = Edits (0 + k + 4) s in
      Ends-any P (with_node s nr) _ λ node. Ends-any P (route node key) _ λ r.
        Ends-any P (with_node s r.1) _ λ c. after s 0 4 e r.1 _ (Extends-refl s) λ m w.
          Ends-any P (with_node m.1.store m.0) _ λ n.
            Ends-if P (ltb c.level n.level) _ _
              (Ends-any P (with_node m.1.store nr) _ λ old. taken_up s (0 + k) m.1 old r.0 m.0 w)
              (Ends-if P (m.0 == r.1) _ _
                (Extends-more (0 + k) (0 + k + 4) s m.1.store (omega arith) w)
                (Ends-any P (with_node m.1.store nr) _ λ old.
                  Extends-more (0 + k + 1) (0 + k + 4) s _ (omega arith) (
                    Extends-trans (0 + k) 1 s m.1.store _ w
                      (Extends-write_fresh m.1.store (set_child_block old r.0 m.0)))))

-- Where the counter of blocks does not wrap around within 7 * n, a copy-on-write insert with fuel
-- n that returns moves the counter by 7 * n at most, and leaves every block that was taken taken
-- and as it was.
pub insert-Extends :
    (fuel : ℕ) (key : Bytes) (kind : EntryKind) (value : Bytes) (e : Edit) (nr : ℕ)
    → Ends (λ r. Extends (7 * fuel) e.store r.1.store) (insert fuel cow key kind value e nr)
unfolding insert
insert-Extends zero key kind value e nr = tt
insert-Extends (suc fuel) key kind value e nr =
    let P = Edits (7 * suc fuel) e.store in
    let recur = λ (d : Edit) (c : ℕ). insert fuel cow key kind value d c in
    let recurs = λ (d : Edit) (c : ℕ). insert-Extends fuel key kind value d c in
    Ends-any P (with_node e.store nr) _ λ n.
      Ends-if P (n.level == 0) _ _
        (weaken (7 + 7 * fuel) (7 * suc fuel) e.store _ (omega arith)
          (leaf_lem key kind value recur (7 * fuel) recurs e nr))
        (weaken (0 + 7 * fuel + 4) (7 * suc fuel) e.store _ (omega arith)
          (internal_lem key kind value recur (7 * fuel) recurs e nr))

-- A copy-on-write flip copies the path to the leaf.
pub flip-Extends :
    (fuel : ℕ) (key : Bytes) (kind : EntryKind) (s : NodeStore) (nr : ℕ)
    → Ends (λ r. Extends fuel s r.1) (flip_kind_in_place fuel cow key kind s nr)
unfolding flip_kind_in_place land patch
flip-Extends zero key kind s nr = tt
flip-Extends (suc fuel) key kind s nr =
    let P = λ (r : ℕ × NodeStore). Extends (suc fuel) s r.1 in
    Ends-any P (with_node s nr) _ λ n.
      Ends-if P (n.level == 0) _ _
        (Ends-any P (flip n key kind) _
          λ n'. Extends-more 1 (suc fuel) s _ (omega arith) (Extends-write_fresh s n'))
        (Ends-any P (route n key) _ λ r.
          Ends-bind (λ (c : ℕ × NodeStore). Extends fuel s c.1) P
            (flip_kind_in_place fuel cow key kind s r.1) _ (flip-Extends fuel key kind s r.1)
            λ c w. Ends-any P (with_node c.1 nr) _ λ old.
              Extends-more (fuel + 1) (suc fuel) s _ (omega arith) (
                Extends-trans fuel 1 s c.1 _ w
                  (Extends-write_fresh c.1 (set_child_block old r.0 c.0))))
