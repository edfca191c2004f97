-- ===== src/Btree/Update/Flips.antt =====
-- The flip of an entry's kind in a leaf: it is made where the newest bset has the key.
use native.Mathlib.Nat.{add-zero, zero-add}
use rfs.Prelude.{
  ℕ, zero, suc, ◌+◌, ◌≡◌, refl, ap, ◌∙◌, sym, Option, none, some, List, [], ◌∷◌, arith, length,
  Ordering, lt, eq, gt, subst, ◌⊎◌, inl, inr, leb, false, true,
}
use rfs.Bytes.{Bytes, compare_bytes}
use rfs.Bytes.Order.{eq_of_compare, lt_of_gt}
use rfs.Prelude.Outcome.{ok}
use rfs.Entry.{DiskEntry, key_bytes, set_kind}
use rfs.Entry.Kind.{EntryKind, live, deleted, whiteout}
use rfs.Node.{Node, Bset, Found, at, insert_at, shift, search_entries, total_of}
use rfs.Node.Search.{Above, Above-trans, IsSorted, lookup, lookup-Above}
use rfs.Node.Merged.{MergedHit, cursors, find_from, merged_find, hit}
use rfs.Node.Merged.Find.{OlderHit, OlderHit-hit, shift_index}
use rfs.Node.Merged.Best.{IsOrdered, Newer, latest}
use rfs.Leaf.View.{SeqsBelow, IsLeaf, view}
use rfs.Leaf.Opening.{flag_lem}
use rfs.Btree.Flip.{edit_entry, edit_at, flip, mark_flip}

module _ (key : Bytes) (f : DiskEntry → DiskEntry)
    (keeps : (e : DiskEntry) → key_bytes (f e) ≡ key_bytes e) where
  Above-edit : (k : Bytes) (es : List DiskEntry) (i : ℕ) → Above k es → Above k (edit_entry f es i)
  Above-edit k [] i a = tt
  Above-edit k (e ∷ es) zero a = (rw (keeps e) (a.0), a.1)
  Above-edit k (e ∷ es) (suc i) a = (a.0, Above-edit k es i a.1)

  IsSorted-edit : (es : List DiskEntry) (i : ℕ) → IsSorted es → IsSorted (edit_entry f es i)
  IsSorted-edit [] i s = tt
  IsSorted-edit (e ∷ es) zero s = (rw (keeps e) (s.0), s.1)
  IsSorted-edit (e ∷ es) (suc i) s = (Above-edit (key_bytes e) es i s.0, IsSorted-edit es i s.1)

  length-edit : (es : List DiskEntry) (i : ℕ) → length (edit_entry f es i) ≡ length es
  length-edit [] i = refl
  length-edit (e ∷ es) zero = refl
  length-edit (e ∷ es) (suc i) = ap suc (length-edit es i)

  -- What one bset holds, with the entry edited where the search finds the key.
  abbrev Edited : List DiskEntry → Found → Type 0
  Edited es (insert_at i) = lookup es key ≡ none
  Edited es (at i) =
      (e : DiskEntry) × (lookup es key ≡ some e)
      × ((j : Bytes)
          → lookup (edit_entry f es i) j
            ≡ (elim (compare_bytes key j) [ eq ↦ some (f e) | _ ↦ lookup es j ]))

  Edited-shift :
      (x : DiskEntry) (es : List DiskEntry) (r : Found)
      → compare_bytes (key_bytes x) key ≡ lt
      → Edited es r
      → Edited (x ∷ es) (shift r)
  unfolding lookup
  Edited-shift x es (insert_at i) p w = ground (arith, p, w)
  Edited-shift x es (at i) p (e, w, u) =
      (e, ground (arith, p, w), λ j. ground (arith, u j, p, eq_of_compare key j))

  search_entries-Edited : (es : List DiskEntry) → IsSorted es → Edited es (search_entries es key)
  unfolding search_entries lookup
  search_entries-Edited [] s = refl
  search_entries-Edited (x ∷ es) s =
      by (compare_bytes (key_bytes x) key) refl (search_entries-Edited es s.1)
    where
      by :
          (o : Ordering)
          → compare_bytes (key_bytes x) key ≡ o
          → Edited es (search_entries es key)
          → Edited
              (x ∷ es)
              (elim o [ lt ↦ shift (search_entries es key) | eq ↦ at 0 | gt ↦ insert_at 0 ])
      by lt p w = Edited-shift x es (search_entries es key) p w
      by eq p w =
          let same = eq_of_compare (key_bytes x) key p in
          (x, ground (arith, p), λ j. ground (arith, keeps x, ap (λ k. compare_bytes k j) same))
      by gt p w =
          let high = Above-trans key (key_bytes x) es (lt_of_gt (key_bytes x) key p) s.0 in
          let gone : lookup (x ∷ es) key ≡ none = rw (p, lookup) (lookup-Above key es high) in gone

  -- The bsets of a leaf in which the key's entry has become `v`.
  record Flipped (v : DiskEntry) (ss ss' : List Bset) : Type 0 where
    pub reads :
        (j : Bytes)
        → latest (cursors ss') j
          ≡ (elim (compare_bytes key j) [ eq ↦ some v | _ ↦ latest (cursors ss) j ])
    pub newer : (m : ℕ) → Newer m (cursors ss) → Newer m (cursors ss')
    pub ordered : IsOrdered (cursors ss')
    pub seqs : (m : ℕ) → SeqsBelow m ss → SeqsBelow m ss'
    pub total : total_of ss' ≡ total_of ss
    pub count : length ss' ≡ length ss

  Flipped-tail :
      (v : DiskEntry) (s : Bset) (ss ss' : List Bset)
      → IsOrdered (cursors (s ∷ ss))
      → Flipped v ss ss'
      → Flipped v (s ∷ ss) (s ∷ ss')
  unfolding latest
  Flipped-tail v s ss ss' o w = record {
    reads = λ j. ground (arith, w.reads j);
    newer = λ m h. (h.0, w.newer m h.1);
    ordered = (w.newer s.seq o.0, o.1, w.ordered);
    seqs = λ m h. (h.0, w.seqs m h.1);
    total = let a = w.total in omega arith;
    count = ap suc w.count;
  }

  Flipped-head :
      (e : DiskEntry) (s : Bset) (ss : List Bset) (i : ℕ)
      → IsOrdered (cursors (s ∷ ss))
      → latest (cursors ss) key ≡ none
      → ((j : Bytes)
          → lookup (edit_entry f s.entries i) j
            ≡ (elim (compare_bytes key j) [ eq ↦ some (f e) | _ ↦ lookup s.entries j ]))
      → Flipped (f e) (s ∷ ss) (record s { entries = edit_entry f s.entries i } ∷ ss)
  unfolding latest
  Flipped-head e s ss i o none_newer u = record {
    reads = λ j. by j (compare_bytes key j) refl;
    newer = λ m h. h;
    ordered = (o.0, IsSorted-edit s.entries i o.1, o.2);
    seqs = λ m h. h;
    total = omega (arith, length-edit s.entries i);
    count = refl;
  }
    where
      by :
          (j : Bytes) (x : Ordering)
          → compare_bytes key j ≡ x
          → latest (cursors (record s { entries = edit_entry f s.entries i } ∷ ss)) j
            ≡ (elim (compare_bytes key j) [ eq ↦ some (f e) | _ ↦ latest (cursors (s ∷ ss)) j ])
      by j eq p =
          let gone = subst (λ k. latest (cursors ss) k ≡ none) (eq_of_compare key j p) none_newer in
          ground (arith, p, u j, gone)
      by j lt p = ground (arith, p, u j)
      by j gt p = ground (arith, p, u j)

  -- What the search over all bsets finds, and the leaf with the edit made there.
  abbrev Looked : ℕ → List Bset → Option MergedHit → Type 0
  Looked b ss best =
      ((latest (cursors ss) key ≡ none) × (find_from b ss key best ≡ best))
      ⊎ ((e : DiskEntry) × (latest (cursors ss) key ≡ some e)
          × (c : ℕ) × (i : ℕ) × (q : ℕ) × (find_from b ss key best
              ≡ some (record { bset_idx = b + c; entry_idx = i; seq = q }))
          × Flipped (f e) ss (edit_at f ss c i))

  better_hit :
      (best : Option MergedHit) (b i : ℕ) (s : Bset) (ss : List Bset)
      → OlderHit best (s ∷ ss)
      → hit best b s.seq (at i) ≡ some (record { bset_idx = b + 0; entry_idx = i; seq = s.seq })
  better_hit none b i s ss o =
      ap (λ x. some (record { bset_idx = x; entry_idx = i; seq = s.seq })) (sym (add-zero b))
  better_hit (some h) b i s ss o =
      let p : leb s.seq h.seq ≡ false = let x = o.0 in ground arith in
      rw p (ap (λ x. some (record { bset_idx = x; entry_idx = i; seq = s.seq })) (sym (add-zero b)))

  find_from-Looked :
      (ss : List Bset) (b : ℕ) (best : Option MergedHit)
      → OlderHit best ss
      → IsOrdered (cursors ss)
      → Looked b ss best
  unfolding find_from latest edit_at
  find_from-Looked [] b best o w = inl (refl, refl)
  find_from-Looked (s ∷ ss) b best o w =
      let r = search_entries s.entries key in
      by r refl (search_entries-Edited s.entries w.1)
        (find_from-Looked ss (b + 1) (hit best b s.seq r) (OlderHit-hit best b s ss r o w.0) w.2)
    where
      by :
          (r : Found)
          → search_entries s.entries key ≡ r
          → Edited s.entries r
          → Looked (b + 1) ss (hit best b s.seq r)
          → Looked b (s ∷ ss) best
      by r p d (inr (e, l, c, i, q, found, w')) = inr (
        e,
        ground (arith, l),
        suc c,
        i,
        q,
        rw p (
            found
            ∙ ap (λ x. some (record { bset_idx = x; entry_idx = i; seq = q })) (shift_index b c)),
        Flipped-tail (f e) s ss (edit_at f ss c i) w w',
      )
      by (insert_at i) p d (inl (l, found)) = inl (ground (arith, l, d), rw p found)
      by (at i) p d (inl (l, found)) =
          let (e, held, u) = d in
          inr (
            e,
            ground (arith, l, held),
            0,
            i,
            s.seq,
            rw p (found ∙ better_hit best b i s ss o),
            Flipped-head e s ss i w l u,
          )

-- A leaf in which the key's entry has another kind.
pub record LeafFlipped (n : Node) (m : ℕ) (key : Bytes) (v : DiskEntry) (n' : Node) : Type 0 where
  pub leaf : IsLeaf n' m
  pub reads : (j : Bytes) → view n' j ≡ (elim (compare_bytes key j) [ eq ↦ some v | _ ↦ view n j ])

marked :
    (n : Node) (m : ℕ) (key : Bytes) (v : DiskEntry) (kind : EntryKind) (b : ℕ) (n' : Node)
    → LeafFlipped n m key v n'
    → LeafFlipped n m key v (mark_flip kind b n')
marked n m key v whiteout b n' w =
    let g = flag_lem n' b true m w.leaf in record { leaf = g.0; reads = λ j. g.1 j ∙ w.reads j }
marked n m key v live b n' w = w
marked n m key v deleted b n' w = w

key_bytes-set_kind : (d : DiskEntry) (kind : EntryKind) → key_bytes (set_kind d kind) ≡ key_bytes d
unfolding set_kind key_bytes
key_bytes-set_kind d kind = refl

-- The flip of a key that the leaf holds.
pub flip_lem :
    (n : Node) (m : ℕ) (key : Bytes) (kind : EntryKind) (e : DiskEntry)
    → IsLeaf n m
    → view n key ≡ some e
    → (n' : Node) × (flip n key kind ≡ ok n') × LeafFlipped n m key (set_kind e kind) n'
unfolding flip merged_find view
flip_lem n m key kind e h at_key = by (
    find_from-Looked key (λ d. set_kind d kind) (λ d. key_bytes-set_kind d kind) n.bsets 0 none tt
      h.ordered)
  where
    by :
        Looked key (λ d. set_kind d kind) (λ d. key_bytes-set_kind d kind) 0 n.bsets none
        → (n' : Node) × (flip n key kind ≡ ok n') × LeafFlipped n m key (set_kind e kind) n'
    by (inl (l, found)) = let x : ⊥ = cc in absurd x
    by (inr (d, l, c, i, q, found, w)) =
        let same : d ≡ e = cc in
        let bsets = edit_at (λ x. set_kind x kind) n.bsets c i in
        let total = w.total in
        let count = w.count in
        let room = h.room in
        let few = h.few in
        (
          mark_flip kind c (record n { bsets = bsets }),
          rw (found, zero-add c) refl,
          marked n m key (set_kind e kind) kind c (record n { bsets = bsets })
              (record {
                leaf = record {
                  leaf = h.leaf;
                  ordered = w.ordered;
                  seqs = w.seqs m h.seqs;
                  room = omega arith;
                  few = omega arith;
                };
                reads = λ j.
                    w.reads j
                    ∙ ap
                        (λ x. elim (compare_bytes key j) [
                          | eq ↦ some (set_kind x kind)
                          | _ ↦ latest (cursors n.bsets) j
                        ])
                        same;
              }),
        )
