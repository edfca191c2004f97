-- ===== src/Fs/Snapshots/Chain.antt =====
-- The walks over a snapshot's ancestors end, and agree with each other.
use rfs.Prelude.{
  ℕ, zero, suc, ◌≤◌, ◌<◌, ◌≡◌, refl, ap, ◌∙◌, false, Option, none, some, List, [], ◌∷◌, arith, ltb,
  ◌==◌, ltb→lt, leb, sym, subst, inl, inr, Bool-cases,
}
use rfs.Prelude.Outcome.{Outcome, ok, ◌>>=◌}
use rfs.Leaf.{contains}
use rfs.Fs.Values.{SnapshotV1}
use rfs.Fs.Snapshots.{
  follow, next_parent, no_parent_snap, rounds_from, parents_of, ancestor_chain, reaches,
  is_ancestor,
}

-- Every id is above `snap` and the ids ascend.
abbrev pub IsAscendingFrom : ℕ → List ℕ → Type 0
IsAscendingFrom snap [] = Unit
IsAscendingFrom snap (p ∷ ps) = (snap < p) × IsAscendingFrom p ps

-- Metadata that is read without an error, with parents that are `u32`.
module _ (meta : ℕ → Option SnapshotV1)
    (small : (snap : ℕ) (m : SnapshotV1) → meta snap ≡ some m → m.parent_id < 4294967296) where
  abbrev pub get_snapshot : ℕ → Outcome (Option SnapshotV1)
  get_snapshot snap = ok (meta snap)

  -- The ancestors behind a snapshot: the ids that its metadata and theirs name as parents, up to a
  -- snapshot without metadata, without a parent, or whose parent does not lie above it.
  pub data Ancestors : ℕ → List ℕ → Type 0 where
    unknown : (snap : ℕ) → meta snap ≡ none → Ancestors snap []
    parentless :
        (snap : ℕ) (m : SnapshotV1) → meta snap ≡ some m → m.parent_id ≡ 0 → Ancestors snap []
    misplaced :
        (snap : ℕ) (m : SnapshotV1) → meta snap ≡ some m → m.parent_id ≤ snap → Ancestors snap []
    link :
        (snap : ℕ) (m : SnapshotV1) (ps : List ℕ)
        → meta snap ≡ some m
        → snap < m.parent_id
        → Ancestors m.parent_id ps
        → Ancestors snap (m.parent_id ∷ ps)

  next_parent-top : (snap : ℕ) → next_parent snap (meta snap) ≡ none → Ancestors snap []
  unfolding next_parent
  next_parent-top snap h = by (meta snap) refl
    where
      by : (o : Option SnapshotV1) → meta snap ≡ o → Ancestors snap []
      by none q = unknown snap q
      by (some m) q = elim (Bool-cases (m.parent_id == no_parent_snap)) [
        | inl z ↦ parentless snap m q (ground arith)
        | inr z ↦ elim (Bool-cases (leb m.parent_id snap)) [
          | inl l ↦ misplaced snap m q (ground arith)
          | inr l ↦
              let x : next_parent snap (some m) ≡ none = ap (next_parent snap) (sym q) ∙ h in
              let y : some m.parent_id ≡ none = rw (z, l) at x in let w : ⊥ = cc in absurd w
        ]
      ]

  parent_is :
      (snap p : ℕ) (m : SnapshotV1)
      → next_parent snap (some m) ≡ some p
      → (m.parent_id ≡ p) × (snap < m.parent_id)
  unfolding next_parent
  parent_is snap p m x = ground arith

  next_parent-link :
      (snap p : ℕ) (ps : List ℕ)
      → next_parent snap (meta snap) ≡ some p
      → Ancestors p ps
      → Ancestors snap (p ∷ ps)
  unfolding next_parent
  next_parent-link snap p ps h a = by (meta snap) refl
    where
      by : (o : Option SnapshotV1) → meta snap ≡ o → Ancestors snap (p ∷ ps)
      by none q =
          let x : next_parent snap none ≡ some p = ap (next_parent snap) (sym q) ∙ h in
          let w : ⊥ = cc in absurd w
      by (some m) q =
          let x : next_parent snap (some m) ≡ some p = ap (next_parent snap) (sym q) ∙ h in
          let (same, above) = parent_is snap p m x in
          subst (λ i. Ancestors snap (i ∷ ps)) same
            (link snap m ps q above (subst (λ i. Ancestors i ps) (sym same) a))

  next_parent-bounds :
      (snap p : ℕ) → next_parent snap (meta snap) ≡ some p → (snap < p) × (p < 4294967296)
  unfolding next_parent
  next_parent-bounds snap p h = by (meta snap) refl h
    where
      by :
          (o : Option SnapshotV1)
          → meta snap ≡ o
          → next_parent snap o ≡ some p
          → (snap < p) × (p < 4294967296)
      by none q e = cc
      by (some m) q e = ground (arith, small snap m q)

  -- What both loops return from a snapshot on.
  record Walk (fuel snap : ℕ) : Type 0 where
    parents : List ℕ
    found : parents_of get_snapshot fuel snap ≡ ok parents
    spec : Ancestors snap parents
    ascending : IsAscendingFrom snap parents
    reached : (a : ℕ) → reaches get_snapshot fuel a snap ≡ ok (contains (snap ∷ parents) a)

  abbrev parents_behind : ℕ → ℕ → Outcome (List ℕ)
  parents_behind fuel p = parents_of get_snapshot fuel p >>= λ rest. ok (p ∷ rest)

  walk : (fuel snap : ℕ) → snap < 4294967296 → rounds_from snap ≤ fuel → Walk fuel snap
  unfolding parents_of reaches
  walk zero snap s r = absurd (omega arith)
  walk (suc fuel) snap s r = by (next_parent snap (meta snap)) refl (λ p q.
      let b = next_parent-bounds snap p q in
      walk fuel p b.1 (let x = b.0 in let y = b.1 in omega arith))
    where
      by :
          (o : Option ℕ)
          → next_parent snap (meta snap) ≡ o
          → ((p : ℕ) → next_parent snap (meta snap) ≡ some p → Walk fuel p)
          → Walk (suc fuel) snap
      by none q ih = record {
        parents = [];
        found = ap (follow [] (parents_behind fuel)) q;
        spec = next_parent-top snap q;
        ascending = tt;
        reached = λ a. elim (Bool-cases (snap == a)) [
          | inl e ↦ rw (e, reaches) refl
          | inr e ↦ rw (e, reaches) (ap (follow false (λ p. reaches get_snapshot fuel a p)) q)
        ];
      }
      by (some p) q ih =
          let w = ih p q in
          record {
            parents = p ∷ w.parents;
            found = ap (follow [] (parents_behind fuel)) q ∙ rw (w.found) refl;
            spec = next_parent-link snap p w.parents q w.spec;
            ascending = ((next_parent-bounds snap p q).0, w.ascending);
            reached = λ a. elim (Bool-cases (snap == a)) [
              | inl e ↦ rw (e, reaches) refl
              | inr e ↦
                  rw (e, reaches)
                    (ap (follow false (λ c. reaches get_snapshot fuel a c)) q ∙ w.reached a)
            ];
          }

  -- Over metadata that is read without an error, with parents of 32 bits, ancestor_chain of a
  -- snapshot id of 32 bits ends within the rounds given: it returns the snapshot and then its
  -- ancestors, each the parent in the metadata of the one before it, in ascending order of the
  -- ids, up to a snapshot without metadata, with the parent 0 or with a parent that is not above
  -- it.
  pub ancestor_chain_lem :
      (snap : ℕ)
      → snap < 4294967296
      → (parents : List ℕ) × (ancestor_chain get_snapshot snap ≡ ok (snap ∷ parents))
        × Ancestors snap parents
        × IsAscendingFrom snap parents
  unfolding ancestor_chain
  ancestor_chain_lem snap s =
      let w = walk (rounds_from snap) snap s (omega arith) in
      (w.parents, rw (w.found) refl, w.spec, w.ascending)

  contains-low :
      (snap a : ℕ) (ps : List ℕ) → IsAscendingFrom snap ps → a < snap → contains ps a ≡ false
  contains-low snap a [] h l = refl
  contains-low snap a (p ∷ ps) h l =
      let x = h.0 in ground (arith, contains-low p a ps h.1 (omega arith))

  -- A snapshot is an ancestor exactly if it is on the chain.
  pub is_ancestor-ancestor_chain :
      (ancestor of : ℕ)
      → of < 4294967296
      → is_ancestor get_snapshot ancestor of
        ≡ (ancestor_chain get_snapshot of >>= λ chain. ok (contains chain ancestor))
  unfolding is_ancestor ancestor_chain
  is_ancestor-ancestor_chain ancestor of s =
      let w = walk (rounds_from of) of s (omega arith) in
      elim (Bool-cases (ltb ancestor of)) [
        | inl low ↦
            let c = contains-low of ancestor w.parents w.ascending (ltb→lt ancestor of low) in
            let d : (of == ancestor) ≡ false = ground arith in
            rw (low, is_ancestor) (rw (w.found) (rw (d, c) refl))
        | inr high ↦ rw (high, is_ancestor) (rw (w.found) (w.reached ancestor))
      ]
