-- ===== src/Btree/Slots/Copies.antt =====
-- What `copy_slots` and `place_split` of btree.rs make of the slots of a node.
use rfs.Prelude.{
  ℕ, suc, ◌+◌, ◌^◌, ◌<◌, ◌≡◌, refl, ap, ◌∙◌, sym, Option, some, List, [], ◌∷◌, ◌++◌, arith, length,
  append_assoc,
}
use rfs.Prelude.Outcome.{ok}
use rfs.Bytes.{Bytes}
use rfs.Entry.{DiskEntry, empty, key_bytes, child}
use rfs.Btree.Split.{last_slot, copy_slots, place_split}
use rfs.Btree.Bounds.{OverLo, UnderHi, UnderHi-trans}
use rfs.Btree.Shape.{gather}
use rfs.Btree.Slots.{Fits, slot_lem, child-set_child, Rows, Rows-kept, low, high}

-- New slots over the same range, with given entries below them.
pub record Remade (P : Option Bytes → Option Bytes → ℕ → Type 0) (f : ℕ → List DiskEntry)
    (lo hi : Option Bytes) (below : List DiskEntry) (size : ℕ) (es : List DiskEntry) : Type 0 where
  pub rows : Rows P lo hi es
  pub gathers : gather f es ≡ below
  pub sized : length es ≡ size

module _ (P : Option Bytes → Option Bytes → ℕ → Type 0) (f : ℕ → List DiskEntry)
    (small : (lo hi : Option Bytes) (c : ℕ) → P lo hi c → c < 2 ^ 64) where
  -- A slot in front of others.
  front :
      (lo hi : Option Bytes) (k : Bytes) (c : ℕ) (e : DiskEntry) (below : List DiskEntry) (n : ℕ)
      (es : List DiskEntry)
      → Fits k
      → OverLo lo k
      → UnderHi hi k
      → P lo (some k) c
      → key_bytes e ≡ k
      → child e ≡ c
      → Remade P f (some k) hi below n es
      → Remade P f lo hi (f c ++ below) (suc n) (e ∷ es)
  front lo hi k c e below n [] t o u p ke ce r = absurd r.rows
  front lo hi k c e below n (x ∷ es) t o u p ke ce r = record {
    rows = rw (ke, ce) (t, o, u, p, r.rows);
    gathers = rw (ce, r.gathers) refl;
    sized = ap suc r.sized;
  }

  last :
      (lo hi : Option Bytes) (c : ℕ) → P lo hi c → Remade P f lo hi (f c ++ []) 1 (last_slot c ∷ [])
  last lo hi c p =
      let q = child-set_child empty c (small lo hi c p) in
      record { rows = rw q p; gathers = rw q refl; sized = refl }

  pub copy_slots_lem :
      (lo hi : Option Bytes) (es : List DiskEntry)
      → Rows P lo hi es
      → (ds : List DiskEntry) × (copy_slots es ≡ ok ds)
        × Remade P f lo hi (gather f es) (length es) ds
  unfolding copy_slots
  copy_slots_lem lo hi [] b = absurd b
  copy_slots_lem lo hi (e ∷ []) b = (last_slot (child e) ∷ [], refl, last lo hi (child e) b)
  copy_slots_lem lo hi (e ∷ x ∷ es) (t, o, u, p, b) =
      let (s, done, ks, cs) = slot_lem (key_bytes e) (child e) t (small lo _ (child e) p) in
      let (ds, rest, r) = copy_slots_lem (some (key_bytes e)) hi (x ∷ es) b in
      (
        s ∷ ds,
        rw (done, rest) refl,
        front lo hi (key_bytes e) (child e) s (gather f (x ∷ es)) (length (x ∷ es)) ds t o u p ks cs
            r,
      )

module _ (P P' : Option Bytes → Option Bytes → ℕ → Type 0) (f f' : ℕ → List DiskEntry)
    (keep : (lo hi : Option Bytes) (c : ℕ) → P lo hi c → P' lo hi c × (f' c ≡ f c))
    (small : (lo hi : Option Bytes) (c : ℕ) → P' lo hi c → c < 2 ^ 64) (m : Bytes) (l r : ℕ) where
  -- The slots behind a child that has split.
  abbrev pub Placed :
      Option Bytes → Option Bytes → List DiskEntry → DiskEntry → List DiskEntry → Type 0
  Placed lo hi pre s post =
      (ds : List DiskEntry) × (place_split (length pre) m l r (pre ++ s ∷ post) ≡ ok ds)
      × Remade P' f' lo hi (gather f pre ++ ((f' l ++ f' r) ++ gather f post))
          (length (pre ++ s ∷ post) + 1) ds

  -- A slot in front of those that change.
  behind :
      (i : ℕ) (lo hi : Option Bytes) (e : DiskEntry) (tail ds below : List DiskEntry) (n : ℕ)
      → Fits (key_bytes e)
      → OverLo lo (key_bytes e)
      → UnderHi hi (key_bytes e)
      → P lo (some (key_bytes e)) (child e)
      → place_split i m l r tail ≡ ok ds
      → Remade P' f' (some (key_bytes e)) hi below n ds
      → (ds' : List DiskEntry) × (place_split (suc i) m l r (e ∷ tail) ≡ ok ds')
        × Remade P' f' lo hi (f (child e) ++ below) (suc n) ds'
  unfolding place_split
  behind i lo hi e tail ds below n t o u p done w =
      let g = keep lo (some (key_bytes e)) (child e) p in
      let (x, made, kx, cx) = slot_lem (key_bytes e) (child e) t (small lo _ (child e) g.0) in
      (
        x ∷ ds,
        rw (made, done) refl,
        rw (← g.1) (front P' f' small lo hi (key_bytes e) (child e) x below n ds t o u g.0 kx cx w),
      )

  regroup :
      (e : DiskEntry) (pre : List DiskEntry) (lo hi : Option Bytes) (rest : List DiskEntry)
      (n k : ℕ) (ds : List DiskEntry)
      → Remade P' f' lo hi (f (child e) ++ (gather f pre ++ rest)) (suc (n + k)) ds
      → Remade P' f' lo hi (gather f (e ∷ pre) ++ rest) (suc n + k) ds
  regroup e pre lo hi rest n k ds w = record {
    rows = w.rows;
    gathers = w.gathers ∙ sym (append_assoc (f (child e)) (gather f pre) rest);
    sized = w.sized ∙ omega arith;
  }

  -- A child that has split into two is taken up by the slots of its parent.
  pub place_split_lem :
      (pre post : List DiskEntry) (lo hi : Option Bytes) (s : DiskEntry)
      → Rows P lo hi (pre ++ s ∷ post)
      → Fits m
      → OverLo (low lo pre) m
      → UnderHi (high hi s post) m
      → P' (low lo pre) (some m) l
      → P' (some m) (high hi s post) r
      → Placed lo hi pre s post
  unfolding place_split
  place_split_lem [] [] lo hi s b t o u p q =
      let (e, done, ke, ce) = slot_lem m l t (small lo _ l p) in
      let g =
        front P' f' small lo hi m l e _ _ (last_slot r ∷ []) t o u p ke ce
          (last P' f' small (some m) hi r q) in
      (
        e ∷ last_slot r ∷ [],
        rw done refl,
        record {
          rows = g.rows;
          gathers = g.gathers ∙ sym (append_assoc (f' l) (f' r) []);
          sized = refl;
        },
      )
  place_split_lem [] (y ∷ post) lo hi s (ts, os, us, ps, b) t o u p q =
      let (e, done, ke, ce) = slot_lem m l t (small lo _ l p) in
      let (d, done', kd, cd) = slot_lem (key_bytes s) r ts (small (some m) _ r q) in
      let k = Rows-kept P P' f f' keep (some (key_bytes s)) hi (y ∷ post) b in
      let (ds, rest, w) = copy_slots_lem P' f' small (some (key_bytes s)) hi (y ∷ post) k.0 in
      let g1 = front P' f' small (some m) hi (key_bytes s) r d _ _ ds ts u us q kd cd w in
      let g =
        front P' f' small lo hi m l e _ _ (d ∷ ds) t o (UnderHi-trans hi (key_bytes s) m us u) p ke
          ce g1 in
      (
        e ∷ d ∷ ds,
        rw (done, done', rest) refl,
        record {
          rows = g.rows;
          gathers = g.gathers ∙ rw (k.1) (sym (append_assoc (f' l) (f' r) _));
          sized = g.sized ∙ (omega arith);
        },
      )
  place_split_lem (e ∷ []) post lo hi s (te, oe, ue, pe, b) t o u p q =
      let (ds, done, w) = place_split_lem [] post (some (key_bytes e)) hi s b t o u p q in
      let (ds', done', w') = behind 0 lo hi e (s ∷ post) ds _ _ te oe ue pe done w in
      (ds', done', regroup e [] lo hi _ _ _ ds' w')
  place_split_lem (e ∷ d ∷ pre) post lo hi s (te, oe, ue, pe, b) t o u p q =
      let (ds, done, w) = place_split_lem (d ∷ pre) post (some (key_bytes e)) hi s b t o u p q in
      let (ds', done', w') =
        behind (length (d ∷ pre)) lo hi e ((d ∷ pre) ++ s ∷ post) ds _ _ te oe ue pe done w in
      (ds', done', regroup e (d ∷ pre) lo hi _ _ _ ds' w')
