-- ===== src/Btree/Update/Internal.antt =====
-- `insert_internal` where the insert into the child is as it should be.
use rfs.Prelude.{
  ℕ, suc, ◌+◌, ◌^◌, ◌≤◌, ◌<◌, ◌≡◌, refl, ap, ◌∙◌, sym, true, false, Option, List, ◌∷◌, ◌++◌, arith,
  length, drop, ltb, ◌==◌, Bool-cases, inl, inr, append-nil, subst,
}
use rfs.Prelude.Outcome.{Outcome, ok}
use rfs.Bytes.{Bytes}
use rfs.Entry.{DiskEntry, key_bytes, child, set_child}
use rfs.Entry.Kind.{EntryKind}
use rfs.Node.{Node, single, set_child_block, search_internal, child_index}
use rfs.Btree.{NodeStore, cow, with_node, write_fresh, route}
use rfs.Btree.Split.{Edit}
use rfs.Btree.Insert.{Moved, absorb_split, insert_internal}
use rfs.Btree.Bounds.{FromLo, UnderHi}
use rfs.Btree.Route.{seek_lem}
use rfs.Btree.Lookup.{route_lem}
use rfs.Btree.Shape.{IsTree, gather, entries_of, entries_of-internal}
use rfs.Btree.Shape.Choice.{entries_of-within, separators-IsSorted}
use rfs.Btree.Slots.{
  child-set_child, key_bytes-set_child, Rows, Rows-Branches, low, high, replaced, gather-append,
}
use rfs.Btree.Slots.Focus.{Focus, focus, place_of, Updated, Updated-between}
use rfs.Btree.Fresh.{Taken, Grown}
use rfs.Btree.Isolation.{with_node-kept}
use rfs.Btree.Sound.{Clean, write_fresh_lem, Sound, Sound-kept, Sound-IsTree, Sound-Taken}
use rfs.Btree.Promote.{Twin, Rises, same, grew, Grown-trans}
use rfs.Btree.Promote.Parent.{promote_lem}
use rfs.Btree.Update.{Inserted, Sound-level, promoted_lem, set_child_lem}

level_same : (a b l : ℕ) → a ≡ l → b ≡ l → ltb a b ≡ false
level_same a b l p q = ground arith

level_grew : (a b l : ℕ) → a ≡ l → b ≡ suc l → ltb a b ≡ true
level_grew a b l p q = ground arith

module _ (l : ℕ) (e : Edit) (key : Bytes) (v : DiskEntry) (lo hi : Option Bytes) (nr : ℕ) (n : Node)
    (reads : with_node e.store nr ≡ ok n) (taken : Taken e.store nr) (level : n.level ≡ suc l)
    (rows : Rows (λ x y c. Sound l e.next_bset_seq e.store x y c) lo hi (single n))
    (fo : Focus
      (λ x y c. Sound l e.next_bset_seq e.store x y c)
      (λ c. entries_of l e.store c)
      lo
      hi
      (single n)
      key) where
  abbrev pub P : Option Bytes → Option Bytes → ℕ → Type 0
  P x y c = Sound l e.next_bset_seq e.store x y c

  abbrev pub f : ℕ → List DiskEntry
  f c = entries_of l e.store c

  -- The entries of the node with `below` in place of those of the child.
  abbrev pub mended : List DiskEntry → List DiskEntry
  mended below = gather f fo.pre ++ (below ++ gather f fo.post)

  slots : Rows P lo hi (fo.pre ++ fo.slot ∷ fo.post)
  slots = subst (λ es. Rows P lo hi es) fo.split rows

  pub around :
      (below : List DiskEntry)
      → Updated key v (f (child fo.slot)) below
      → Updated key v (entries_of (suc l) e.store nr) (mended below)
  around below u =
      let w : entries_of (suc l) e.store nr ≡ mended (f (child fo.slot)) =
        entries_of-internal l e.store nr n reads
        ∙ ap (λ es. gather f es) fo.split
        ∙ gather-append f fo.pre (fo.slot ∷ fo.post) in
      subst (λ old. Updated key v old (mended below)) (sym w)
        (Updated-between key v (gather f fo.pre) (gather f fo.post) (f (child fo.slot)) below
          fo.missed u)

  -- The node with another child in the slot, in a later store.
  relinked :
      (j m' : ℕ) (t : NodeStore) (b : ℕ) (n' : Node) (x : DiskEntry)
      → Grown j e.store t
      → e.next_bset_seq ≤ m'
      → with_node t b ≡ ok n'
      → Taken t b
      → n'.level ≡ suc l
      → single n' ≡ fo.pre ++ x ∷ fo.post
      → key_bytes x ≡ key_bytes fo.slot
      → Sound l m' t (low lo fo.pre) (high hi fo.slot fo.post) (child x)
      → Sound (suc l) m' t lo hi b × (entries_of (suc l) t b ≡ mended (entries_of l t (child x)))
  relinked j m' t b n' x g h r tk lv sl kx p =
      let w =
        replaced P (λ a c d. Sound l m' t a c d) f (λ c. entries_of l t c)
          (λ a c d q. Sound-kept j e.store t e.next_bset_seq m' g h l a c d q) fo.pre fo.post lo hi
          fo.slot x slots kx p in
      ((n', r, tk, lv, rw sl (w.0)), entries_of-internal l t b n' r ∙ rw sl (w.1))

  -- The node on a fresh block, with its child on another one.
  abbrev pub fresh_copy : Moved → ℕ × NodeStore
  fresh_copy r = write_fresh r.1.store (set_child_block n (length fo.pre) r.0)

  pub relinked_fresh :
      (k : ℕ) (r : Moved)
      → Grown k e.store r.1.store
      → e.store.next_block_nr + (k + 1) < 2 ^ 64
      → Clean r.1.store
      → e.next_bset_seq ≤ r.1.next_bset_seq
      → Sound l r.1.next_bset_seq r.1.store (low lo fo.pre) (high hi fo.slot fo.post) r.0
      → Clean (fresh_copy r).1
        × Sound (suc l) r.1.next_bset_seq (fresh_copy r).1 lo hi (fresh_copy r).0
        × (entries_of (suc l) (fresh_copy r).1 (fresh_copy r).0
            ≡ mended (entries_of l r.1.store r.0))
  relinked_fresh k r g room clean later p =
      let m' = r.1.next_bset_seq in
      let s = r.1.store in
      let up = g.high in
      let n' = set_child_block n (length fo.pre) r.0 in
      let w = write_fresh_lem s n' clean (omega arith) in
      let t = (write_fresh s n').1 in
      let sc = set_child_lem n fo.pre fo.post fo.slot r.0 fo.split in
      let kept = Sound-kept 1 s t m' m' w.grown (omega arith) l _ _ r.0 p in
      let tk = (Sound-Taken l m' s _ _ r.0 p).1 in
      let cx = child-set_child fo.slot r.0 (omega arith) in
      let z =
        relinked (k + 1) m' t (write_fresh s n').0 n' (set_child fo.slot r.0)
          (Grown-trans k 1 e.store s t (omega arith) g w.grown) later w.reads w.taken (sc.1 ∙ level)
          sc.0 (key_bytes-set_child fo.slot r.0) (rw cx kept.0) in
      (w.clean, z.0, z.1 ∙ ap mended (ap (λ c. entries_of l t c) cx ∙ kept.1))

  module _ (k : ℕ) (r : Moved) (g : Grown k e.store r.1.store)
      (room : e.store.next_block_nr + (k + 4) < 2 ^ 64)
      (ins : Inserted l
        (low lo fo.pre)
        (high hi fo.slot fo.post)
        key
        v
        (f (child fo.slot))
        e
        r) where
    abbrev m' : ℕ
    m' = r.1.next_bset_seq

    -- The child has stayed at its level, on the same block.
    in_its_place :
        (r.0 == child fo.slot) ≡ true
        → Sound l m' r.1.store (low lo fo.pre) (high hi fo.slot fo.post) r.0
        → entries_of l r.1.store r.0 ≡ ins.below
        → Inserted (suc l) lo hi key v (entries_of (suc l) e.store nr) e (nr, r.1)
    in_its_place q p b =
        let eq : r.0 ≡ child fo.slot = ground arith in
        let w =
          relinked k m' r.1.store nr n fo.slot g ins.later
            (with_node-kept k e.store r.1.store nr g taken ∙ reads) (g.taken nr taken) level
            fo.split refl
            (subst (λ c. Sound l m' r.1.store (low lo fo.pre) (high hi fo.slot fo.post) c) eq p) in
        record {
          clean = ins.clean;
          later = ins.later;
          below = mended ins.below;
          rises = same w.0 (w.1 ∙ ap mended (ap (λ c. entries_of l r.1.store c) (sym eq) ∙ b));
          updated = around ins.below ins.updated;
        }

    -- The child has stayed at its level, on another block.
    moved_to :
        Sound l m' r.1.store (low lo fo.pre) (high hi fo.slot fo.post) r.0
        → entries_of l r.1.store r.0 ≡ ins.below
        → Inserted (suc l) lo hi key v (entries_of (suc l) e.store nr) e (
            let w = write_fresh r.1.store (set_child_block n (length fo.pre) r.0) in
            (w.0, record r.1 { store = w.1 }))
    moved_to p b =
        let z = relinked_fresh k r g (omega arith) ins.clean ins.later p in
        record {
          clean = z.0;
          later = ins.later;
          below = mended ins.below;
          rises = same z.1 (z.2 ∙ ap mended b);
          updated = around ins.below ins.updated;
        }

    -- The child has split, and the split is taken up.
    taken_up :
        (tw : Twin l m' r.1.store (low lo fo.pre) (high hi fo.slot fo.post) r.0)
        → entries_of (suc l) r.1.store r.0 ≡ ins.below
        → (w : Moved) × (absorb_split r.1 n (length fo.pre) r.0 ≡ ok w)
          × Inserted (suc l) lo hi key v (entries_of (suc l) e.store nr) e w
    unfolding absorb_split
    taken_up tw b =
        let s = r.1.store in
        let up = g.high in
        let (w, done, land) =
          promote_lem l m' s ins.clean (omega arith) k e.next_bset_seq e.store n fo.pre fo.post lo
            hi fo.slot (key_bytes tw.x) (child tw.x) (child tw.y) g ins.later level fo.split slots
            tw.fits tw.over tw.under tw.left tw.right in
        let pair : entries_of l s (child tw.x) ++ entries_of l s (child tw.y) ≡ ins.below =
          ap (λ r. entries_of l s (child tw.x) ++ r)
            (sym (append-nil (entries_of l s (child tw.y))))
          ∙ sym (
              entries_of-internal l s r.0 tw.node tw.reads
              ∙ ap (λ es. gather (λ c. entries_of l s c) es) tw.slots)
          ∙ b in
        (
          (w.0, record r.1 { store = w.1 }),
          rw (promoted_lem l m' s _ _ r.0 tw) (rw done refl),
          record {
            clean = land.clean;
            later = ins.later;
            below = mended ins.below;
            rises = rw (← pair) land.rises;
            updated = around ins.below ins.updated;
          },
        )

    -- The three ways together.
    finish :
        (kind : EntryKind) (value : Bytes) (recur : Edit → ℕ → Outcome Moved) (c : Node)
        → route n key ≡ ok (length fo.pre, child fo.slot)
        → with_node e.store (child fo.slot) ≡ ok c
        → c.level ≡ l
        → recur e (child fo.slot) ≡ ok r
        → (w : Moved) × (insert_internal cow key kind value recur e nr ≡ ok w)
          × Inserted (suc l) lo hi key v (entries_of (suc l) e.store nr) e w
    unfolding insert_internal
    finish kind value recur c routed c_reads c_level done = by ins.rises
      where
        old : with_node r.1.store nr ≡ ok n
        old = with_node-kept k e.store r.1.store nr g taken ∙ reads

        by :
            Rises l m' r.1.store (low lo fo.pre) (high hi fo.slot fo.post) r.0 ins.below
            → (w : Moved) × (insert_internal cow key kind value recur e nr ≡ ok w)
              × Inserted (suc l) lo hi key v (entries_of (suc l) e.store nr) e w
        by (same p b) =
            let (cn, rn, ln) = Sound-level l m' r.1.store _ _ r.0 p in
            let flat = level_same c.level cn.level l c_level ln in
            elim (Bool-cases (r.0 == child fo.slot)) [
              | inl q ↦ (
                (nr, r.1),
                rw reads (rw routed (rw c_reads (rw done (rw rn (rw (flat, q) refl))))),
                in_its_place q p b,
              )
              | inr q ↦ (
                _,
                rw reads (rw routed (rw c_reads (rw done (rw rn (rw (flat, q) (rw old refl)))))),
                moved_to p b,
              )
            ]
        by (grew tw b) =
            let up = level_grew c.level tw.node.level l c_level tw.level in
            let (w, absorbed, z) = taken_up tw b in
            let step : insert_internal cow key kind value recur e nr
                ≡ absorb_split r.1 n (length fo.pre) r.0 =
              rw reads (rw routed (rw c_reads (rw done (rw (tw.reads) (rw up (rw old refl)))))) in
            (w, step ∙ absorbed, z)

-- The slot that the key leads to.
pub way :
    (l m : ℕ) (s : NodeStore) (lo hi : Option Bytes) (n : Node) (key : Bytes)
    → Rows (λ x y c. Sound l m s x y c) lo hi (single n)
    → FromLo lo key
    → UnderHi hi key
    → (fo : Focus (λ x y c. Sound l m s x y c) (λ c. entries_of l s c) lo hi (single n) key)
      × (route n key ≡ ok (length fo.pre, child fo.slot))
way l m s lo hi n key rows from under =
    let P = λ (x y : Option Bytes) (c : ℕ). Sound l m s x y c in
    let f = λ (c : ℕ). entries_of l s c in
    let to_tree =
      λ (x y : Option Bytes) (c : ℕ) (p : Sound l m s x y c). Sound-IsTree l m s x y c p in
    let fo =
      focus P f (λ x y c p. entries_of-within l s x y c (to_tree x y c p)) lo hi (single n) key rows
        from under in
    let sorted =
      separators-IsSorted l s lo hi (single n)
        (Rows-Branches P (λ x y c. IsTree l s x y c) to_tree lo hi (single n) rows) in
    let i = child_index (search_internal n key) in
    let at : i ≡ length fo.pre =
      place_of i fo.pre fo.slot fo.post
        (ap (λ es. drop i es) (sym fo.split) ∙ seek_lem n key sorted ∙ fo.found) in
    let routed : route n key ≡ ok (length fo.pre, child fo.slot) =
      route_lem n key fo.slot fo.post sorted fo.found ∙ ap (λ j. ok (j, child fo.slot)) at in
    (fo, routed)

-- The insert into a child, as `insert_internal` makes it.
abbrev pub Recurs : (Edit → ℕ → Outcome Moved) → ℕ → ℕ → Edit → Bytes → DiskEntry → Type 0
Recurs recur k l e key v =
    (c : ℕ) (a b : Option Bytes)
    → Sound l e.next_bset_seq e.store a b c
    → FromLo a key
    → UnderHi b key
    → (r : Moved) × (recur e c ≡ ok r)
      × Grown k e.store r.1.store
      × Inserted l a b key v (entries_of l e.store c) e r

pub internal_lem :
    (key : Bytes) (kind : EntryKind) (value : Bytes) (recur : Edit → ℕ → Outcome Moved)
    (v : DiskEntry) (k l : ℕ) (e : Edit) (nr : ℕ) (lo hi : Option Bytes)
    → Sound (suc l) e.next_bset_seq e.store lo hi nr
    → FromLo lo key
    → UnderHi hi key
    → e.store.next_block_nr + (k + 4) < 2 ^ 64
    → Recurs recur k l e key v
    → (r : Moved) × (insert_internal cow key kind value recur e nr ≡ ok r)
      × Inserted (suc l) lo hi key v (entries_of (suc l) e.store nr) e r
unfolding insert_internal
internal_lem key kind value recur v k l e nr lo hi (n, reads, taken, level, rows) from under room
      recurs =
    let m = e.next_bset_seq in
    let (fo, routed) = way l m e.store lo hi n key rows from under in
    let (c, c_reads, c_level) = Sound-level l m e.store _ _ (child fo.slot) fo.holds in
    let (r, done, g, ins) =
      recurs (child fo.slot) (low lo fo.pre) (high hi fo.slot fo.post) fo.holds fo.from fo.under in
    let old = with_node-kept k e.store r.1.store nr g taken ∙ reads in
    finish l e key v lo hi nr n reads taken level rows fo k r g room ins kind value recur c routed
      c_reads c_level done
