-- ===== src/Btree/Update/Into.antt =====
-- `insert_half` on the halves of a leaf that was split.
use rfs.Prelude.{
  ℕ, zero, suc, ◌+◌, ◌^◌, ◌≤◌, ◌<◌, ◌≡◌, ◌≢◌, refl, ap, ◌∙◌, sym, Bool, true, false, Option, none,
  some, List, [], ◌∷◌, ◌++◌, arith, length, drop, ltb, Bool-cases, inl, inr, subst, append-nil,
}
use rfs.Prelude.Outcome.{Outcome, ok}
use rfs.Bytes.{Bytes, ◌≺◌}
use rfs.Entry.{DiskEntry, key_bytes, child, set_child}
use rfs.Entry.Kind.{EntryKind}
use rfs.Node.{Node, single, set_child_block, search_internal, child_index}
use rfs.Node.Search.{IsSorted, lookup}
use rfs.Node.Merged.{merged}
use rfs.Btree.{cow, with_node, write_node, route}
use rfs.Btree.Split.{Edit, Halves, with_halves}
use rfs.Btree.Insert.{Moved, insert_half, insert}
use rfs.Btree.Bounds.{◌⪯◌, lookup-append, lookup_over}
use rfs.Btree.Read.{below}
use rfs.Btree.Route.{seek, seek_lem, separators}
use rfs.Btree.Lookup.{route_lem}
use rfs.Btree.Shape.{entries_of, entries_of-leaf, entries_of-internal}
use rfs.Btree.Slots.{child-set_child, key_bytes-set_child}
use rfs.Btree.Slots.Focus.{place_of, Updated, Updated-between, Updated-of_lookup}
use rfs.Btree.Fresh.{Taken, Grown}
use rfs.Btree.Isolation.{with_node-kept}
use rfs.Btree.Sound.{Clean, Good, AllWithin-Good, Sound, Sound-Taken, Sound-kept}
use rfs.Btree.Promote.{grew}
use rfs.Btree.Update.{Inserted, set_child_lem, Sound-level}
use rfs.Btree.Update.Leaves.{v, leaf_fits_lem}
use rfs.Btree.Update.LeafSplit.{LeafSplit}
use rfs.Btree.Update.Halves.{halves, Laid, read_back, Clean-write, Taken-write, leaf_beside}

module _ (fuel : ℕ) (key : Bytes) (kind : EntryKind) (value : Bytes) (e : Edit) (n : Node)
    (lo hi : Option Bytes) (sp : LeafSplit e n lo hi) (good : Good lo hi key)
    (room : e.store.next_block_nr + 4 < 2 ^ 64) (la : Laid e n lo hi sp (halves e n lo hi sp)) where
  abbrev h : Halves
  h = halves e n lo hi sp

  abbrev e2 : Edit
  e2 = record { store = h.store; next_bset_seq = sp.m' }

  abbrev root : Node
  root = with_halves h

  abbrev recur : Edit → ℕ → Outcome Moved
  recur d c = insert (suc fuel) cow key kind value d c

  abbrev k : Bytes
  k = key_bytes sp.sep

  sorted : IsSorted (separators (single root))
  sorted = rw (la.slots) (tt, tt)

  -- The slot that the search leads to.
  routed :
      (d : DiskEntry) (pre post : List DiskEntry)
      → la.x ∷ la.y ∷ [] ≡ pre ++ d ∷ post
      → seek (la.x ∷ la.y ∷ []) key ≡ d ∷ post
      → route root key ≡ ok (length pre, child d)
  routed d pre post p q =
      let found : seek (single root) key ≡ d ∷ post = ap (λ es. seek es key) la.slots ∙ q in
      let i = child_index (search_internal root key) in
      let at : i ≡ length pre = place_of i pre d post (
        ap (λ es. drop i es) (sym p)
        ∙ ap (λ es. drop i es) (sym la.slots)
        ∙ seek_lem root key sorted
        ∙ found) in
      route_lem root key d post sorted found ∙ ap (λ j. ok (j, child d)) at

  -- The call, where the write into the half returns `r`.
  abbrev landed : ℕ → Moved → Moved
  landed i r = (
    h.root_nr,
    record r.1 { store = write_node r.1.store h.root_nr (set_child_block root i r.0) },
  )

  level_flat : (a b : ℕ) → a ≡ 0 → b ≡ 0 → ltb a b ≡ false
  level_flat a b p q = ground arith

  stepped :
      (i c : ℕ) (cn rn : Node) (r : Moved)
      → route root key ≡ ok (i, c)
      → with_node h.store c ≡ ok cn
      → cn.level ≡ 0
      → recur e2 c ≡ ok r
      → with_node r.1.store r.0 ≡ ok rn
      → rn.level ≡ 0
      → insert_half cow key kind value recur e2 h ≡ ok (landed i r)
  unfolding insert_half
  stepped i c cn rn r p q lc done w lr =
      rw p (rw q (rw done (rw w (rw (level_flat cn.level rn.level lc lr) refl))))

  -- The new parent of a written half and the other one.
  twin_of :
      (i : ℕ) (r : Moved) (x y : DiskEntry)
      → Clean r.1.store
      → e.next_bset_seq ≤ r.1.next_bset_seq
      → Taken r.1.store h.root_nr
      → single (set_child_block root i r.0) ≡ x ∷ y ∷ []
      → (set_child_block root i r.0).level ≡ 1
      → key_bytes x ≡ k
      → child x ≢ h.root_nr
      → child y ≢ h.root_nr
      → Sound zero r.1.next_bset_seq r.1.store lo (some k) (child x)
      → Sound zero r.1.next_bset_seq r.1.store (some k) hi (child y)
      → (old : List DiskEntry)
      → Updated key
          (v key kind value)
          old
          (entries_of zero r.1.store (child x) ++ (entries_of zero r.1.store (child y) ++ []))
      → Inserted zero lo hi key (v key kind value) old e (landed i r)
  twin_of i r x y clean later t sl lv kx nx ny px py old u =
      let s = r.1.store in
      let w = set_child_block root i r.0 in
      let s5 = write_node s h.root_nr w in
      let a = leaf_beside r.1.next_bset_seq s lo (some k) (child x) h.root_nr w nx px in
      let b = leaf_beside r.1.next_bset_seq s (some k) hi (child y) h.root_nr w ny py in
      let reads = read_back s h.root_nr w in
      record {
        clean = Clean-write s h.root_nr w clean;
        later = later;
        below = entries_of zero s (child x) ++ (entries_of zero s (child y) ++ []);
        rises =
            grew
              (record {
                node = w;
                reads = reads;
                taken = Taken-write s h.root_nr h.root_nr w t;
                level = lv;
                x = x;
                y = y;
                slots = sl;
                fits = rw kx sp.key_fits;
                over = rw kx sp.over;
                under = rw kx sp.under;
                left = rw kx (a.0);
                right = rw kx (b.0);
              })
              (entries_of-internal zero s5 h.root_nr w reads ∙ rw sl (rw (a.1, b.1) refl));
        updated = u;
      }

  abbrev Result : Type 0
  Result =
      (w : Moved) × (insert_half cow key kind value recur e2 h ≡ ok w)
      × Inserted zero lo hi key (v key kind value) (merged n) e w

  below_x : (q : Bool) → below key k ≡ q → below key (key_bytes la.x) ≡ q
  below_x q p = rw (la.key_x) p

  -- What a block holds that is as before, against the leaf.
  kept_run :
      (r : Moved) (b : ℕ) (m : Node)
      → Grown 1 h.store r.1.store
      → with_node h.store b ≡ ok m
      → Taken h.store b
      → entries_of zero r.1.store b ≡ merged m
  kept_run r b m g q t =
      entries_of-leaf r.1.store b m (with_node-kept 1 h.store r.1.store b g t ∙ q)

  into_left : below key k ≡ true → Result
  unfolding lookup
  into_left q =
      let lt_k : key ≺ k = ground arith in
      let bound = la.bounded in
      let (r, done, lw) =
        leaf_fits_lem key kind value fuel e2 h.left lo (some k) sp.lower la.reads_left sp.left.leaf
          sp.left.keys (good.0, lt_k, good.2) (sp.left.fits key) la.clean (omega arith) in
      let (rn, rr, rl) = Sound-level zero r.1.next_bset_seq r.1.store lo (some k) r.0 lw.sound in
      let t = (Sound-Taken zero r.1.next_bset_seq r.1.store lo (some k) r.0 lw.sound).1 in
      let up = lw.grown.high in
      let cx = child-set_child la.x r.0 (omega arith) in
      let sc = set_child_lem root [] (la.y ∷ []) la.x r.0 la.slots in
      let s = r.1.store in
      let way = routed la.x [] (la.y ∷ []) refl (rw (below_x true q) refl) in
      let other =
        (Sound-kept 1 h.store s sp.m' r.1.next_bset_seq lw.grown lw.later zero (some k) hi h.right
          (sp.upper, la.reads_right, la.right_taken, sp.right.leaf, sp.right.keys)).0 in
      let held = kept_run r h.right sp.upper lw.grown la.reads_right la.right_taken in
      let rest = entries_of zero s h.right ++ [] in
      let u =
        Updated-of_lookup key (v key kind value) (entries_of zero h.store h.left ++ rest) (merged n)
          (entries_of zero s r.0 ++ rest)
          (entries_of zero s (child (set_child la.x r.0)) ++ (entries_of zero s (child la.y) ++ []))
          (λ j.
            sym (sp.holds j)
            ∙ sym (lookup-append (merged sp.lower) (merged sp.upper) j)
            ∙ ap (λ es. lookup es j)
                (rw
                  (
                    entries_of-leaf h.store h.left sp.lower la.reads_left,
                    held,
                    append-nil (merged sp.upper),
                  )
                  refl))
          (λ j. rw (cx, la.child_y) refl)
          (Updated-between key (v key kind value) [] rest (entries_of zero h.store h.left)
            (entries_of zero s r.0) refl lw.updated) in
      (
        landed 0 r,
        stepped 0 h.left sp.lower rn r (way ∙ ap (λ c. ok (0, c)) la.child_x) la.reads_left
            sp.left.leaf.leaf done rr rl,
        twin_of 0 r (set_child la.x r.0) la.y lw.clean
            (let a = sp.later in let b = lw.later in omega arith)
            (lw.grown.taken h.root_nr la.root_taken) sc.0 (sc.1 ∙ la.level)
            (key_bytes-set_child la.x r.0 ∙ la.key_x)
            (λ p. lw.fresh (subst (λ b. Taken h.store b) (sym p ∙ cx) la.root_taken))
            (λ p. la.not_right (sym la.child_y ∙ p)) (rw cx (lw.sound)) (rw (la.child_y) other)
            (merged n) u,
      )

  into_right : below key k ≡ false → Result
  into_right q =
      let le_k : k ⪯ key = ground arith in
      let bound = la.bounded in
      let (r, done, lw) =
        leaf_fits_lem key kind value fuel e2 h.right (some k) hi sp.upper la.reads_right
          sp.right.leaf sp.right.keys (le_k, good.1, good.2) (sp.right.fits key) la.clean
          (omega arith) in
      let (rn, rr, rl) = Sound-level zero r.1.next_bset_seq r.1.store (some k) hi r.0 lw.sound in
      let t = (Sound-Taken zero r.1.next_bset_seq r.1.store (some k) hi r.0 lw.sound).1 in
      let up = lw.grown.high in
      let cy = child-set_child la.y r.0 (omega arith) in
      let sc = set_child_lem root (la.x ∷ []) [] la.y r.0 la.slots in
      let s = r.1.store in
      let way = routed la.y (la.x ∷ []) [] refl (rw (below_x false q) refl) in
      let other =
        (Sound-kept 1 h.store s sp.m' r.1.next_bset_seq lw.grown lw.later zero lo (some k) h.left
          (sp.lower, la.reads_left, la.left_taken, sp.left.leaf, sp.left.keys)).0 in
      let held = kept_run r h.left sp.lower lw.grown la.reads_left la.left_taken in
      let pre = entries_of zero s h.left in
      let missed : lookup pre key ≡ none =
        ap (λ es. lookup es key) held
        ∙ lookup_over lo k key (merged sp.lower)
            (AllWithin-Good lo (some k) (merged sp.lower) sp.left.keys) le_k in
      let u =
        Updated-of_lookup key (v key kind value) (pre ++ (entries_of zero h.store h.right ++ []))
          (merged n) (pre ++ (entries_of zero s r.0 ++ []))
          (entries_of zero s (child la.x) ++ (entries_of zero s (child (set_child la.y r.0)) ++ []))
          (λ j.
            sym (sp.holds j)
            ∙ sym (lookup-append (merged sp.lower) (merged sp.upper) j)
            ∙ ap (λ es. lookup es j)
                (rw
                  (
                    entries_of-leaf h.store h.right sp.upper la.reads_right,
                    held,
                    append-nil (merged sp.upper),
                  )
                  refl))
          (λ j. rw (cy, la.child_x) refl)
          (Updated-between key (v key kind value) pre [] (entries_of zero h.store h.right)
            (entries_of zero s r.0) missed lw.updated) in
      (
        landed 1 r,
        stepped 1 h.right sp.upper rn r (way ∙ ap (λ c. ok (1, c)) la.child_y) la.reads_right
            sp.right.leaf.leaf done rr rl,
        twin_of 1 r la.x (set_child la.y r.0) lw.clean
            (let a = sp.later in let b = lw.later in omega arith)
            (lw.grown.taken h.root_nr la.root_taken) sc.0 (sc.1 ∙ la.level) la.key_x
            (λ p. la.not_left (sym la.child_x ∙ p))
            (λ p. lw.fresh (subst (λ b. Taken h.store b) (sym p ∙ cy) la.root_taken))
            (rw (la.child_x) other) (rw cy (lw.sound)) (merged n) u,
      )

  pub half_lem : Result
  half_lem = elim (Bool-cases (below key k)) [ inl q ↦ into_left q | inr q ↦ into_right q ]
