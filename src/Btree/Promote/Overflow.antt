-- ===== src/Btree/Promote/Overflow.antt =====
-- The split of an internal node that has too many slots.
use rfs.Prelude.{
  ℕ, suc, ◌+◌, ◌-◌, ◌/◌, ◌^◌, ◌<◌, ◌≡◌, refl, ap, ◌∙◌, sym, true, Option, some, List, [], ◌∷◌, ◌++◌,
  arith, length, replicate, append_assoc, ltb, append-nil, subst,
}
use rfs.Prelude.Outcome.{ok}
use rfs.Bytes.{Bytes}
use rfs.Entry.{DiskEntry, empty, key_bytes, set_child}
use rfs.Node.{Node, single, nkeys, set_nkeys}
use rfs.Btree.{NodeStore, alloc, write_node, write_fresh, with_node}
use rfs.Btree.Split.{Halves, one_bset, split_internal_node, with_halves}
use rfs.Btree.Shape.{gather, entries_of, entries_of-internal}
use rfs.Btree.Slots.{child-set_child, key_bytes-set_child, Rows, Rows-kept, Cut-Rows, gather-append}
use rfs.Btree.Slots.Copies.{copy_slots_lem}
use rfs.Btree.Fresh.{Taken, Grown}
use rfs.Btree.Isolation.{with_node-kept}
use rfs.Btree.Sound.{Clean, write_fresh_lem, Sound, Sound-kept, Sound-Taken}
use rfs.Btree.Promote.{
  Grown-trans, Twin, halves_of, write_halves_lem, with_halves_lem, place_at, get-place, drop-place,
  take-place,
}

nkeys_lem :
    (l generation : ℕ) (e : DiskEntry) (es : List DiskEntry)
    → nkeys (one_bset (suc l) generation (e ∷ es)) ≡ length es
unfolding nkeys
nkeys_lem l generation e es =
    let h : ltb 0 (suc l) ≡ true = ground arith in
    let k : ltb 0 (suc (length es) + 0) ≡ true = ground arith in rw (h, k) (omega arith)

pub nkeys-slots :
    (l generation : ℕ) (es : List DiskEntry)
    → 0 < length es
    → nkeys (one_bset (suc l) generation es) ≡ length es - 1
nkeys-slots l generation [] h = absurd (omega arith)
nkeys-slots l generation (e ∷ es) h = nkeys_lem l generation e es ∙ omega arith

lower_slots :
    (l generation : ℕ) (pre rest : List DiskEntry) (m : DiskEntry)
    → single (set_nkeys (one_bset (suc l) generation (pre ++ m ∷ rest)) (length pre))
      ≡ pre ++ m ∷ []
unfolding set_nkeys
lower_slots l generation pre rest m =
    let h : ltb 0 (suc l) ≡ true = ground arith in
    let fill = replicate {A = DiskEntry} (length pre + 1) empty in
    rw h (rw (append_assoc pre (m ∷ rest) fill) (take-place pre (rest ++ fill) m))

lower_level :
    (l generation : ℕ) (es : List DiskEntry) (k : ℕ)
    → (set_nkeys (one_bset (suc l) generation es) k).level ≡ suc l
unfolding set_nkeys
lower_level l generation es k = refl

-- The block that is allocated first and written last is a fresh write.
pub written_last :
    (s : NodeStore) (n : Node)
    → ((alloc s).0, write_node (alloc s).1 (alloc s).0 n) ≡ write_fresh s n
unfolding write_fresh
written_last s n = refl

module _ (l m : ℕ) (s : NodeStore) (clean : Clean s) (room : s.next_block_nr + 3 < 2 ^ 64) where
  abbrev P : Option Bytes → Option Bytes → ℕ → Type 0
  P lo hi c = Sound l m s lo hi c

  abbrev f : ℕ → List DiskEntry
  f c = entries_of l s c

  small : (lo hi : Option Bytes) (c : ℕ) → P lo hi c → c < 2 ^ 64
  small lo hi c p = let t = (Sound-Taken l m s lo hi c p).1 in omega arith

  -- A node with given slots in a store that has grown.
  settled :
      (k : ℕ) (s' : NodeStore) (lo hi : Option Bytes) (nr : ℕ) (n : Node) (es : List DiskEntry)
      → Grown k s s'
      → with_node s' nr ≡ ok n
      → Taken s' nr
      → n.level ≡ suc l
      → single n ≡ es
      → Rows P lo hi es
      → Sound (suc l) m s' lo hi nr × (entries_of (suc l) s' nr ≡ gather f es)
  settled k s' lo hi nr n es g r t v e b =
      let w =
        Rows-kept P (λ x y c. Sound l m s' x y c) f (λ c. entries_of l s' c)
          (λ x y c p. Sound-kept k s s' m m g (omega arith) l x y c p) lo hi es b in
      ((n, r, t, v, rw e (w.0)), entries_of-internal l s' nr n r ∙ rw e (w.1))

  -- A node that has too many slots, cut at the middle.
  pub record Overflown (generation : ℕ) (es : List DiskEntry) (lo hi : Option Bytes) : Type 0 where
    pub halves : Halves
    pub done : split_internal_node s (one_bset (suc l) generation es) ≡ ok halves
    pub store : NodeStore
    pub stored : write_node halves.store halves.root_nr (with_halves halves) ≡ store
    pub cleaned : Clean store
    pub grown : Grown 3 s store
    pub twin : Twin (suc l) m store lo hi halves.root_nr
    pub below : entries_of (suc (suc l)) store halves.root_nr ≡ gather f es

  Overflown-at :
      (generation : ℕ) (pre : List DiskEntry) (e q : DiskEntry) (post : List DiskEntry)
      (lo hi : Option Bytes)
      → nkeys (one_bset (suc l) generation (pre ++ e ∷ q ∷ post)) / 2 ≡ length pre
      → Rows P lo hi (pre ++ e ∷ q ∷ post)
      → Overflown generation (pre ++ e ∷ q ∷ post) lo hi
  unfolding split_internal_node
  Overflown-at generation pre e q post lo hi mid b =
      let node = one_bset (suc l) generation (pre ++ e ∷ q ∷ post) in
      let c = Cut-Rows P pre lo hi e q post b in
      let (ds, copied, made) =
        copy_slots_lem P f small (some (key_bytes e)) hi (q ∷ post) c.right in
      let lower = set_nkeys node (length pre) in
      let upper = one_bset (suc l) generation ds in
      let (sep, halved, key) =
        write_halves_lem s (suc l + 1) generation (key_bytes e) lower upper c.fits in
      let h = halves_of s (suc l + 1) generation sep lower upper in
      let w1 = write_fresh_lem s lower clean (omega arith) in
      let s1 = (write_fresh s lower).1 in
      let w2 = write_fresh_lem s1 upper w1.clean (let x = w1.grown.high in omega arith) in
      let s2 = (write_fresh s1 upper).1 in
      let w3 =
        write_fresh_lem s2 (with_halves h) w2.clean
          (let x = w1.grown.high in let y = w2.grown.high in omega arith) in
      let s3 = (write_fresh s2 (with_halves h)).1 in
      let root = (write_fresh s2 (with_halves h)).0 in
      let g23 = Grown-trans 1 1 s1 s2 s3 (let x = w1.grown.high in omega arith) w2.grown w3.grown in
      let g = Grown-trans 1 2 s s1 s3 (omega arith) w1.grown g23 in
      let nl = (write_fresh s lower).0 in
      let nr = (write_fresh s1 upper).0 in
      let x = set_child sep nl in
      let y = set_child empty nr in
      let cx =
        child-set_child sep nl (let t = w1.taken.1 in let a = w1.grown.high in omega arith) in
      let cy =
        child-set_child empty nr
          (let t = w2.taken.1 in let a = w1.grown.high in let b = w2.grown.high in omega arith) in
      let kx : key_bytes x ≡ key_bytes e = key_bytes-set_child sep nl ∙ key in
      let w = with_halves_lem s (suc l + 1) generation sep lower upper in
      let low_half =
        settled 3 s3 lo (some (key_bytes e)) nl lower (pre ++ e ∷ []) g
          (with_node-kept 2 s1 s3 nl g23 w1.taken ∙ w1.reads) (g23.taken nl w1.taken)
          (lower_level l generation (pre ++ e ∷ q ∷ post) (length pre))
          (lower_slots l generation pre (q ∷ post) e) c.left in
      let high_half =
        settled 3 s3 (some (key_bytes e)) hi nr upper ds g
          (with_node-kept 1 s2 s3 nr w3.grown w2.taken ∙ w2.reads) (w3.grown.taken nr w2.taken) refl
          refl made.rows in
      let slots : single (with_halves h) ≡ x ∷ y ∷ [] = ap (λ n. single n) w in
      let at_root = ap (λ (r : ℕ × NodeStore). r.0) (written_last s2 (with_halves h)) in
      record {
        halves = h;
        done = rw (mid, get-place pre (q ∷ post) e, drop-place pre (q ∷ post) e, copied) halved;
        store = s3;
        stored = ap (λ (r : ℕ × NodeStore). r.1) (written_last s2 (with_halves h));
        cleaned = w3.clean;
        grown = g;
        twin = rw at_root (record {
          node = with_halves h;
          reads = w3.reads;
          taken = w3.taken;
          level = ap (λ (n : Node). n.level) w ∙ omega arith;
          x = x;
          y = y;
          slots = slots;
          fits = rw kx c.fits;
          over = rw kx c.over;
          under = rw kx c.under;
          left = rw (kx, cx) low_half.0;
          right = rw (kx, cy) high_half.0;
        });
        below = rw at_root (
            entries_of-internal (suc l) s3 root (with_halves h) w3.reads
            ∙ rw slots (
                rw (cx, cy, low_half.1, high_half.1)
                  (rw (append-nil (gather f ds), made.gathers)
                    (sym (gather-append f (pre ++ e ∷ []) (q ∷ post))
                      ∙ ap (λ r. gather f r) (append_assoc pre (e ∷ []) (q ∷ post))))));
      }

  -- A node with more than 27 separators splits.
  pub overflown :
      (generation : ℕ) (es : List DiskEntry) (lo hi : Option Bytes)
      → 28 < length es
      → Rows P lo hi es
      → Overflown generation es lo hi
  overflown generation es lo hi long b =
      let count = nkeys-slots l generation es (omega arith) in
      let (pre, e, q, post, split, size) =
        place_at (nkeys (one_bset (suc l) generation es) / 2) es (omega (arith, count)) in
      subst (λ ds. Overflown generation ds lo hi) (sym split)
        (Overflown-at generation pre e q post lo hi
          (ap (λ ds. nkeys (one_bset (suc l) generation ds) / 2) (sym split) ∙ sym size)
          (subst (λ ds. Rows P lo hi ds) split b))
