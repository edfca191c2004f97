-- ===== src/Btree/Update/Halves.antt =====
-- `insert_half`: the write into one of the two leaves that a split has made, and their new parent.
use rfs.Prelude.{ℕ, zero, ◌+◌, ◌^◌, ◌≤◌, ◌<◌, ◌≡◌, ◌≢◌, ap, ◌∙◌, sym, Option, [], ◌∷◌, arith, subst}
use rfs.Prelude.Outcome.{ok}
use rfs.Bytes.{Bytes}
use rfs.Entry.{DiskEntry, empty, key_bytes, child, set_child}
use rfs.Node.{Node, single}
use rfs.Btree.{NodeStore, alloc, with_node, write_node, write_fresh, put}
use rfs.Btree.Split.{Edit, Halves, with_halves}
use rfs.Btree.Shape.{entries_of, entries_of-leaf}
use rfs.Btree.Slots.{child-set_child, key_bytes-set_child}
use rfs.Btree.Fresh.{Taken, Fresh-alloc, Extends-alloc}
use rfs.Btree.Isolation.{with_node-kept}
use rfs.Btree.Sound.{Clean, alloc_lem, write_fresh_lem, Sound}
use rfs.Btree.Promote.{Grown-trans, halves_of, with_halves_lem}
use rfs.Btree.Update.LeafSplit.{LeafSplit}

pub read_back : (s : NodeStore) (nr : ℕ) (n : Node) → with_node (write_node s nr n) nr ≡ ok n
unfolding with_node write_node put
read_back s nr n = ground arith

pub read_beside :
    (s : NodeStore) (nr b : ℕ) (n : Node) → b ≢ nr → with_node (write_node s nr n) b ≡ with_node s b
unfolding with_node write_node put
read_beside s nr b n h = ground arith

pub Clean-write : (s : NodeStore) (nr : ℕ) (n : Node) → Clean s → Clean (write_node s nr n)
unfolding write_node put
Clean-write s nr n c = record { once = c.once; bound = c.bound }

pub Taken-write : (s : NodeStore) (nr b : ℕ) (n : Node) → Taken s b → Taken (write_node s nr n) b
unfolding write_node put
Taken-write s nr b n t = t

-- A leaf on another block.
pub leaf_beside :
    (m : ℕ) (s : NodeStore) (lo hi : Option Bytes) (b nr : ℕ) (n : Node)
    → b ≢ nr
    → Sound zero m s lo hi b
    → Sound zero m (write_node s nr n) lo hi b
      × (entries_of zero (write_node s nr n) b ≡ entries_of zero s b)
leaf_beside m s lo hi b nr n h (d, r, t, w, a) =
    let r' = read_beside s nr b n h ∙ r in
    (
      (d, r', Taken-write s nr b n t, w, a),
      entries_of-leaf (write_node s nr n) b d r' ∙ sym (entries_of-leaf s b d r),
    )

abbrev pub halves : (e : Edit) (n : Node) (lo hi : Option Bytes) → LeafSplit e n lo hi → Halves
halves e n lo hi sp = halves_of e.store 1 sp.generation sp.sep sp.lower sp.upper

-- The halves of a split, in the store behind it.
pub record Laid (e : Edit) (n : Node) (lo hi : Option Bytes) (sp : LeafSplit e n lo hi) (h : Halves)
    : Type 0 where
  pub x : DiskEntry
  pub y : DiskEntry
  pub slots : single (with_halves h) ≡ x ∷ y ∷ []
  pub level : (with_halves h).level ≡ 1
  pub key_x : key_bytes x ≡ key_bytes sp.sep
  pub child_x : child x ≡ h.left
  pub child_y : child y ≡ h.right
  pub clean : Clean h.store
  pub bounded : h.store.next_block_nr ≤ e.store.next_block_nr + 3
  pub root_taken : Taken h.store h.root_nr
  pub reads_left : with_node h.store h.left ≡ ok sp.lower
  pub reads_right : with_node h.store h.right ≡ ok sp.upper
  pub left_taken : Taken h.store h.left
  pub right_taken : Taken h.store h.right
  pub not_left : h.left ≢ h.root_nr
  pub not_right : h.right ≢ h.root_nr

pub laid :
    (e : Edit) (n : Node) (lo hi : Option Bytes) (sp : LeafSplit e n lo hi)
    → Clean e.store
    → e.store.next_block_nr + 4 < 2 ^ 64
    → Laid e n lo hi sp (halves e n lo hi sp)
laid e n lo hi sp clean room =
    let s = e.store in
    let w1 = write_fresh_lem s sp.lower clean (omega arith) in
    let s1 = (write_fresh s sp.lower).1 in
    let b1 = w1.grown.high in
    let w2 = write_fresh_lem s1 sp.upper w1.clean (omega arith) in
    let s2 = (write_fresh s1 sp.upper).1 in
    let b2 = w2.grown.high in
    let a = alloc_lem s2 w2.clean (omega arith) in
    let s3 = (alloc s2).1 in
    let root = (alloc s2).0 in
    let g3 = Extends-alloc s2 (omega arith) in
    let b3 = g3.high in
    let l = (write_fresh s sp.lower).0 in
    let r = (write_fresh s1 sp.upper).0 in
    let g23 = Grown-trans 1 1 s1 s2 s3 (omega arith) w2.grown g3 in
    let taken_l = w2.grown.taken l w1.taken in
    let w = with_halves_lem s 1 sp.generation sp.sep sp.lower sp.upper in
    let tl = w1.taken.1 in
    let tr = w2.taken.1 in
    let apart = λ (b : ℕ) (t : Taken s2 b) (q : b ≡ root).
      Fresh-alloc 1 s2 (omega arith) (subst (λ c. Taken s2 c) q t) in
    record {
      x = set_child sp.sep l;
      y = set_child empty r;
      slots = ap (λ (d : Node). single d) w;
      level = ap (λ (d : Node). d.level) w;
      key_x = key_bytes-set_child sp.sep l;
      child_x = child-set_child sp.sep l (omega arith);
      child_y = child-set_child empty r (omega arith);
      clean = a.0;
      bounded = omega arith;
      root_taken = a.1;
      reads_left = with_node-kept 2 s1 s3 l g23 w1.taken ∙ w1.reads;
      reads_right = with_node-kept 1 s2 s3 r g3 w2.taken ∙ w2.reads;
      left_taken = g3.taken l taken_l;
      right_taken = g3.taken r w2.taken;
      not_left = λ q. apart l taken_l q;
      not_right = λ q. apart r w2.taken q;
    }
