-- ===== src/Btree/Promote.antt =====
-- A split that a node takes up: the node with the two halves in place of the child, or, where it
-- has too many slots, two nodes under a new one.
pub mod Overflow
pub mod Parent
use rfs.Prelude.{
  ℕ, zero, suc, ◌+◌, ◌-◌, ◌/◌, ◌^◌, ◌≤◌, ◌<◌, ◌≡◌, refl, ap, ◌∙◌, sym, Bool, true, false, Option,
  none, some, List, [], ◌∷◌, ◌++◌, arith, length, take, drop, get_elem?, replicate, append_assoc,
  leb, ltb, Bool-cases, inl, inr, if◌then◌else◌, append-nil,
}
use rfs.Prelude.Outcome.{ok, ◌>>=◌}
use rfs.Bytes.{Bytes}
use rfs.Entry.{DiskEntry, empty, key_bytes, child, set_child, set_key}
use rfs.Node.{
  Node, single, set_single, nkeys, set_nkeys, set_child_block, max_internal_keys, total_stored,
}
use rfs.Btree.{NodeStore, alloc, write_node, write_fresh, with_node}
use rfs.Btree.Split.{
  Halves, one_bset, write_halves, copy_slots, place_split, split_internal_node, with_halves,
  promote_to_parent,
}
use rfs.Btree.Bounds.{OverLo, UnderHi}
use rfs.Btree.Shape.{gather, entries_of, entries_of-internal}
use rfs.Btree.Slots.{
  Fits, set_key_lem, child-set_child, key_bytes-set_child, Rows, Rows-kept, low, high, Cut,
  Cut-Rows, gather-append,
}
use rfs.Btree.Slots.Copies.{Remade, copy_slots_lem, place_split_lem}
use rfs.Btree.Fresh.{Taken, Grown, Extends-trans, Extends-alloc}
use rfs.Btree.Isolation.{with_node-kept}
use rfs.Btree.Sound.{Clean, alloc_lem, Wrote, write_fresh_lem, Sound, Sound-kept, Sound-Taken}

pub Grown-trans :
    (m k : ℕ) (s t u : NodeStore)
    → s.next_block_nr + (m + k) < 2 ^ 64
    → Grown m s t
    → Grown k t u
    → Grown (m + k) s u
Grown-trans m k s t u h g w = Extends-trans m k s t u (λ x. g) (λ x. w) h

-- A node with two children, one level up.
pub record Twin (l m : ℕ) (s : NodeStore) (lo hi : Option Bytes) (nr : ℕ) : Type 0 where
  pub node : Node
  pub reads : with_node s nr ≡ ok node
  pub taken : Taken s nr
  pub level : node.level ≡ suc l
  pub x : DiskEntry
  pub y : DiskEntry
  pub slots : single node ≡ x ∷ y ∷ []
  pub fits : Fits (key_bytes x)
  pub over : OverLo lo (key_bytes x)
  pub under : UnderHi hi (key_bytes x)
  pub left : Sound l m s lo (some (key_bytes x)) (child x)
  pub right : Sound l m s (some (key_bytes x)) hi (child y)

pub Twin-Sound :
    (l m : ℕ) (s : NodeStore) (lo hi : Option Bytes) (nr : ℕ)
    → Twin l m s lo hi nr
    → Sound (suc l) m s lo hi nr
Twin-Sound l m s lo hi nr w =
    (w.node, w.reads, w.taken, w.level, rw (w.slots) (w.fits, w.over, w.under, w.left, w.right))

-- Where a write below a block at level `l` ends: at that level, or one above it.
pub data Rises (l m : ℕ) (s : NodeStore) (lo hi : Option Bytes) (nr : ℕ) (below : List DiskEntry)
    : Type 0 where
  same : Sound l m s lo hi nr → entries_of l s nr ≡ below → Rises l m s lo hi nr below
  grew : Twin l m s lo hi nr → entries_of (suc l) s nr ≡ below → Rises l m s lo hi nr below

-- The new parent of two halves, as `write_halves` returns it.
abbrev pub halves_of : NodeStore → ℕ → ℕ → DiskEntry → Node → Node → Halves
halves_of s level generation e l r = record {
  root = one_bset level generation (e ∷ empty ∷ []);
  root_nr = (alloc (write_fresh (write_fresh s l).1 r).1).0;
  left = (write_fresh s l).0;
  right = (write_fresh (write_fresh s l).1 r).0;
  store = (alloc (write_fresh (write_fresh s l).1 r).1).1;
}

pub write_halves_lem :
    (s : NodeStore) (level generation : ℕ) (median : Bytes) (l r : Node)
    → Fits median
    → (e : DiskEntry) × (write_halves s level generation median l r
        ≡ ok (halves_of s level generation e l r))
      × (key_bytes e ≡ median)
unfolding write_halves
write_halves_lem s level generation median l r t =
    let (e, done, k) = set_key_lem median t in (e, rw done refl, k)

pub with_halves_lem :
    (s : NodeStore) (level generation : ℕ) (e : DiskEntry) (l r : Node)
    → with_halves (halves_of s level generation e l r)
      ≡ one_bset level generation (
          set_child e (write_fresh s l).0
          ∷ set_child empty (write_fresh (write_fresh s l).1 r).0
          ∷ [])
unfolding with_halves set_child_block
with_halves_lem s level generation e l r = refl

-- A list around a place.
pub place_at :
    (i : ℕ) (es : List DiskEntry)
    → i + 1 < length es
    → (pre : List DiskEntry) × (m : DiskEntry) × (q : DiskEntry) × (post : List DiskEntry) × (es
        ≡ pre ++ m ∷ q ∷ post)
      × (length pre ≡ i)
place_at i [] h = absurd (omega arith)
place_at i (e ∷ []) h = absurd (omega arith)
place_at zero (e ∷ f ∷ es) h = ([], e, f, es, refl, refl)
place_at (suc i) (e ∷ f ∷ es) h =
    let (pre, m, q, post, p, n) = place_at i (f ∷ es) (omega arith) in
    (e ∷ pre, m, q, post, ap (λ r. e ∷ r) p, ap suc n)

pub get-place :
    (pre rest : List DiskEntry) (m : DiskEntry) → get_elem? (pre ++ m ∷ rest) (length pre) ≡ some m
get-place [] rest m = refl
get-place (e ∷ pre) rest m = get-place pre rest m

pub drop-place :
    (pre rest : List DiskEntry) (m : DiskEntry) → drop (length pre + 1) (pre ++ m ∷ rest) ≡ rest
drop-place [] rest m = refl
drop-place (e ∷ pre) rest m =
    let p : suc (length pre) + 1 ≡ suc (length pre + 1) = omega arith in
    rw p (drop-place pre rest m)

pub take-place :
    (pre rest : List DiskEntry) (m : DiskEntry)
    → take (length pre + 1) (pre ++ m ∷ rest) ≡ pre ++ m ∷ []
take-place [] rest m = refl
take-place (e ∷ pre) rest m =
    let p : suc (length pre) + 1 ≡ suc (length pre + 1) = omega arith in
    rw p (ap (λ r. e ∷ r) (take-place pre rest m))
