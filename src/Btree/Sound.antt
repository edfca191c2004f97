-- ===== src/Btree/Sound.antt =====
-- Trees that writes keep: their blocks are taken, their leaves have the shape that writes leave, and
-- their keys fit. Blocks handed out by a clean allocator.
use rfs.Prelude.{
  ℕ, zero, suc, ◌+◌, ◌^◌, ◌≤◌, ◌<◌, ◌≡◌, refl, ◌∙◌, sym, Option, none, some, List, [], ◌∷◌, arith,
}
use rfs.Prelude.Outcome.{ok}
use rfs.Bytes.{Bytes}
use rfs.Entry.{DiskEntry, key_bytes}
use rfs.Node.{Node, Bset, single}
use rfs.Node.Merged.{merged}
use rfs.Store.{pop}
use rfs.Store.Alloc.{count, pop-count}
use rfs.Leaf.View.{IsLeaf, SeqsBelow}
use rfs.Btree.{NodeStore, alloc, write_node, write_fresh, put, with_node}
use rfs.Btree.Bounds.{FromLo, UnderHi, AllWithin}
use rfs.Btree.Shape.{IsTree, entries_of, entries_of-leaf, entries_of-internal}
use rfs.Btree.Slots.{Fits, Rows, Rows-kept, Rows-Branches}
use rfs.Btree.Fresh.{Taken, Grown, Fresh-alloc, Extends-write_fresh}
use rfs.Btree.Isolation.{with_node-kept}

-- No block is twice free, and the free ones were handed out before.
pub record Clean (s : NodeStore) : Type 0 where
  pub once : (nr : ℕ) → count s.free_list nr ≤ 1
  pub bound : (nr : ℕ) → 0 < count s.free_list nr → nr < s.next_block_nr

pub alloc_lem :
    (s : NodeStore)
    → Clean s
    → s.next_block_nr + 1 < 2 ^ 64
    → Clean (alloc s).1 × Taken (alloc s).1 (alloc s).0
unfolding alloc
alloc_lem s c h = by (pop s.free_list) refl
  where
    by :
        (o : Option (ℕ × List ℕ))
        → pop s.free_list ≡ o
        → Clean (alloc s).1 × Taken (alloc s).1 (alloc s).0
    by none p =
        rw (p, alloc)
          (
            record { once = c.once; bound = λ nr w. let b = c.bound nr w in omega arith },
            (let b = c.bound s.next_block_nr in ground arith, omega arith),
          )
    by (some (nr, rest)) p =
        rw (p, alloc)
          (
            record {
              once = λ k. ground (arith, c.once k, pop-count s.free_list rest nr k p);
              bound =
                  λ k w. let b = c.bound k in ground (arith, b, pop-count s.free_list rest nr k p);
            },
            (
              ground (arith, c.once nr, pop-count s.free_list rest nr nr p),
              ground (arith, c.bound nr, pop-count s.free_list rest nr nr p),
            ),
          )

-- A node on a fresh block.
pub record Wrote (s : NodeStore) (n : Node) (r : ℕ × NodeStore) : Type 0 where
  pub grown : Grown 1 s r.1
  pub clean : Clean r.1
  pub taken : Taken r.1 r.0
  pub reads : with_node r.1 r.0 ≡ ok n
  pub fresh : Taken s r.0 → ⊥

pub write_fresh_lem :
    (s : NodeStore) (n : Node)
    → Clean s
    → s.next_block_nr + 1 < 2 ^ 64
    → Wrote s n (write_fresh s n)
unfolding write_fresh write_node put with_node
write_fresh_lem s n c h =
    let a = alloc_lem s c h in
    record {
      grown = Extends-write_fresh s n h;
      clean = record { once = a.0.once; bound = a.0.bound };
      taken = a.1;
      reads = ground arith;
      fresh = Fresh-alloc 1 s h;
    }

-- A key in a range, and of a length that fits.
abbrev pub Good : Option Bytes → Option Bytes → Bytes → Type 0
Good lo hi k = FromLo lo k × UnderHi hi k × Fits k

abbrev pub AllKeys : (Bytes → Type 0) → List DiskEntry → Type 0
AllKeys Q [] = Unit
AllKeys Q (e ∷ es) = Q (key_bytes e) × AllKeys Q es

-- `m` is above the numbers of all bsets.
abbrev pub Sound : ℕ → ℕ → NodeStore → Option Bytes → Option Bytes → ℕ → Type 0
Sound zero m s lo hi nr =
    (n : Node) × (with_node s nr ≡ ok n) × Taken s nr × IsLeaf n m × AllKeys (Good lo hi) (merged n)
Sound (suc l) m s lo hi nr =
    (n : Node) × (with_node s nr ≡ ok n)
    × Taken s nr
    × (n.level ≡ suc l)
    × Rows (λ a b c. Sound l m s a b c) lo hi (single n)

pub AllWithin-Good :
    (lo hi : Option Bytes) (es : List DiskEntry) → AllKeys (Good lo hi) es → AllWithin lo hi es
AllWithin-Good lo hi [] a = tt
AllWithin-Good lo hi (e ∷ es) ((f, u, t), a) = (f, u, AllWithin-Good lo hi es a)

pub Sound-IsTree :
    (l m : ℕ) (s : NodeStore) (lo hi : Option Bytes) (nr : ℕ)
    → Sound l m s lo hi nr
    → IsTree l s lo hi nr
Sound-IsTree zero m s lo hi nr (n, r, t, h, a) =
    (n, r, h.leaf, h.ordered, AllWithin-Good lo hi (merged n) a)
Sound-IsTree (suc l) m s lo hi nr (n, r, t, v, b) = (
  n,
  r,
  v,
  Rows-Branches (λ x y c. Sound l m s x y c) (λ x y c. IsTree l s x y c)
      (λ x y c w. Sound-IsTree l m s x y c w) lo hi (single n) b,
)

pub Sound-Taken :
    (l m : ℕ) (s : NodeStore) (lo hi : Option Bytes) (nr : ℕ) → Sound l m s lo hi nr → Taken s nr
Sound-Taken zero m s lo hi nr w = w.2
Sound-Taken (suc l) m s lo hi nr w = w.2

SeqsBelow-later : (m m' : ℕ) (ss : List Bset) → m ≤ m' → SeqsBelow m ss → SeqsBelow m' ss
SeqsBelow-later m m' [] h b = tt
SeqsBelow-later m m' (s ∷ ss) h b = (let x = b.0 in omega arith, SeqsBelow-later m m' ss h b.1)

IsLeaf-later : (n : Node) (m m' : ℕ) → m ≤ m' → IsLeaf n m → IsLeaf n m'
IsLeaf-later n m m' h w = record {
  leaf = w.leaf;
  ordered = w.ordered;
  seqs = SeqsBelow-later m m' n.bsets h w.seqs;
  room = w.room;
  few = w.few;
}

-- A tree is the same in a store that has grown.
pub Sound-kept :
    (k : ℕ) (s s' : NodeStore) (m m' : ℕ)
    → Grown k s s'
    → m ≤ m'
    → (l : ℕ) (lo hi : Option Bytes) (nr : ℕ) → Sound l m s lo hi nr
    → Sound l m' s' lo hi nr × (entries_of l s' nr ≡ entries_of l s nr)
Sound-kept k s s' m m' g h zero lo hi nr (n, r, t, w, a) =
    let r' = with_node-kept k s s' nr g t ∙ r in
    (
      (n, r', g.taken nr t, IsLeaf-later n m m' h w, a),
      entries_of-leaf s' nr n r' ∙ sym (entries_of-leaf s nr n r),
    )
Sound-kept k s s' m m' g h (suc l) lo hi nr (n, r, t, v, b) =
    let r' = with_node-kept k s s' nr g t ∙ r in
    let w =
      Rows-kept (λ x y c. Sound l m s x y c) (λ x y c. Sound l m' s' x y c) (λ c. entries_of l s c)
        (λ c. entries_of l s' c) (λ x y c p. Sound-kept k s s' m m' g h l x y c p) lo hi (single n)
        b in
    (
      (n, r', g.taken nr t, v, w.0),
      entries_of-internal l s' nr n r' ∙ w.1 ∙ sym (entries_of-internal l s nr n r),
    )
