-- ===== src/Btree/Promote/Parent.antt =====
-- `promote_to_parent` on a node of a tree.
use rfs.Prelude.{
  ℕ, suc, ◌+◌, ◌^◌, ◌≤◌, ◌<◌, ◌≡◌, refl, ap, ◌∙◌, Option, some, List, ◌∷◌, ◌++◌, arith, length, leb,
  Bool-cases, inl, inr, length-append,
}
use rfs.Prelude.Outcome.{ok}
use rfs.Bytes.{Bytes}
use rfs.Entry.{DiskEntry}
use rfs.Node.{Node, single, nkeys, max_internal_keys}
use rfs.Btree.{NodeStore, alloc, write_fresh}
use rfs.Btree.Split.{one_bset, promote_to_parent}
use rfs.Btree.Bounds.{OverLo, UnderHi}
use rfs.Btree.Shape.{gather, entries_of, entries_of-internal}
use rfs.Btree.Slots.{Fits, Rows, Rows-kept, low, high}
use rfs.Btree.Slots.Copies.{place_split_lem}
use rfs.Btree.Fresh.{Grown, Extends-alloc}
use rfs.Btree.Sound.{Clean, alloc_lem, write_fresh_lem, Sound, Sound-kept, Sound-Taken}
use rfs.Btree.Promote.{Rises, same, grew}
use rfs.Btree.Promote.Overflow.{overflown, written_last, nkeys-slots}

-- Where a call ends that returns a block and a store.
pub record Landed (l m : ℕ) (lo hi : Option Bytes) (below : List DiskEntry) (r : ℕ × NodeStore)
    : Type 0 where
  pub clean : Clean r.1
  pub rises : Rises l m r.1 lo hi r.0 below

module _ (l m : ℕ) (s : NodeStore) (clean : Clean s) (room : s.next_block_nr + 4 < 2 ^ 64) where
  abbrev P : Option Bytes → Option Bytes → ℕ → Type 0
  P lo hi c = Sound l m s lo hi c

  abbrev f : ℕ → List DiskEntry
  f c = entries_of l s c

  small : (lo hi : Option Bytes) (c : ℕ) → P lo hi c → c < 2 ^ 64
  small lo hi c p = let t = (Sound-Taken l m s lo hi c p).1 in omega arith

  keep :
      (k : ℕ) (s' : NodeStore) (lo hi : Option Bytes) (es : List DiskEntry)
      → Grown k s s'
      → Rows P lo hi es
      → Rows (λ x y c. Sound l m s' x y c) lo hi es
        × (gather (λ c. entries_of l s' c) es ≡ gather f es)
  keep k s' lo hi es g b =
      Rows-kept P (λ x y c. Sound l m s' x y c) f (λ c. entries_of l s' c)
        (λ x y c p. Sound-kept k s s' m m g (omega arith) l x y c p) lo hi es b

  -- A child that has split into `a` and `b` is taken up by its parent, whose other children stood in
  -- an earlier store.
  pub promote_lem :
      (k0 m0 : ℕ) (s0 : NodeStore) (parent : Node) (pre post : List DiskEntry)
      (lo hi : Option Bytes) (e : DiskEntry) (median : Bytes) (a b : ℕ)
      → Grown k0 s0 s
      → m0 ≤ m
      → parent.level ≡ suc l
      → single parent ≡ pre ++ e ∷ post
      → Rows (λ x y c. Sound l m0 s0 x y c) lo hi (pre ++ e ∷ post)
      → Fits median
      → OverLo (low lo pre) median
      → UnderHi (high hi e post) median
      → P (low lo pre) (some median) a
      → P (some median) (high hi e post) b
      → (r : ℕ × NodeStore) × (promote_to_parent s parent (length pre) median a b ≡ ok r)
        × Landed
            (suc l)
            m
            lo
            hi
            (gather (λ c. entries_of l s0 c) pre
              ++ ((f a ++ f b) ++ gather (λ c. entries_of l s0 c) post))
            r
  unfolding promote_to_parent
  promote_lem k0 m0 s0 parent pre post lo hi e median a b g0 h0 level slots rows t o u p q =
      let (ds, placed, made) =
        place_split_lem (λ x y c. Sound l m0 s0 x y c) P (λ c. entries_of l s0 c) f
          (λ x y c w. Sound-kept k0 s0 s m0 m g0 h0 l x y c w) small median a b pre post lo hi e
          rows t o u p q in
      let node = one_bset (suc l) parent.generation ds in
      let size = length-append pre (e ∷ post) in
      let count = nkeys-slots l parent.generation ds (let z = made.sized in omega arith) in
      elim (Bool-cases (leb (nkeys node) max_internal_keys)) [
        | inl fits ↦
            let w = write_fresh_lem s node clean (omega arith) in
            let k = keep 1 (write_fresh s node).1 lo hi ds w.grown made.rows in
            (
              write_fresh s node,
              rw (slots, placed, level, fits) (ap (λ r. ok r) (written_last s node)),
              record {
                clean = w.clean;
                rises =
                    same (node, w.reads, w.taken, refl, k.0)
                      (entries_of-internal l (write_fresh s node).1 (write_fresh s node).0 node
                          w.reads
                        ∙ k.1
                        ∙ made.gathers);
              },
            )
        | inr full ↦
            let a1 = alloc_lem s clean (omega arith) in
            let g1 = Extends-alloc s (omega arith) in
            let s1 = (alloc s).1 in
            let k = keep 1 s1 lo hi ds g1 made.rows in
            let v =
              overflown l m s1 a1.0 (let x = g1.high in omega arith) parent.generation ds lo hi
                (ground (arith, count)) k.0 in
            (
              (v.halves.root_nr, v.store),
              rw (slots, placed, level, full) (rw (v.done) (rw (v.stored) refl)),
              record { clean = v.cleaned; rises = grew v.twin (v.below ∙ k.1 ∙ made.gathers) },
            )
      ]
