-- ===== src/Btree/Isolation.antt =====
-- A transaction leaves the tree that it began with as it was, block for block.
pub mod Abort
use rfs.Prelude.{
  ℕ, zero, suc, ◌+◌, ◌*◌, ◌≤◌, ◌<◌, ◌^◌, ◌≡◌, refl, ap, ◌∙◌, sym, Bool, true, false, Option, none,
  some, List, [], ◌∷◌, ◌++◌, arith, length, take, take-length, append_assoc, append-nil, ◌==◌,
  if◌then◌else◌, Bool-cases, inl, inr,
}
use rfs.Prelude.Outcome.{
  Outcome, Error, ok, err, panic, ◌>>=◌, Ends, Ends-bind, Ends-any, Ends-if, Ends-ok,
}
use rfs.Bytes.{Bytes}
use rfs.Entry.{DiskEntry, key_bytes, child, sortable_key}
use rfs.Entry.Kind.{EntryKind, deleted, whiteout}
use rfs.Node.{Node, single}
use rfs.Store.{get}
use rfs.Btree.{NodeStore, WriteMode, cow, with_node}
use rfs.Btree.Shape.{IsTree, Branches, gather, entries_of, entries_of-leaf, entries_of-internal}
use rfs.Btree.Fresh.{Taken, Grown, Extends, Extends-refl, Extends-trans, Extends-more}
use rfs.Btree.Cow.{insert-Extends, flip-Extends}

abbrev pub AllSlots : (ℕ → Type 0) → List DiskEntry → Type 0
AllSlots P [] = Unit
AllSlots P (e ∷ es) = P (child e) × AllSlots P es

-- Every block of the tree was handed out and is not free.
abbrev pub Owned : ℕ → NodeStore → ℕ → Type 0
Owned zero s nr = Taken s nr
Owned (suc l) s nr =
    Taken s nr × ((n : Node) → with_node s nr ≡ ok n → AllSlots (λ c. Owned l s c) (single n))

module _ (P P' : Option Bytes → Option Bytes → ℕ → Type 0) (Q : ℕ → Type 0)
    (f f' : ℕ → List DiskEntry)
    (good : (lo hi : Option Bytes) (c : ℕ) → P lo hi c → Q c → P' lo hi c × (f' c ≡ f c)) where
  Branches-kept :
      (lo hi : Option Bytes) (es : List DiskEntry)
      → Branches P lo hi es
      → AllSlots Q es
      → Branches P' lo hi es × (gather f' es ≡ gather f es)
  Branches-kept lo hi [] b q = absurd b
  Branches-kept lo hi (e ∷ []) b q =
      let g = good lo hi (child e) b q.0 in (g.0, ap (λ r. r ++ []) g.1)
  Branches-kept lo hi (e ∷ x ∷ es) (o, u, p, b) (q, qs) =
      let g = good lo (some (key_bytes e)) (child e) p q in
      let r = Branches-kept (some (key_bytes e)) hi (x ∷ es) b qs in
      ((o, u, g.0, r.0), rw (g.1, r.1) refl)

pub with_node-kept :
    (m : ℕ) (s s' : NodeStore) (nr : ℕ)
    → Grown m s s'
    → Taken s nr
    → with_node s' nr ≡ with_node s nr
unfolding with_node
with_node-kept m s s' nr g t = rw (g.kept nr t, with_node) refl

-- A tree whose blocks are taken is the same tree in a store that has grown.
pub tree-kept :
    (m : ℕ) (s s' : NodeStore)
    → Grown m s s'
    → (l : ℕ) (lo hi : Option Bytes) (nr : ℕ) → IsTree l s lo hi nr
    → Owned l s nr
    → IsTree l s' lo hi nr × (entries_of l s' nr ≡ entries_of l s nr)
tree-kept m s s' g zero lo hi nr (n, r, lv, o, w) t =
    let r' = with_node-kept m s s' nr g t ∙ r in
    ((n, r', lv, o, w), entries_of-leaf s' nr n r' ∙ sym (entries_of-leaf s nr n r))
tree-kept m s s' g (suc l) lo hi nr (n, r, lv, b) (t, q) =
    let r' = with_node-kept m s s' nr g t ∙ r in
    let k =
      Branches-kept (λ x y c. IsTree l s x y c) (λ x y c. IsTree l s' x y c) (λ c. Owned l s c)
        (λ c. entries_of l s c) (λ c. entries_of l s' c)
        (λ x y c p w. tree-kept m s s' g l x y c p w) lo hi (single n) b (q n r) in
    (
      (n, r', lv, k.0),
      entries_of-internal l s' nr n r' ∙ k.1 ∙ sym (entries_of-internal l s nr n r),
    )
