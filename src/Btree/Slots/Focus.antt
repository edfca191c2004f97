-- ===== src/Btree/Slots/Focus.antt =====
-- The slot of a node that a key leads to, with those before and behind it.
use rfs.Prelude.{
  ℕ, ◌≡◌, refl, ap, ◌∙◌, true, false, Option, none, some, List, [], ◌∷◌, ◌++◌, arith, length, drop,
  set, get_elem?, lt, eq, Ordering, subst, Bool-cases, inl, inr, ◌⊎◌, length-append, length-drop,
}
use rfs.Bytes.{Bytes, compare_bytes}
use rfs.Bytes.Order.{eq_of_compare}
use rfs.Entry.{DiskEntry, key_bytes, child}
use rfs.Node.Search.{lookup}
use rfs.Btree.Read.{below}
use rfs.Btree.Route.{seek}
use rfs.Btree.Bounds.{◌⪯◌, FromLo, UnderHi, AllWithin, lookup_over, lookup-append}
use rfs.Btree.Shape.{gather}
use rfs.Btree.Slots.{Rows, low, high}

pub record Focus (P : Option Bytes → Option Bytes → ℕ → Type 0) (f : ℕ → List DiskEntry)
    (lo hi : Option Bytes) (es : List DiskEntry) (k : Bytes) : Type 0 where
  pub pre : List DiskEntry
  pub slot : DiskEntry
  pub post : List DiskEntry
  pub split : es ≡ pre ++ slot ∷ post
  pub found : seek es k ≡ slot ∷ post
  pub holds : P (low lo pre) (high hi slot post) (child slot)
  pub from : FromLo (low lo pre) k
  pub under : UnderHi (high hi slot post) k
  -- The children before it do not hold the key.
  pub missed : lookup (gather f pre) k ≡ none

module _ (P : Option Bytes → Option Bytes → ℕ → Type 0) (f : ℕ → List DiskEntry)
    (within : (lo hi : Option Bytes) (c : ℕ) → P lo hi c → AllWithin lo hi (f c)) where
  pub focus :
      (lo hi : Option Bytes) (es : List DiskEntry) (k : Bytes)
      → Rows P lo hi es
      → FromLo lo k
      → UnderHi hi k
      → Focus P f lo hi es k
  unfolding lookup
  focus lo hi [] k b l u = absurd b
  focus lo hi (e ∷ []) k b l u = record {
    pre = [];
    slot = e;
    post = [];
    split = refl;
    found = refl;
    holds = b;
    from = l;
    under = u;
    missed = refl;
  }
  focus lo hi (e ∷ g ∷ es) k (t, o, v, p, b) l u =
      by_side (Bool-cases (below k (key_bytes e)))
        (λ w. focus (some (key_bytes e)) hi (g ∷ es) k b w u)
    where
      here : below k (key_bytes e) ≡ true → compare_bytes k (key_bytes e) ≡ lt
      here q = ground arith

      there : below k (key_bytes e) ≡ false → key_bytes e ⪯ k
      there q = ground arith

      by_side :
          (below k (key_bytes e) ≡ true) ⊎ (below k (key_bytes e) ≡ false)
          → (key_bytes e ⪯ k → Focus P f (some (key_bytes e)) hi (g ∷ es) k)
          → Focus P f lo hi (e ∷ g ∷ es) k
      by_side (inl q) rec = record {
        pre = [];
        slot = e;
        post = g ∷ es;
        split = refl;
        found = rw q refl;
        holds = p;
        from = l;
        under = here q;
        missed = refl;
      }
      by_side (inr q) rec =
          let c = rec (there q) in
          record {
            pre = e ∷ c.pre;
            slot = c.slot;
            post = c.post;
            split = ap (λ r. e ∷ r) c.split;
            found = rw q c.found;
            holds = c.holds;
            from = c.from;
            under = c.under;
            missed =
                lookup-append (f (child e)) (gather f c.pre) k
                ∙ rw
                    (lookup_over lo (key_bytes e) k (f (child e))
                      (within lo (some (key_bytes e)) (child e) p) (there q))
                    c.missed;
          }

-- The place of the slot.
pub place_of :
    (i : ℕ) (pre : List DiskEntry) (s : DiskEntry) (post : List DiskEntry)
    → drop i (pre ++ s ∷ post) ≡ s ∷ post
    → i ≡ length pre
place_of i pre s post h =
    let a = ap length h in
    omega (arith, a, length-drop i (pre ++ s ∷ post), length-append pre (s ∷ post))

pub get_elem?-place :
    (pre : List DiskEntry) (s : DiskEntry) (post : List DiskEntry)
    → get_elem? (pre ++ s ∷ post) (length pre) ≡ some s
get_elem?-place [] s post = refl
get_elem?-place (e ∷ pre) s post = get_elem?-place pre s post

pub set-place :
    (pre : List DiskEntry) (s x : DiskEntry) (post : List DiskEntry)
    → set (pre ++ s ∷ post) (length pre) x ≡ pre ++ x ∷ post
set-place [] s x post = refl
set-place (e ∷ pre) s x post = ap (λ r. e ∷ r) (set-place pre s x post)

-- What a list of entries holds for each key once one key is written.
abbrev pub Updated : Bytes → DiskEntry → List DiskEntry → List DiskEntry → Type 0
Updated key v old new =
    (j : Bytes) → lookup new j ≡ (elim (compare_bytes key j) [ eq ↦ some v | _ ↦ lookup old j ])

-- A write below one slot, in the entries of the whole node.
pub Updated-between :
    (key : Bytes) (v : DiskEntry) (pre post old new : List DiskEntry)
    → lookup pre key ≡ none
    → Updated key v old new
    → Updated key v (pre ++ (old ++ post)) (pre ++ (new ++ post))
Updated-between key v pre post old new h u j = by (compare_bytes key j) refl
  where
    by :
        (o : Ordering)
        → compare_bytes key j ≡ o
        → lookup (pre ++ (new ++ post)) j
          ≡ (elim (compare_bytes key j) [ eq ↦ some v | _ ↦ lookup (pre ++ (old ++ post)) j ])
    by o p = ground (
      arith,
      p,
      u j,
      lookup-append pre (new ++ post) j,
      lookup-append new post j,
      lookup-append pre (old ++ post) j,
      lookup-append old post j,
      at_key o p,
    )
      where
        at_key : (x : Ordering) → compare_bytes key j ≡ x → x ≡ eq → lookup pre j ≡ none
        at_key x q e = subst (λ i. lookup pre i ≡ none) (eq_of_compare key j (q ∙ e)) h

-- `Updated` reads its lists by lookups only.
pub Updated-of_lookup :
    (key : Bytes) (v : DiskEntry) (old old' new new' : List DiskEntry)
    → ((j : Bytes) → lookup old' j ≡ lookup old j)
    → ((j : Bytes) → lookup new' j ≡ lookup new j)
    → Updated key v old new
    → Updated key v old' new'
Updated-of_lookup key v old old' new new' p q u j = ground (arith, p j, q j, u j)
