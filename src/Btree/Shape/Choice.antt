-- ===== src/Btree/Shape/Choice.antt =====
-- In a tree, the entries of a node are sorted and within its range, and a key leads to the child whose
-- entries decide its lookup.
use rfs.Prelude.{
  ℕ, zero, suc, ◌≡◌, refl, ◌∙◌, true, false, Option, none, some, List, [], ◌∷◌, arith, inl, inr,
  Bool-cases, lt, append-nil, ◌⊎◌,
}
use rfs.Bytes.{Bytes, compare_bytes}
use rfs.Entry.{DiskEntry, key_bytes, child}
use rfs.Node.{single}
use rfs.Node.Search.{lookup, IsSorted, Above, Above-trans}
use rfs.Node.Merged.Order.{merged_lem}
use rfs.Btree.{NodeStore}
use rfs.Btree.Read.{below}
use rfs.Btree.Route.{separators, seek}
use rfs.Btree.Bounds.{
  ◌⪯◌, FromLo, UnderHi, AllWithin, within_from, within_under, within-append, lookup_under,
  lookup_over, or_else, lookup-append, IsSorted-append,
}
use rfs.Btree.Shape.{Branches, IsTree, gather, entries_of, entries_of-leaf, entries_of-internal}

-- The child that a key leads to, whose entries decide the lookup.
pub record Chosen (P : Option Bytes → Option Bytes → ℕ → Type 0) (f : ℕ → List DiskEntry)
    (es : List DiskEntry) (k : Bytes) : Type 0 where
  pub slot : DiskEntry
  pub rest : List DiskEntry
  pub found : seek es k ≡ slot ∷ rest
  pub lo_of : Option Bytes
  pub hi_of : Option Bytes
  pub holds : P lo_of hi_of (child slot)
  pub from : FromLo lo_of k
  pub under : UnderHi hi_of k
  pub decides : lookup (gather f es) k ≡ lookup (f (child slot)) k

-- Where the children's entries are sorted and within their ranges, so are those of the node.
module _ (P : Option Bytes → Option Bytes → ℕ → Type 0) (f : ℕ → List DiskEntry)
    (good : (lo hi : Option Bytes) (c : ℕ)
      → P lo hi c
      → AllWithin lo hi (f c) × IsSorted (f c)) where
  gather_within :
      (lo hi : Option Bytes) (es : List DiskEntry)
      → Branches P lo hi es
      → AllWithin lo hi (gather f es)
  gather_within lo hi [] b = absurd b
  gather_within lo hi (e ∷ []) b =
      within-append lo hi (f (child e)) [] (good lo hi (child e) b).0 tt
  gather_within lo hi (e ∷ g ∷ es) (o, u, p, b) =
      within-append lo hi (f (child e)) (gather f (g ∷ es))
        (within_under lo hi (key_bytes e) (f (child e)) u
          (good lo (some (key_bytes e)) (child e) p).0)
        (within_from lo hi (key_bytes e) (gather f (g ∷ es)) o
          (gather_within (some (key_bytes e)) hi (g ∷ es) b))

  gather-IsSorted :
      (lo hi : Option Bytes) (es : List DiskEntry) → Branches P lo hi es → IsSorted (gather f es)
  gather-IsSorted lo hi [] b = absurd b
  gather-IsSorted lo hi (e ∷ []) b = rw (append-nil (f (child e))) (good lo hi (child e) b).1
  gather-IsSorted lo hi (e ∷ g ∷ es) (o, u, p, b) =
      let w = good lo (some (key_bytes e)) (child e) p in
      IsSorted-append lo hi (key_bytes e) (f (child e)) (gather f (g ∷ es)) w.1
        (gather-IsSorted (some (key_bytes e)) hi (g ∷ es) b) w.0
        (gather_within (some (key_bytes e)) hi (g ∷ es) b)

  pub Branches-IsSorted :
      (lo hi : Option Bytes) (es : List DiskEntry) → Branches P lo hi es → IsSorted (separators es)
  Branches-IsSorted lo hi [] b = absurd b
  Branches-IsSorted lo hi (e ∷ []) b = tt
  Branches-IsSorted lo hi (e ∷ g ∷ es) (o, u, p, b) =
      (over (key_bytes e) (g ∷ es) hi b, Branches-IsSorted (some (key_bytes e)) hi (g ∷ es) b)
    where
      over :
          (j : Bytes) (xs : List DiskEntry) (h : Option Bytes)
          → Branches P (some j) h xs
          → Above j (separators xs)
      over j [] h c = absurd c
      over j (x ∷ []) h c = tt
      over j (x ∷ y ∷ xs) h (a, v, q, c) =
          (a, Above-trans j (key_bytes x) (separators (y ∷ xs)) a (over (key_bytes x) (y ∷ xs) h c))

  or_none : (o : Option DiskEntry) → or_else o none ≡ o
  or_none none = refl
  or_none (some e) = refl

  pub chosen :
      (lo hi : Option Bytes) (es : List DiskEntry) (k : Bytes)
      → Branches P lo hi es
      → FromLo lo k
      → UnderHi hi k
      → Chosen P f es k
  chosen lo hi [] k b l u = absurd b
  chosen lo hi (e ∷ []) k b l u = record {
    slot = e;
    rest = [];
    found = refl;
    lo_of = lo;
    hi_of = hi;
    holds = b;
    from = l;
    under = u;
    decides = rw (append-nil (f (child e))) refl;
  }
  chosen lo hi (e ∷ g ∷ es) k (o, v, p, b) l u =
      by_side (Bool-cases (below k (key_bytes e)))
        (λ w. chosen (some (key_bytes e)) hi (g ∷ es) k b w u)
    where
      here : below k (key_bytes e) ≡ true → compare_bytes k (key_bytes e) ≡ lt
      here q = ground arith

      there : below k (key_bytes e) ≡ false → key_bytes e ⪯ k
      there q = ground arith

      by_side :
          (below k (key_bytes e) ≡ true) ⊎ (below k (key_bytes e) ≡ false)
          → (key_bytes e ⪯ k → Chosen P f (g ∷ es) k)
          → Chosen P f (e ∷ g ∷ es) k
      by_side (inl q) rec = record {
        slot = e;
        rest = g ∷ es;
        found = rw q refl;
        lo_of = lo;
        hi_of = some (key_bytes e);
        holds = p;
        from = l;
        under = here q;
        decides =
            lookup-append (f (child e)) (gather f (g ∷ es)) k
            ∙ rw
                (lookup_under hi (key_bytes e) k (gather f (g ∷ es))
                  (gather_within (some (key_bytes e)) hi (g ∷ es) b) (here q))
                (or_none _);
      }
      by_side (inr q) rec =
          let c = rec (there q) in
          record {
            slot = c.slot;
            rest = c.rest;
            found = rw q c.found;
            lo_of = c.lo_of;
            hi_of = c.hi_of;
            holds = c.holds;
            from = c.from;
            under = c.under;
            decides =
                lookup-append (f (child e)) (gather f (g ∷ es)) k
                ∙ rw
                    (lookup_over lo (key_bytes e) k (f (child e))
                      (good lo (some (key_bytes e)) (child e) p).0 (there q))
                    c.decides;
          }

-- The entries below a block are sorted, and within its range.
pub entries_of-good :
    (l : ℕ) (s : NodeStore) (lo hi : Option Bytes) (nr : ℕ)
    → IsTree l s lo hi nr
    → AllWithin lo hi (entries_of l s nr) × IsSorted (entries_of l s nr)
entries_of-good zero s lo hi nr (n, r, lv, o, w) =
    rw (entries_of-leaf s nr n r) (w, (merged_lem n o).0)
entries_of-good (suc l) s lo hi nr (n, r, lv, b) = rw (entries_of-internal l s nr n r) (
  gather_within (λ a c d. IsTree l s a c d) (λ c. entries_of l s c)
      (λ a c d. entries_of-good l s a c d) lo hi (single n) b,
  gather-IsSorted (λ a c d. IsTree l s a c d) (λ c. entries_of l s c)
      (λ a c d. entries_of-good l s a c d) lo hi (single n) b,
)

module _ (l : ℕ) (s : NodeStore) where
  abbrev Sub : Option Bytes → Option Bytes → ℕ → Type 0
  Sub lo hi c = IsTree l s lo hi c

  abbrev below_of : ℕ → List DiskEntry
  below_of c = entries_of l s c

  good :
      (lo hi : Option Bytes) (c : ℕ)
      → Sub lo hi c
      → AllWithin lo hi (below_of c) × IsSorted (below_of c)
  good lo hi c t = entries_of-good l s lo hi c t

  -- The child that a key leads to, in a node one level up.
  abbrev pub Descent : List DiskEntry → Bytes → Type 0
  Descent es k = Chosen (λ a b c. IsTree l s a b c) (λ c. entries_of l s c) es k

  pub descent :
      (lo hi : Option Bytes) (es : List DiskEntry) (k : Bytes)
      → Branches (λ a b c. IsTree l s a b c) lo hi es
      → FromLo lo k
      → UnderHi hi k
      → Descent es k
  descent lo hi es k b f u = chosen Sub below_of good lo hi es k b f u

  pub separators-IsSorted :
      (lo hi : Option Bytes) (es : List DiskEntry)
      → Branches (λ a b c. IsTree l s a b c) lo hi es
      → IsSorted (separators es)
  separators-IsSorted lo hi es b = Branches-IsSorted Sub below_of good lo hi es b

  pub entries_of-within :
      (lo hi : Option Bytes) (c : ℕ) → IsTree l s lo hi c → AllWithin lo hi (entries_of l s c)
  entries_of-within lo hi c t = (entries_of-good l s lo hi c t).0

  pub gather-within :
      (lo hi : Option Bytes) (es : List DiskEntry)
      → Branches (λ a b c. IsTree l s a b c) lo hi es
      → AllWithin lo hi (gather (λ c. entries_of l s c) es)
  gather-within lo hi es b = gather_within Sub below_of good lo hi es b
