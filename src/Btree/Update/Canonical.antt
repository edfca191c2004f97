-- ===== src/Btree/Update/Canonical.antt =====
-- The leaf that a split starts from: one bset with what the leaf holds, two entries at least.
use rfs.Prelude.{
  ℕ, suc, ◌+◌, ◌≤◌, ◌<◌, ◌≡◌, refl, ap, ◌∙◌, sym, true, false, Option, none, some, List, [], ◌∷◌,
  arith, length, lt, eq, gt, Ordering, ltb, Bool-cases, inl, inr, subst,
}
use rfs.Prelude.Outcome.{ok}
use rfs.Bytes.{Bytes, compare_bytes, ◌≺◌}
use rfs.Bytes.Order.{compare_refl, eq_of_compare, lt_irrefl}
use rfs.Entry.{DiskEntry, key_bytes}
use rfs.Node.{Node, Bset, total_of, bset_count, nkeys}
use rfs.Node.Search.{IsSorted, lookup}
use rfs.Node.Merged.{merged, cursors}
use rfs.Node.Merged.Best.{IsOrdered, latest}
use rfs.Node.Merged.Order.{merged_lem}
use rfs.Leaf.{must_split, any, whiteout_entry}
use rfs.Leaf.View.{IsLeaf, view, SeqsBelow}
use rfs.Leaf.Rebuild.{compacted, compact_leaf_in_place_lem, length-merged}
use rfs.Btree.Split.{canonical}

-- A leaf with one bset.
abbrev pub leaf_of : ℕ → Bset → List DiskEntry → Node
leaf_of generation s es = record {
  level = 0;
  generation = generation;
  bsets = record s { entries = es } ∷ [];
}

-- Two keys that a list of bsets holds.
record TwoKeys (ss : List Bset) : Type 0 where
  a : Bytes
  b : Bytes
  apart : a ≺ b
  of_a : DiskEntry
  of_b : DiskEntry
  holds_a : latest (cursors ss) a ≡ some of_a
  holds_b : latest (cursors ss) b ≡ some of_b

latest_behind :
    (s : Bset) (ss : List Bset) (k : Bytes) (d : DiskEntry)
    → latest (cursors ss) k ≡ some d
    → latest (cursors (s ∷ ss)) k ≡ some d
unfolding latest
latest_behind s ss k d h = rw h refl

latest_here :
    (s : Bset) (ss : List Bset) (k : Bytes) (d : DiskEntry)
    → lookup s.entries k ≡ some d
    → (x : DiskEntry) × (latest (cursors (s ∷ ss)) k ≡ some x)
unfolding latest
latest_here s ss k d h = by (latest (cursors ss) k) refl
  where
    by :
        (o : Option DiskEntry)
        → latest (cursors ss) k ≡ o
        → (x : DiskEntry) × (latest (cursors (s ∷ ss)) k ≡ some x)
    by none p = (d, rw p h)
    by (some y) p = (y, rw p refl)

TwoKeys-behind : (s : Bset) (ss : List Bset) → TwoKeys ss → TwoKeys (s ∷ ss)
TwoKeys-behind s ss t = record {
  a = t.a;
  b = t.b;
  apart = t.apart;
  of_a = t.of_a;
  of_b = t.of_b;
  holds_a = latest_behind s ss t.a t.of_a t.holds_a;
  holds_b = latest_behind s ss t.b t.of_b t.holds_b;
}

-- More entries than bsets are entries with two keys.
two_keys : (ss : List Bset) → length ss < total_of ss → IsOrdered (cursors ss) → TwoKeys ss
unfolding lookup
two_keys [] h o = absurd (omega arith)
two_keys (s ∷ ss) h o = by s.entries refl (λ p. two_keys ss p o.2)
  where
    by :
        (es : List DiskEntry)
        → s.entries ≡ es
        → (length ss < total_of ss → TwoKeys ss)
        → TwoKeys (s ∷ ss)
    by [] p ih = TwoKeys-behind s ss (ih (let q = ap length p in omega arith))
    by (e ∷ []) p ih = TwoKeys-behind s ss (ih (let q = ap length p in omega arith))
    by (e ∷ d ∷ es) p ih =
        let sorted = subst (λ xs. IsSorted xs) p o.1 in
        let low = sorted.0.0 in
        let first : lookup (e ∷ d ∷ es) (key_bytes e) ≡ some e =
          rw (compare_refl (key_bytes e), lookup) refl in
        let second : lookup (e ∷ d ∷ es) (key_bytes d) ≡ some d =
          rw (low, lookup) (rw (compare_refl (key_bytes d), lookup) refl) in
        let x = latest_here s ss (key_bytes e) e (rw p first) in
        let y = latest_here s ss (key_bytes d) d (rw p second) in
        record {
          a = key_bytes e;
          b = key_bytes d;
          apart = low;
          of_a = x.0;
          of_b = y.0;
          holds_a = x.1;
          holds_b = y.1;
        }

-- Entries with two keys are two entries.
two_entries :
    (es : List DiskEntry) (a b : Bytes) (x y : DiskEntry)
    → a ≺ b
    → lookup es a ≡ some x
    → lookup es b ≡ some y
    → 1 < length es
unfolding lookup
two_entries [] a b x y l p q = let z : ⊥ = cc in absurd z
two_entries (e ∷ []) a b x y l p q =
    by (compare_bytes (key_bytes e) a) (compare_bytes (key_bytes e) b) refl refl
  where
    by :
        (o o' : Ordering)
        → compare_bytes (key_bytes e) a ≡ o
        → compare_bytes (key_bytes e) b ≡ o'
        → 1 < length (e ∷ [])
    by eq eq r r' =
        let same : a ≡ b =
          sym (eq_of_compare (key_bytes e) a r) ∙ eq_of_compare (key_bytes e) b r' in
        absurd (lt_irrefl b (subst (λ k. k ≺ b) same l))
    by lt o' r r' = let w = rw (r, lookup) at p in let z : ⊥ = cc in absurd z
    by gt o' r r' = let w = rw (r, lookup) at p in let z : ⊥ = cc in absurd z
    by eq lt r r' = let w = rw (r', lookup) at q in let z : ⊥ = cc in absurd z
    by eq gt r r' = let w = rw (r', lookup) at q in let z : ⊥ = cc in absurd z
two_entries (e ∷ d ∷ es) a b x y l p q = omega arith

-- The leaf that `canonical` returns.
pub record OneRun (n : Node) (m : ℕ) (c : Node × ℕ) : Type 0 where
  pub done : canonical n m ≡ ok c
  pub later : m ≤ c.1
  pub bset : Bset
  pub is_leaf : c.0 ≡ leaf_of n.generation bset bset.entries
  pub sorted : IsSorted bset.entries
  pub seq : bset.seq < c.1
  pub few : length bset.entries ≤ 29
  pub several : 1 < length bset.entries
  pub holds : (j : Bytes) → lookup bset.entries j ≡ view n j

must_split-total :
    (n : Node) (key : Bytes) (m : ℕ) → IsLeaf n m → must_split n key ≡ true → 29 ≤ total_of n.bsets
unfolding must_split nkeys
must_split-total n key m h s = let lv = h.leaf in ground arith

pub canonical_lem :
    (n : Node) (m : ℕ) (key : Bytes)
    → IsLeaf n m
    → must_split n key ≡ true
    → (c : Node × ℕ) × OneRun n m c
unfolding canonical view lookup latest
canonical_lem n m key h s =
    let full = must_split-total n key m h s in
    let few = h.few in
    let t = two_keys n.bsets (omega arith) h.ordered in
    elim (Bool-cases (ltb 1 (bset_count n))) [
      | inl many ↦
          let c = compact_leaf_in_place_lem n m h in
          let ys = merged_lem n h.ordered in
          let fits = length-merged n in
          let room = h.room in
          (
            (compacted n m, m + 1),
            record {
              done = rw (many, c.done) refl;
              later = omega arith;
              bset = record {
                seq = m;
                needs_whiteout = any whiteout_entry (merged n);
                entries = merged n;
              };
              is_leaf = refl;
              sorted = ys.0;
              seq = omega arith;
              few = omega arith;
              several =
                  two_entries (merged n) t.a t.b t.of_a t.of_b t.apart (ys.1 t.a ∙ t.holds_a)
                    (ys.1 t.b ∙ t.holds_b);
              holds = ys.1;
            },
          )
      | inr one ↦ by n.bsets refl one full
    ]
  where
    by :
        (ss : List Bset)
        → n.bsets ≡ ss
        → ltb 1 (bset_count n) ≡ false
        → 29 ≤ total_of n.bsets
        → (c : Node × ℕ) × OneRun n m c
    by [] p one full = absurd (let q : total_of n.bsets ≡ 0 = rw p refl in omega arith)
    by (b ∷ d ∷ ss) p one full = absurd (
        let q : length n.bsets ≡ suc (suc (length ss)) = rw p refl in let z : ⊥ = ground arith in z)
    by (b ∷ []) p one full =
        let q : total_of n.bsets ≡ length b.entries + 0 = rw p refl in
        let room = h.room in
        (
          (n, m),
          record {
            done = rw one refl;
            later = omega arith;
            bset = b;
            is_leaf = λ i. record { level = h.leaf i; generation = n.generation; bsets = p i };
            sorted = (subst (λ ss. IsOrdered (cursors ss)) p h.ordered).1;
            seq = (subst (λ ss. SeqsBelow m ss) p h.seqs).0;
            few = omega arith;
            several = omega arith;
            holds = λ j. sym (ap (λ ss. latest (cursors ss) j) p);
          },
        )
