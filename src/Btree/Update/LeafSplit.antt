-- ===== src/Btree/Update/LeafSplit.antt =====
-- What `split_leaf_node` returns for a leaf of a tree.
use rfs.Prelude.{
  ℕ, ◌/◌, ◌≤◌, ◌<◌, ◌≡◌, refl, ap, ◌∙◌, sym, true, false, Option, none, some, List, [], ◌∷◌, ◌++◌,
  arith, length, get_elem?, length-append, subst,
}
use rfs.Prelude.Outcome.{Outcome, ok, ◌>>=◌, or_panic}
use rfs.Bytes.{Bytes, ◌≺◌}
use rfs.Entry.{DiskEntry, key_bytes}
use rfs.Node.{Node, Bset, single, nkeys}
use rfs.Node.Search.{IsSorted, lookup}
use rfs.Node.Merged.{merged}
use rfs.Leaf.{must_split}
use rfs.Leaf.View.{IsLeaf}
use rfs.Btree.{NodeStore}
use rfs.Btree.Split.{Edit, Halves, lower_half, upper_half, split_leaf_node, write_halves}
use rfs.Btree.Bounds.{◌⪯◌, FromLo, OverLo, UnderHi, le_lt_trans, or_else, lookup-append}
use rfs.Btree.Slots.{Fits}
use rfs.Btree.Slots.Focus.{get_elem?-place}
use rfs.Btree.Sound.{Good, AllKeys}
use rfs.Btree.Promote.{halves_of, write_halves_lem}
use rfs.Btree.Update.Leaves.{AllKeys-of_lookup, lookup-AllKeys, merged-view}
use rfs.Btree.Update.Canonical.{leaf_of, canonical_lem}
use rfs.Btree.Update.Cuts.{
  run_lem, lower_lem, upper_lem, around, AllKeys-and, AllKeys-parts, run-AllKeys, place_in,
}

-- A leaf that a split has made, with the keys of its range, and room.
pub record Part (m : ℕ) (lo hi : Option Bytes) (n : Node) : Type 0 where
  pub leaf : IsLeaf n m
  pub keys : AllKeys (Good lo hi) (merged n)
  pub fits : (key : Bytes) → must_split n key ≡ false

pub record LeafSplit (e : Edit) (n : Node) (lo hi : Option Bytes) : Type 0 where
  pub generation : ℕ
  pub m' : ℕ
  pub sep : DiskEntry
  pub lower : Node
  pub upper : Node
  pub done : split_leaf_node e n ≡ ok (halves_of e.store 1 generation sep lower upper, m')
  pub later : e.next_bset_seq ≤ m'
  pub key_fits : Fits (key_bytes sep)
  pub over : OverLo lo (key_bytes sep)
  pub under : UnderHi hi (key_bytes sep)
  pub left : Part m' lo (some (key_bytes sep)) lower
  pub right : Part m' (some (key_bytes sep)) hi upper
  pub holds :
      (j : Bytes)
      → or_else (lookup (merged lower) j) (lookup (merged upper) j) ≡ lookup (merged n) j

-- `split_leaf_node` behind `canonical`.
abbrev cut : NodeStore → Node → ℕ → Outcome (Halves × ℕ)
cut s c m = or_panic (get_elem? (single c) (nkeys c / 2)) >>= λ median.
    write_halves s 1 c.generation (key_bytes median) (lower_half c (nkeys c / 2))
      (upper_half c (nkeys c / 2))
    >>= λ h. ok (h, m)

nkeys-leaf_of : (g : ℕ) (s : Bset) (es : List DiskEntry) → nkeys (leaf_of g s es) ≡ length es
unfolding nkeys
nkeys-leaf_of g s es = omega arith

cut_lem :
    (s : NodeStore) (g m : ℕ) (b : Bset) (lows highs : List DiskEntry) (x : DiskEntry)
    → length (lows ++ x ∷ highs) / 2 ≡ length lows
    → Fits (key_bytes x)
    → (sep : DiskEntry) × (cut s (leaf_of g b (lows ++ x ∷ highs)) m
        ≡ ok (halves_of s 1 g sep (leaf_of g b lows) (leaf_of g b (x ∷ highs)), m))
      × (key_bytes sep ≡ key_bytes x)
cut_lem s g m b lows highs x mid t =
    let (sep, done, key) =
      write_halves_lem s 1 g (key_bytes x) (leaf_of g b lows) (leaf_of g b (x ∷ highs)) t in
    let n = nkeys-leaf_of g b (lows ++ x ∷ highs) in
    (
      sep,
      rw (n, mid)
          (rw
            (
              get_elem?-place lows x highs,
              lower_lem g b lows (x ∷ highs),
              upper_lem g b lows (x ∷ highs),
            )
            (rw done refl)),
      key,
    )

has_room :
    (g : ℕ) (b : Bset) (es : List DiskEntry) (key : Bytes)
    → length es < 29
    → must_split (leaf_of g b es) key ≡ false
unfolding must_split nkeys
has_room g b es key h = ground arith

part_lem :
    (g m : ℕ) (b : Bset) (es : List DiskEntry) (lo hi : Option Bytes)
    → IsSorted es
    → b.seq < m
    → length es < 29
    → AllKeys (Good lo hi) es
    → Part m lo hi (leaf_of g b es)
part_lem g m b es lo hi o q f a = record {
  leaf = (run_lem g m b es o q (omega arith)).0;
  keys = run-AllKeys (Good lo hi) g m b es o q (omega arith) a;
  fits = λ key. has_room g b es key f;
}

over_low :
    (lo : Option Bytes) (hi : Option Bytes) (k : Bytes) (es : List DiskEntry)
    → 0 < length es
    → AllKeys (λ j. FromLo lo j) es
    → AllKeys (λ j. j ≺ k) es
    → OverLo lo k
over_low none hi k es h a b = tt
over_low (some lo) hi k [] h a b = absurd (omega arith)
over_low (some lo) hi k (e ∷ es) h a b = le_lt_trans lo (key_bytes e) k a.0 b.0

pub leaf_split_lem :
    (e : Edit) (n : Node) (key : Bytes) (lo hi : Option Bytes)
    → IsLeaf n e.next_bset_seq
    → AllKeys (Good lo hi) (merged n)
    → must_split n key ≡ true
    → LeafSplit e n lo hi
unfolding split_leaf_node
leaf_split_lem e n key lo hi h a full =
    let (c, run) = canonical_lem n e.next_bset_seq key h full in
    let b = run.bset in
    let g = n.generation in
    let few = run.few in
    let several = run.several in
    let (lows, x, highs, split, mid) = place_in (length b.entries / 2) b.entries (omega arith) in
    let size = ap length split ∙ length-append lows (x ∷ highs) in
    let keys = AllKeys-of_lookup (Good lo hi) b.entries run.sorted λ j d p.
      lookup-AllKeys (Good lo hi) (merged n) j d a
        (merged-view n e.next_bset_seq h j ∙ sym (run.holds j) ∙ p) in
    let parts =
      AllKeys-parts (Good lo hi) lows (x ∷ highs)
        (subst (λ es. AllKeys (Good lo hi) es) split keys) in
    let ar = around lows x highs (subst (λ es. IsSorted es) split run.sorted) in
    let k = key_bytes x in
    let good : Good lo hi k = parts.1.0 in
    let half : length (lows ++ x ∷ highs) / 2 ≡ length lows =
      ap (λ es. length es / 2) (sym split) ∙ sym mid in
    let (sep, done, ks) = cut_lem e.store g c.1 b lows highs x half good.2 in
    let lower_good : AllKeys (Good lo (some k)) lows =
      AllKeys-and (Good lo hi) (λ j. j ≺ k) (Good lo (some k)) (λ j p q. (p.0, q, p.2)) lows parts.0
        ar.lows_under in
    let upper_good : AllKeys (Good (some k) hi) (x ∷ highs) =
      AllKeys-and (Good lo hi) (λ j. k ⪯ j) (Good (some k) hi) (λ j p q. (q, p.1, p.2)) (x ∷ highs)
        parts.1 ar.highs_from in
    let low_run = run_lem g c.1 b lows ar.lows_sorted run.seq (omega arith) in
    let high_run = run_lem g c.1 b (x ∷ highs) ar.highs_sorted run.seq (omega arith) in
    record {
      generation = g;
      m' = c.1;
      sep = sep;
      lower = leaf_of g b lows;
      upper = leaf_of g b (x ∷ highs);
      done = rw (run.done) (
          ap (λ n'. cut e.store n' c.1) run.is_leaf
          ∙ ap (λ es. cut e.store (leaf_of g b es) c.1) split
          ∙ done);
      later = run.later;
      key_fits = rw ks good.2;
      over = rw ks (
          over_low lo hi k lows (omega arith)
            (AllKeys-and (Good lo hi) (Good lo hi) (λ j. FromLo lo j) (λ j p q. p.0) lows parts.0
              parts.0)
            ar.lows_under);
      under = rw ks good.1;
      left =
          rw ks (part_lem g c.1 b lows lo (some k) ar.lows_sorted run.seq (omega arith) lower_good);
      right = rw ks (
          part_lem g c.1 b (x ∷ highs) (some k) hi ar.highs_sorted run.seq (omega arith)
            upper_good);
      holds = λ j.
          rw (low_run.1 j, high_run.1 j)
            (sym (lookup-append lows (x ∷ highs) j)
              ∙ ap (λ es. lookup es j) (sym split)
              ∙ run.holds j
              ∙ sym (merged-view n e.next_bset_seq h j));
    }
