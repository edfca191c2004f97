-- ===== src/Leaf/Write.antt =====
-- The write of an entry into a leaf that need not be split: `ensure_writable_last_bset`, and the
-- closure `apply` of `insert_leaf`.
use rfs.Prelude.{
  ltb→lt, ℕ, ◌+◌, ◌≤◌, ◌<◌, ◌≡◌, ◌≢◌, refl, Option, none, some, List, [], ◌∷◌, ◌++◌, arith, length,
  ◌∙◌, true, false, ◌-◌, ltb, ◌||◌, if◌then◌else◌, eq, inl, inr, Bool-cases,
}
use rfs.Prelude.Outcome.{ok, ◌>>=◌}
use rfs.Bytes.{Bytes, compare_bytes}
use rfs.Entry.{DiskEntry, key_bytes}
use rfs.Entry.Kind.{EntryKind, live, deleted, whiteout}
use rfs.Entry.Image.{leaf_entry, build_leaf_entry_lem, key_bytes-leaf_entry}
use rfs.Node.{
  Node, Bset, Found, at, insert_at, is_at, last?, update_last, total_of, search_entries,
  start_new_bset, sort_insert_into_last_bset, nkeys, bset_count, place,
}
use rfs.Leaf.{ensure_writable_last_bset, absorbs, must_split, apply_write, mark_whiteout}
use rfs.Leaf.View.{view, IsLeaf, write_entry, update_last-same, view-write, grows, IsLeaf-write}
use rfs.Leaf.Opening.{fresh, open_lem, flag_lem}
use rfs.Leaf.Rebuild.{compacted, compact_leaf_in_place_lem}

-- The leaf is ready for a write: it has a newest bset, and holds what it held.
pub record Writable (n : Node) (m : ℕ) (r : Node × ℕ) : Type 0 where
  pub done : ensure_writable_last_bset n m ≡ ok r
  pub leaf : IsLeaf r.0 r.1
  pub same : (k : Bytes) → view r.0 k ≡ view n k
  pub total : total_of r.0.bsets ≤ total_of n.bsets
  pub last : last? r.0.bsets ≢ none
  pub later : m ≤ r.1

some_bset : (ss : List Bset) (s : Bset) → last? ss ≡ some s → last? ss ≢ none
some_bset ss s p q = cc

opened_Writable :
    (n : Node) (m : ℕ)
    → IsLeaf n m
    → (short : length n.bsets < 4)
    → ensure_writable_last_bset n m ≡ (start_new_bset n m >>= λ n'. ok (n', m + 1))
    → (r : Node × ℕ) × Writable n m r
unfolding start_new_bset
opened_Writable n m h short p =
    let o = open_lem n m h short in
    let n' : Node = record n { bsets = n.bsets ++ fresh m ∷ [] } in
    let fits : ltb (bset_count n) 4 ≡ true = ground arith in
    (
      (n', m + 1),
      record {
        done = p ∙ rw fits;
        leaf = o.leaf;
        same = o.same;
        total = omega (arith, o.total);
        last = some_bset n'.bsets (fresh m) o.last;
        later = omega arith;
      },
    )

last_of_compacted : (n : Node) (m : ℕ) → last? (compacted n m).bsets ≢ none
last_of_compacted n m q = cc

last-none : (ss : List Bset) → last? ss ≡ none → length ss ≡ 0
last-none [] h = refl
last-none (s ∷ []) h = cc
last-none (s ∷ t ∷ ss) h = absurd (not_none (t ∷ ss) (omega arith) h)
  where
    not_none : (xs : List Bset) → 0 < length xs → last? xs ≢ none
    not_none [] l q = elim l [ ]
    not_none (x ∷ []) l q = cc
    not_none (x ∷ y ∷ xs) l q = not_none (y ∷ xs) (omega arith) q

-- `ensure_writable_last_bset` succeeds on every leaf.
pub ensure_writable_lem : (n : Node) (m : ℕ) → IsLeaf n m → (r : Node × ℕ) × Writable n m r
unfolding ensure_writable_last_bset
ensure_writable_lem n m h = by_last (last? n.bsets) refl
  where
    by_last : (o : Option Bset) → last? n.bsets ≡ o → (r : Node × ℕ) × Writable n m r
    by_last none p =
        opened_Writable n m h (omega (arith, last-none n.bsets p))
          (rw (p, ensure_writable_last_bset))
    by_last (some l) p = elim (Bool-cases (ltb (length l.entries) 7)) [
      | inl room ↦ (
        (n, m),
        record {
          done = rw (p, ensure_writable_last_bset) (rw room);
          leaf = h;
          same = λ k. refl;
          total = omega arith;
          last = some_bset n.bsets l p;
          later = omega arith;
        },
      )
      | inr full ↦ elim (Bool-cases (ltb (bset_count n) 4)) [
        | inl short ↦
            opened_Writable n m h (ltb→lt _ _ short)
              (rw (p, ensure_writable_last_bset) (rw (full, short)))
        | inr many ↦
            let c = compact_leaf_in_place_lem n m h in
            (
              (compacted n m, m + 1),
              record {
                done = rw (p, ensure_writable_last_bset) (rw (full, many, c.done));
                leaf = c.leaf;
                same = c.same;
                total = c.total;
                last = last_of_compacted n m;
                later = omega arith;
              },
            )
      ]
    ]

-- What a sort-insert into a leaf with room returns.
sort_insert_lem :
    (n : Node) (e : DiskEntry) (l : Bset)
    → last? n.bsets ≡ some l
    → total_of n.bsets + grows n.bsets e ≤ 29
    → sort_insert_into_last_bset n e
      ≡ ok (
        record n { bsets = update_last (write_entry e) n.bsets },
        search_entries l.entries (key_bytes e),
      )
unfolding sort_insert_into_last_bset
sort_insert_lem n e l p room =
    let r = search_entries l.entries (key_bytes e) in
    let same =
      update_last-same (λ s. record s { entries = place r e s.entries }) (write_entry e) l n.bsets p
        refl in
    let fits : is_at r || ltb (total_of n.bsets) 29 ≡ true = fits_lem r (grows_of p) in
    rw (p, sort_insert_into_last_bset) (rw (fits, same))
  where
    grows_of :
        last? n.bsets ≡ some l
        → total_of n.bsets
            + (elim (search_entries l.entries (key_bytes e)) [ at i ↦ 0 | insert_at i ↦ 1 ])
          ≤ 29
    grows_of q = rw (q, grows) at room

    fits_lem :
        (r : Found)
        → total_of n.bsets + (elim r [ at i ↦ 0 | insert_at i ↦ 1 ]) ≤ 29
        → is_at r || ltb (total_of n.bsets) 29 ≡ true
    fits_lem (at i) h = refl
    fits_lem (insert_at i) h = ground arith

grows-le : (ss : List Bset) (e : DiskEntry) → grows ss e ≤ 1
grows-le ss e = ground arith

grows-absorbs : (n : Node) (e : DiskEntry) → absorbs n (key_bytes e) ≡ true → grows n.bsets e ≡ 0
unfolding absorbs
grows-absorbs n e h = ground arith

absorbs-last : (n : Node) (key : Bytes) → absorbs n key ≡ true → last? n.bsets ≢ none
unfolding absorbs
absorbs-last n key h q = ground arith

-- The leaf, and the counter, after a write.
pub record Written (n : Node) (m : ℕ) (key : Bytes) (k : EntryKind) (value : Bytes) (r : Node × ℕ)
    : Type 0 where
  pub done : apply_write n key k value m ≡ ok r
  pub leaf : IsLeaf r.0 r.1
  pub reads :
      (j : Bytes)
      → view r.0 j
        ≡ (elim (compare_bytes key j) [ eq ↦ some (leaf_entry key k value) | _ ↦ view n j ])
  pub later : m ≤ r.1

-- `mark_whiteout` changes at most a flag.
mark_lem :
    (k : EntryKind) (n : Node) (m : ℕ)
    → IsLeaf n m
    → IsLeaf (mark_whiteout k n) m × ((j : Bytes) → view (mark_whiteout k n) j ≡ view n j)
mark_lem live n m h = (h, λ j. refl)
mark_lem deleted n m h = (h, λ j. refl)
mark_lem whiteout n m h = flag_lem n (bset_count n - 1) true m h

module _ (n : Node) (m : ℕ) (key : Bytes) (k : EntryKind) (value : Bytes) (h : IsLeaf n m)
    (long : 4 ≤ length key) (short : length key ≤ 32) where
  e : DiskEntry
  e = leaf_entry key k value

  e-key : key_bytes e ≡ key
  unfolding e
  e-key = key_bytes-leaf_entry key long short k value

  -- The write into a leaf `r` that is ready for it.
  write_ready :
      (r : Node × ℕ)
      → (if absorbs n key then ok (n, m) else ensure_writable_last_bset n m) ≡ ok r
      → IsLeaf r.0 r.1
      → ((j : Bytes) → view r.0 j ≡ view n j)
      → last? r.0.bsets ≢ none
      → total_of r.0.bsets + grows r.0.bsets e ≤ 29
      → m ≤ r.1
      → (w : Node × ℕ) × Written n m key k value w
  unfolding apply_write e view
  write_ready r p leaf same has room later = by (last? r.0.bsets) refl
    where
      by : (o : Option Bset) → last? r.0.bsets ≡ o → (w : Node × ℕ) × Written n m key k value w
      by none q = absurd (has q)
      by (some l) q =
          let n' : Node = record r.0 { bsets = update_last (write_entry e) r.0.bsets } in
          let s = sort_insert_lem r.0 e l q room in
          let marked = mark_lem k n' r.1 (IsLeaf-write r.0 r.1 e leaf room) in
          (
            (mark_whiteout k n', r.1),
            record {
              done = rw (build_leaf_entry_lem key long short k value) (rw p (rw s));
              leaf = marked.0;
              reads = λ j.
                  marked.1 j ∙ view-write e l r.0.bsets j q ∙ rw e-key (ground (arith, same j));
              later = later;
            },
          )

  -- A leaf that need not be split takes the write: the call succeeds, the result is a leaf whose
  -- bsets are older than the new counter, the key reads as the written entry, and every other key
  -- as before.
  pub apply_write_lem : must_split n key ≡ false → (w : Node × ℕ) × Written n m key k value w
  unfolding must_split nkeys e
  apply_write_lem fits = elim (Bool-cases (absorbs n key)) [
    | inl old ↦
        let none_new : grows n.bsets e ≡ 0 = grows-absorbs n e (rw e-key old) in
        write_ready (n, m) (rw old) h (λ j. refl) (absorbs-last n key old)
          (let room = h.room in omega arith) (omega arith)
    | inr new ↦
        let (r, w) = ensure_writable_lem n m h in
        let less : total_of n.bsets < 29 = let lv = h.leaf in ground arith in
        let few = w.total in
        write_ready r (rw new w.done) w.leaf w.same w.last (omega (arith, grows-le r.0.bsets e))
          w.later
  ]
