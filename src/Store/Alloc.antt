-- ===== src/Store/Alloc.antt =====
-- storage.rs: the allocator never hands out a block that is in use.
use rfs.Prelude.{
  ℕ, ◌+◌, ◌%◌, ◌^◌, ◌≤◌, ◌<◌, ◌≡◌, refl, ap, Bool, true, false, Option, none, some, List, [], ◌∷◌,
  ◌++◌, arith, ◌==◌, if◌then◌else◌,
}
use rfs.Store.{BlockStore, alloc, free, pop, remove, first_data_block_nr}

-- How often a number occurs.
abbrev pub one_if : Bool → ℕ
one_if true = 1
one_if false = 0

abbrev pub count : List ℕ → ℕ → ℕ
count [] n = 0
count (x ∷ xs) n = one_if (x == n) + count xs n

-- The list without one occurrence of a number.
abbrev pub without : List ℕ → ℕ → List ℕ
without [] n = []
without (x ∷ xs) n = let rest = without xs n in if x == n then xs else x ∷ rest

pub count-append : (xs ys : List ℕ) (n : ℕ) → count (xs ++ ys) n ≡ count xs n + count ys n
count-append [] ys n = omega arith
count-append (x ∷ xs) ys n = omega (arith, count-append xs ys n)

count-without :
    (xs : List ℕ) (m n : ℕ) → 0 < count xs m → count xs n ≡ one_if (m == n) + count (without xs m) n
count-without [] m n h = absurd (omega arith)
count-without (x ∷ xs) m n h = ground (arith, count-without xs m n)

pop-none : (xs : List ℕ) → pop xs ≡ none → xs ≡ []
pop-none [] h = refl
pop-none (x ∷ xs) h = ground arith

pub pop-count :
    (xs ys : List ℕ) (y n : ℕ) → pop xs ≡ some (y, ys) → count xs n ≡ one_if (y == n) + count ys n
pop-count [] ys y n h = ground arith
pop-count (x ∷ xs) ys y n h = by (pop xs) refl (λ zs z. pop-count xs zs z n)
  where
    by :
        (o : Option (ℕ × List ℕ))
        → pop xs ≡ o
        → ((zs : List ℕ) (z : ℕ)
            → pop xs ≡ some (z, zs)
            → count xs n ≡ one_if (z == n) + count zs n)
        → count (x ∷ xs) n ≡ one_if (y == n) + count ys n
    by none p ih = ground (arith, pop-none xs p)
    by (some (z, zs)) p ih = ground (arith, ih zs z p)

pop-snoc : (xs : List ℕ) (x : ℕ) → pop (xs ++ x ∷ []) ≡ some (x, xs)
pop-snoc [] x = refl
pop-snoc (y ∷ xs) x = rw (pop-snoc xs x)

-- No block is twice in use or free, and each is behind the journal and below the counter.
pub record IsAlloc {Dev : Type 0} (live : List ℕ) (s : BlockStore Dev) : Type 0 where
  pub once : (n : ℕ) → count live n + count s.free_list n ≤ 1
  pub bound :
      (n : ℕ)
      → 0 < count live n + count s.free_list n
      → (first_data_block_nr ≤ n) × (n < s.next_block_nr)

module _ {Dev : Type 0} (live : List ℕ) (s : BlockStore Dev) (h : IsAlloc live s) where
  fresh_lem :
      pop s.free_list ≡ none
      → first_data_block_nr ≤ s.next_block_nr
      → s.next_block_nr + 1 < 2 ^ 64
      → (count live s.next_block_nr ≡ 0)
        × (first_data_block_nr ≤ s.next_block_nr)
        × IsAlloc
            (s.next_block_nr ∷ live)
            (record s { next_block_nr = (s.next_block_nr + 1) % 2 ^ 64 })
  fresh_lem p low high =
      let none_free : (n : ℕ) → count s.free_list n ≡ 0 =
        λ n. ap (λ x. count x n) (pop-none s.free_list p) in
      let unused : count live s.next_block_nr ≡ 0 = ground (arith, h.bound s.next_block_nr) in
      (
        unused,
        low,
        record {
          once = λ n. ground (arith, h.once n, none_free n, h.bound n);
          bound = λ n q. ground (arith, h.bound n);
        },
      )

  reused_lem :
      (nr : ℕ) (rest : List ℕ)
      → pop s.free_list ≡ some (nr, rest)
      → (count live nr ≡ 0)
        × (first_data_block_nr ≤ nr)
        × IsAlloc (nr ∷ live) (record s { free_list = rest })
  reused_lem nr rest p =
      let c : (n : ℕ) → count s.free_list n ≡ one_if (nr == n) + count rest n =
        λ n. pop-count s.free_list rest nr n p in
      (
        ground (arith, h.once nr, c nr),
        ground (arith, h.bound nr, c nr),
        record {
          once = λ n. omega (arith, h.once n, c n);
          bound = λ n q. h.bound n (omega (arith, q, c n));
        },
      )

  -- An allocation hands out a block that is not in use, behind the journal, and afterwards it is
  -- in use; the counter must not be at its end.
  pub alloc_lem :
      first_data_block_nr ≤ s.next_block_nr
      → s.next_block_nr + 1 < 2 ^ 64
      → (count live (alloc s).0 ≡ 0)
        × (first_data_block_nr ≤ (alloc s).0)
        × IsAlloc ((alloc s).0 ∷ live) (alloc s).1
  unfolding alloc
  alloc_lem low high = by (pop s.free_list) refl
    where
      Good : ℕ × BlockStore Dev → Type 0
      Good (nr, s') = (count live nr ≡ 0) × (first_data_block_nr ≤ nr) × IsAlloc (nr ∷ live) s'

      by : (o : Option (ℕ × List ℕ)) → pop s.free_list ≡ o → Good (alloc s)
      by none p = rw (p, alloc) (fresh_lem p low high)
      by (some (nr, rest)) p = rw (p, alloc) (reused_lem nr rest p)

  -- A block that is in use and is freed is not in use, and the next allocation returns it.
  pub free_lem :
      (nr : ℕ)
      → 0 < count live nr
      → IsAlloc (without live nr) (free s nr)
        × (alloc (free s nr) ≡ (
          nr,
          record s { node_cache = remove s.node_cache nr; data_cache = remove s.data_cache nr },
        ))
  unfolding free alloc
  free_lem nr k = (
    record {
      once = λ n.
          omega (arith, h.once n, count-without live nr n k, count-append s.free_list (nr ∷ []) n);
      bound = λ n q.
          h.bound n
            (omega (arith, q, count-without live nr n k, count-append s.free_list (nr ∷ []) n));
    },
    rw (pop-snoc s.free_list nr, alloc) refl,
  )
