-- ===== src/Btree/Fresh.antt =====
-- What a write on fresh blocks leaves alone: every block that was handed out before.
use rfs.Prelude.{
  ℕ, ◌+◌, ◌^◌, ◌≤◌, ◌<◌, ◌≡◌, ◌≢◌, refl, Option, none, some, List, ◌∷◌, arith, ◌∙◌, subst, sym,
  false,
}
use rfs.Store.{pop, get}
use rfs.Store.Alloc.{count, pop-count}
use rfs.Node.{Node}
use rfs.Btree.{NodeStore, CachedNode, alloc, write_node, write_fresh, put}

-- A block that was handed out and has not been freed.
abbrev pub Taken : NodeStore → ℕ → Type 0
Taken s nr = (count s.free_list nr ≡ 0) × (nr < s.next_block_nr)

-- The counter of blocks has moved by `m` at most, and every block that was taken is taken and as it
-- was.
pub record Grown (m : ℕ) (s s' : NodeStore) : Type 0 where
  pub low : s.next_block_nr ≤ s'.next_block_nr
  pub high : s'.next_block_nr ≤ s.next_block_nr + m
  pub taken : (nr : ℕ) → Taken s nr → Taken s' nr
  pub kept : (nr : ℕ) → Taken s nr → get s'.nodes nr ≡ get s.nodes nr

-- As long as the counter of blocks does not wrap around.
abbrev pub Extends : ℕ → NodeStore → NodeStore → Type 0
Extends m s s' = s.next_block_nr + m < 2 ^ 64 → Grown m s s'

pub Extends-refl : (s : NodeStore) → Extends 0 s s
Extends-refl s h = record {
  low = omega arith;
  high = omega arith;
  taken = λ nr t. t;
  kept = λ nr t. refl;
}

pub Extends-trans :
    (m k : ℕ) (s t u : NodeStore) → Extends m s t → Extends k t u → Extends (m + k) s u
Extends-trans m k s t u a b h =
    let g = a (omega arith) in
    let e = b (let x = g.high in omega arith) in
    record {
      low = let x = g.low in let y = e.low in omega arith;
      high = let x = g.high in let y = e.high in omega arith;
      taken = λ nr w. e.taken nr (g.taken nr w);
      kept = λ nr w. e.kept nr (g.taken nr w) ∙ g.kept nr w;
    }

pub Extends-more : (m k : ℕ) (s t : NodeStore) → m ≤ k → Extends m s t → Extends k s t
Extends-more m k s t l a h =
    let g = a (omega arith) in
    record { low = g.low; high = let x = g.high in omega arith; taken = g.taken; kept = g.kept }

-- A block handed out is not one that was taken.
abbrev pub Fresh : ℕ → NodeStore → ℕ → Type 0
Fresh m s nr = s.next_block_nr + m < 2 ^ 64 → Taken s nr → ⊥

pub Fresh-later :
    (m k : ℕ) (s t : NodeStore) (nr : ℕ) → Extends m s t → Fresh k t nr → Fresh (m + k) s nr
Fresh-later m k s t nr a f h w =
    let g = a (omega arith) in f (let x = g.high in omega arith) (g.taken nr w)

pub Fresh-more : (m k : ℕ) (s : NodeStore) (nr : ℕ) → m ≤ k → Fresh m s nr → Fresh k s nr
Fresh-more m k s nr l f h w = f (omega arith) w

pub Fresh-alloc : (m : ℕ) (s : NodeStore) → Fresh m s (alloc s).0
unfolding alloc
Fresh-alloc m s h t = by (pop s.free_list) refl
  where
    by : (o : Option (ℕ × List ℕ)) → pop s.free_list ≡ o → ⊥
    by none p = let u = rw (p, alloc) at t in omega (arith, u.1)
    by (some (nr, rest)) p =
        let u = rw (p, alloc) at t in ground (arith, u.0, pop-count s.free_list rest nr nr p)

pub Extends-alloc : (s : NodeStore) → Extends 1 s (alloc s).1
unfolding alloc
Extends-alloc s h = by (pop s.free_list) refl
  where
    by : (o : Option (ℕ × List ℕ)) → pop s.free_list ≡ o → Grown 1 s (alloc s).1
    by none p =
        rw (p, alloc)
          (record {
            low = omega arith;
            high = omega arith;
            taken = λ n t. (t.0, let x = t.1 in omega arith);
            kept = λ n t. refl;
          })
    by (some (nr, rest)) p =
        rw (p, alloc)
          (record {
            low = omega arith;
            high = omega arith;
            taken = λ n t. (let x = t.0 in omega (arith, pop-count s.free_list rest nr n p), t.1);
            kept = λ n t. refl;
          })

get_other :
    (m : List (ℕ × CachedNode)) (c : CachedNode) (a b : ℕ) → a ≢ b → get ((a, c) ∷ m) b ≡ get m b
get_other m c a b h = ground arith

-- A write to a block that was fresh.
pub Extends-write :
    (m : ℕ) (s t : NodeStore) (nr : ℕ) (n : Node)
    → Fresh m s nr
    → Extends m s t
    → Extends m s (write_node t nr n)
unfolding write_node put
Extends-write m s t nr n f a h =
    let g = a h in
    record {
      low = g.low;
      high = g.high;
      taken = g.taken;
      kept = λ b w.
          let other : nr ≢ b = λ e. f h (subst (λ x. Taken s x) (sym e) w) in
          get_other t.nodes (record { node = n; dirty = false }) nr b other ∙ g.kept b w;
    }

pub Extends-write_fresh : (s : NodeStore) (n : Node) → Extends 1 s (write_fresh s n).1
unfolding write_fresh
Extends-write_fresh s n =
    Extends-write 1 s (alloc s).1 (alloc s).0 n (Fresh-alloc 1 s) (Extends-alloc s)
