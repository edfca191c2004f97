-- ===== src/Store/FreeList/Persist.antt =====
-- A free list that is persisted is loaded again, together with the blocks of its chain.
use rfs.Prelude.{
  ℕ, zero, suc, ◌+◌, ◌^◌, ◌<◌, ◌≤◌, ◌≡◌, refl, sym, ap, ◌∙◌, subst, true, List, [], ◌∷◌, ◌++◌,
  length, take, drop, arith, length-take, length-drop, ◌==◌, inl, inr, Bool-cases,
}
use rfs.Prelude.Outcome.{ok, bind-ok, ok_inj}
use rfs.Device.{BlockDevice}
use rfs.Store.{BlockStore}
use rfs.Store.Alloc.{count, count-append}
use rfs.Store.Coherent.{IsCoherent}
use rfs.Store.FreeList.{
  chunks_from, chunks, persist_chunks, persist_free_list, recycled, load_free_list,
}
use rfs.Store.FreeList.Block.{AllBlocks}
use rfs.Store.FreeList.Chain.{
  AllChunks, concat, rev_onto, first, IsChain, persist_chunks_lem, load_from_lem,
}

take-AllBlocks : (n : ℕ) (xs : List ℕ) → AllBlocks xs → AllBlocks (take n xs)
take-AllBlocks zero xs h = tt
take-AllBlocks (suc n) [] h = tt
take-AllBlocks (suc n) (x ∷ xs) (hx, h) = (hx, take-AllBlocks n xs h)

drop-AllBlocks : (n : ℕ) (xs : List ℕ) → AllBlocks xs → AllBlocks (drop n xs)
drop-AllBlocks zero xs h = h
drop-AllBlocks (suc n) [] h = tt
drop-AllBlocks (suc n) (x ∷ xs) (hx, h) = drop-AllBlocks n xs h

chunks-AllChunks : (fuel : ℕ) (xs : List ℕ) → AllBlocks xs → AllChunks (chunks_from fuel xs)
unfolding chunks_from
chunks-AllChunks zero xs h = tt
chunks-AllChunks (suc fuel) [] h = tt
chunks-AllChunks (suc fuel) (x ∷ xs) h = (
  omega (arith, length-take 510 (x ∷ xs)),
  take-AllBlocks 510 (x ∷ xs) h,
  chunks-AllChunks fuel (drop 510 (x ∷ xs)) (drop-AllBlocks 510 (x ∷ xs) h),
)

count-take-drop :
    (m : ℕ) (xs : List ℕ) (n : ℕ) → count (take m xs) n + count (drop m xs) n ≡ count xs n
count-take-drop zero xs n = omega arith
count-take-drop (suc m) [] n = omega arith
count-take-drop (suc m) (x ∷ xs) n = omega (arith, count-take-drop m xs n)

-- The chunks have the entries of the list.
count-chunks :
    (fuel : ℕ) (xs : List ℕ) (n : ℕ)
    → length xs ≤ fuel
    → count (concat (chunks_from fuel xs)) n ≡ count xs n
unfolding chunks_from
count-chunks zero [] n h = refl
count-chunks zero (x ∷ xs) n h = absurd (omega arith)
count-chunks (suc fuel) [] n h = refl
count-chunks (suc fuel) (x ∷ xs) n h =
    let rest = drop 510 (x ∷ xs) in
    let ih = count-chunks fuel rest n (omega (arith, length-drop 510 (x ∷ xs))) in
    count-append (take 510 (x ∷ xs)) (concat (chunks_from fuel rest)) n
    ∙ ap (λ i. count (take 510 (x ∷ xs)) n + i) ih
    ∙ count-take-drop 510 (x ∷ xs) n

count-rev_onto : (xs ys : List ℕ) (n : ℕ) → count (rev_onto xs ys) n ≡ count xs n + count ys n
count-rev_onto [] ys n = omega arith
count-rev_onto (x ∷ xs) ys n = omega (arith, count-rev_onto xs (x ∷ ys) n)

count-concat_rev :
    (cs done : List (List ℕ)) (n : ℕ)
    → count (concat (rev_onto cs done)) n ≡ count (concat cs) n + count (concat done) n
count-concat_rev [] done n = omega arith
count-concat_rev (c ∷ cs) done n = omega (
  arith,
  count-concat_rev cs (c ∷ done) n,
  count-append c (concat done) n,
  count-append c (concat cs) n,
)

length-rev_onto : {A : Type 0} (xs ys : List A) → length (rev_onto xs ys) ≡ length xs + length ys
length-rev_onto [] ys = omega arith
length-rev_onto (x ∷ xs) ys = omega (arith, length-rev_onto xs (x ∷ ys))

rev-AllChunks :
    (cs done : List (List ℕ)) → AllChunks cs → AllChunks done → AllChunks (rev_onto cs done)
rev-AllChunks [] done h k = k
rev-AllChunks (c ∷ cs) done (a, b, h) k = rev-AllChunks cs (c ∷ done) h (a, b, k)

module _ (dev : BlockDevice) where
  open dev use {Device}

  IsChain-length :
      (d : Device) (m : ℕ) (bs : List ℕ) (cs : List (List ℕ))
      → IsChain dev d m bs cs
      → length bs ≡ length cs
  IsChain-length d m [] [] h = refl
  IsChain-length d m [] (c ∷ cs) h = absurd h
  IsChain-length d m (b ∷ bs) [] h = absurd h
  IsChain-length d m (b ∷ bs) (c ∷ cs) (z, lt, r, h) = ap suc (IsChain-length d m bs cs h)

  -- The load of a chain, against the free list that it was made of.
  from_chain :
      (free : List ℕ) (t : BlockStore Device) (m head : ℕ) (added : List ℕ) (cs : List (List ℕ))
      (fuel : ℕ)
      → IsCoherent dev t
      → IsChain dev t.device m (rev_onto added []) (rev_onto cs [])
      → m < 2 ^ 64
      → 0 < m
      → AllChunks cs
      → head ≡ first (rev_onto added [])
      → length cs < fuel
      → ((n : ℕ) → count (concat cs) n ≡ count free n)
      → (t' : BlockStore Device) × (load_free_list dev fuel t head ≡ ok t')
        × ((n : ℕ) → count t'.free_list n ≡ count free n + count added n)
  unfolding load_free_list
  from_chain free t m head added cs fuel ht chain top pos fits at_head enough same =
      let bs = rev_onto added [] in
      let done = rev_onto cs [] in
      let blocks = IsChain-length t.device m bs done chain in
      let l = length-rev_onto cs [] in
      let (t1, e1, h1) =
        load_from_lem dev fuel t m bs done ht top pos (rev-AllChunks cs [] fits tt) chain
          (omega arith) in
      (
        record t1 { free_list = concat done ++ bs },
        rw at_head (rw e1 refl),
        λ n. omega (
          arith,
          count-append (concat done) bs n,
          count-concat_rev cs [] n,
          count-rev_onto added [] n,
          same n,
        ),
      )

  no_entries : (xs : List ℕ) (n : ℕ) → (length xs == 0) ≡ true → count xs n ≡ 0
  no_entries [] n h = refl
  no_entries (x ∷ xs) n h = ground arith

  -- The free list of a coherent store is persisted, and a coherent store on the same device loads
  -- it with fuel for the chain: the load succeeds, and its free list has each block as often as
  -- the persisted free list and its chain together.
  pub load-persist :
      (s s' t : BlockStore Device) (head fuel : ℕ)
      → IsCoherent dev s
      → 0 < s.next_block_nr
      → s.next_block_nr + length (chunks (recycled dev s).free_list) < 2 ^ 64
      → AllBlocks (recycled dev s).free_list
      → persist_free_list dev s ≡ ok (s', head)
      → IsCoherent dev t
      → t.device ≡ s'.device
      → length (chunks (recycled dev s).free_list) < fuel
      → (t' : BlockStore Device) × (load_free_list dev fuel t head ≡ ok t')
        × ((n : ℕ) → count t'.free_list n ≡ count s'.free_list n + count s'.last_chain_blocks n)
  unfolding persist_free_list load_free_list
  load-persist s s' t head fuel h pos room small e ht same enough =
      elim (Bool-cases (length fl == 0)) [
        | inl none_free ↦
            let q =
              ok_inj (recycled dev s, 0) (s', head) (rw (none_free, persist_free_list) at e) in
            subst Loaded q (
              from_chain fl t 1 0 [] [] fuel ht tt (omega arith) (omega arith) tt refl (omega arith)
                (λ n. sym (no_entries fl n none_free)))
        | inr some_free ↦
            let (r, e1, e2) =
              bind-ok (persist_chunks dev (recycled dev s) 0 [] (chunks fl)) _ (s', head)
                (rw (some_free, persist_free_list) at e) in
            let q = ok_inj (record r.0 { last_chain_blocks = r.2 }, r.1) (s', head) e2 in
            subst Loaded q (persisted r e1 (same ∙ sym (ap (λ x. x.0.device) q)))
      ]
    where
      fl : List ℕ
      fl = (recycled dev s).free_list

      Loaded : BlockStore Device × ℕ → Type 0
      Loaded (u, hd) =
          (t' : BlockStore Device) × (load_free_list dev fuel t hd ≡ ok t')
          × ((n : ℕ) → count t'.free_list n ≡ count u.free_list n + count u.last_chain_blocks n)

      fits : AllChunks (chunks fl)
      fits = chunks-AllChunks (length fl) fl small

      persisted :
          (r : BlockStore Device × ℕ × List ℕ)
          → persist_chunks dev (recycled dev s) 0 [] (chunks fl) ≡ ok r
          → t.device ≡ r.0.device
          → Loaded (record r.0 { last_chain_blocks = r.2 }, r.1)
      persisted r e1 on_device =
          let (added, ec, chain, eh, coherent, ef, top, up) =
            persist_chunks_lem dev (recycled dev s) 0 [] [] [] (chunks fl) r h pos room fits tt refl
              e1 in
          let m = r.0.next_block_nr in
          let there =
            subst (λ d. IsChain dev d m (rev_onto added []) (rev_onto (chunks fl) []))
              (sym on_device) chain in
          let (t', e2, counts) =
            from_chain fl t m r.1 added (chunks fl) fuel ht there top up fits eh enough
              (λ n. count-chunks (length fl) fl n (omega arith)) in
          (t', e2, λ n. rw (ef, ec) (counts n))
