-- ===== src/Store/FreeList/Chain.antt =====
-- The chain that `persist_free_list` writes, and that `load_free_list` follows it to its end.
use rfs.Prelude.{
  ℕ, zero, suc, ◌+◌, ◌*◌, ◌%◌, ◌^◌, ◌<◌, ◌≤◌, ◌≡◌, ◌≢◌, refl, sym, ap, ◌∙◌, subst, Option, none,
  some, List, [], ◌∷◌, ◌++◌, append_assoc, append-nil, length, arith,
}
use rfs.Prelude.Outcome.{ok, bind-ok, ok_inj}
use rfs.Bytes.{Bytes}
use rfs.Device.{BlockDevice}
use rfs.Store.{BlockStore, get, read_data, write_data}
use rfs.Store.Coherent.{IsCoherent, read_data_lem, write_data_lem}
use rfs.Store.FreeList.{chain_block, next_of, entries_of, persist_chunks, load_from}
use rfs.Store.FreeList.Block.{
  AllBlocks, length-chain_block, next_of-chain_block, entries_of-chain_block,
}

-- Chunks that fit a block.
abbrev pub AllChunks : List (List ℕ) → Type 0
AllChunks [] = Unit
AllChunks (c ∷ cs) = (length c ≤ 510) × AllBlocks c × AllChunks cs

abbrev pub concat : List (List ℕ) → List ℕ
concat [] = []
concat (c ∷ cs) = c ++ concat cs

-- The items of the first list, reversed, before those of the second.
abbrev pub rev_onto {ℓ} : {A : Type ℓ} → List A → List A → List A
rev_onto [] acc = acc
rev_onto (x ∷ xs) acc = rev_onto xs (x ∷ acc)

abbrev pub first : List ℕ → ℕ
first [] = 0
first (b ∷ bs) = b

module _ (dev : BlockDevice) where
  open dev use {Device, read_at}

  -- The blocks hold the chunks, each with the number of the next block, and lie below a bound.
  abbrev pub IsChain : Device → ℕ → List ℕ → List (List ℕ) → Type 0
  IsChain d m [] [] = Unit
  IsChain d m [] (c ∷ cs) = ⊥
  IsChain d m (b ∷ bs) [] = ⊥
  IsChain d m (b ∷ bs) (c ∷ cs) =
      (0 < b)
      × (b < m)
      × (read_at d 4096 (b * 4096) ≡ ok (chain_block (first bs) c))
      × IsChain d m bs cs

  first-lt :
      (d : Device) (m : ℕ) (bs : List ℕ) (cs : List (List ℕ))
      → 0 < m
      → IsChain d m bs cs
      → first bs < m
  first-lt d m [] [] z h = z
  first-lt d m [] (c ∷ cs) z h = absurd h
  first-lt d m (b ∷ bs) [] z h = absurd h
  first-lt d m (b ∷ bs) (c ∷ cs) z (pos, lt, r, h) = lt

  -- A write above the bound keeps the chain.
  IsChain-kept :
      (d d' : Device) (m : ℕ) (bs : List ℕ) (cs : List (List ℕ))
      → ((n : ℕ) → n ≢ m → read_at d' 4096 (n * 4096) ≡ read_at d 4096 (n * 4096))
      → IsChain d m bs cs
      → IsChain d' (m + 1) bs cs
  IsChain-kept d d' m [] [] k h = tt
  IsChain-kept d d' m [] (c ∷ cs) k h = absurd h
  IsChain-kept d d' m (b ∷ bs) [] k h = absurd h
  IsChain-kept d d' m (b ∷ bs) (c ∷ cs) k (pos, lt, r, h) =
      (pos, omega arith, k b (λ e. omega arith) ∙ r, IsChain-kept d d' m bs cs k h)

  -- What the loop over the chunks leaves behind: the new blocks, the last one first, continue the
  -- chain, and it begins at the head.
  abbrev pub Persisted :
      List ℕ → List ℕ → List ℕ → List (List ℕ) → BlockStore Device × ℕ × List ℕ → Type 0
  Persisted free before bs chunks_done (t, head, chain) =
      (added : List ℕ) × (chain ≡ before ++ added)
      × IsChain t.device t.next_block_nr (rev_onto added bs) chunks_done
      × (head ≡ first (rev_onto added bs))
      × IsCoherent dev t
      × (t.free_list ≡ free)
      × (t.next_block_nr < 2 ^ 64)
      × (0 < t.next_block_nr)

  write_data-counters :
      (s s' : BlockStore Device) (nr : ℕ) (bs : Bytes)
      → write_data dev s nr bs ≡ ok s'
      → (s'.next_block_nr ≡ s.next_block_nr) × (s'.free_list ≡ s.free_list)
  unfolding write_data
  write_data-counters s s' nr bs e =
      let (d, e1, e2) = bind-ok (dev.write_at s.device bs (nr * 4096)) _ s' e in
      subst (λ t. (t.next_block_nr ≡ s.next_block_nr) × (t.free_list ≡ s.free_list))
        (ok_inj _ s' e2) (refl, refl)

  pub persist_chunks_lem :
      (s : BlockStore Device) (head : ℕ) (before bs : List ℕ) (done cs : List (List ℕ))
      (r : BlockStore Device × ℕ × List ℕ)
      → IsCoherent dev s
      → 0 < s.next_block_nr
      → s.next_block_nr + length cs < 2 ^ 64
      → AllChunks cs
      → IsChain s.device s.next_block_nr bs done
      → head ≡ first bs
      → persist_chunks dev s head before cs ≡ ok r
      → Persisted s.free_list before bs (rev_onto cs done) r
  unfolding persist_chunks
  persist_chunks_lem s head before bs done [] r h pos room fits chain eq_head e =
      subst (λ t. Persisted s.free_list before bs done t) (ok_inj (s, head, before) r e)
        ([], sym (append-nil before), chain, eq_head, h, refl, omega arith, pos)
  persist_chunks_lem s head before bs done (c ∷ cs) r h pos room (short, small, fits) chain eq_head
        e =
      let nr = s.next_block_nr in
      let bumped : BlockStore Device = record s {
        next_block_nr = (s.next_block_nr + 1) % 2 ^ 64;
      } in
      let (s1, e1, e2) = bind-ok (write_data dev bumped nr (chain_block head c)) _ r e in
      let w =
        write_data_lem dev bumped s1 nr (chain_block head c) (length-chain_block head c short) h
          e1 in
      let (n1, f1) = write_data-counters bumped s1 nr (chain_block head c) e1 in
      let n2 : s1.next_block_nr ≡ nr + 1 = omega arith in
      let kept : IsChain s1.device s1.next_block_nr bs done =
        subst (λ i. IsChain s1.device i bs done) (sym n2)
          (IsChain-kept s.device s1.device nr bs done w.2 chain) in
      let here : read_at s1.device 4096 (nr * 4096) ≡ ok (chain_block (first bs) c) =
        w.1 ∙ ap (λ i. ok (chain_block i c)) eq_head in
      continued s nr before bs (rev_onto cs (c ∷ done)) s1.free_list f1 r (
        persist_chunks_lem s1 nr (before ++ nr ∷ []) (nr ∷ bs) (c ∷ done) cs r w.3 (omega arith)
          (omega arith) fits (pos, omega arith, here, kept) refl e2)
    where
      continued :
          (s : BlockStore Device) (nr : ℕ) (before bs : List ℕ) (all : List (List ℕ))
          (free : List ℕ)
          → free ≡ s.free_list
          → (r : BlockStore Device × ℕ × List ℕ)
          → Persisted free (before ++ nr ∷ []) (nr ∷ bs) all r
          → Persisted s.free_list before bs all r
      continued s nr before bs all free ef (t, hd, ch) (added, e1, e2, e3, e4, e5, e6, e7) =
          (nr ∷ added, e1 ∙ append_assoc before (nr ∷ []) added, e2, e3, e4, e5 ∙ ef, e6, e7)

  read_data_ok :
      (s : BlockStore Device) (nr : ℕ) (b : Bytes)
      → IsCoherent dev s
      → read_at s.device 4096 (nr * 4096) ≡ ok b
      → (s' : BlockStore Device) × (read_data dev s nr ≡ ok (b, s'))
  unfolding read_data
  read_data_ok s nr b h r = by (get s.data_cache nr) refl
    where
      by :
          (o : Option Bytes)
          → get s.data_cache nr ≡ o
          → (s' : BlockStore Device) × (read_data dev s nr ≡ ok (b, s'))
      by none p = (record s { data_cache = (nr, b) ∷ s.data_cache }, rw (p, read_data) (rw r refl))
      by (some c) p =
          let e : c ≡ b = ok_inj c b (sym (h nr c p) ∙ r) in
          (s, rw (p, read_data) (ap (λ x. ok (x, s)) e))

  -- The loop of the load reaches the end of a chain with one more round than it has blocks.
  pub load_from_lem :
      (fuel : ℕ) (s : BlockStore Device) (m : ℕ) (bs : List ℕ) (cs : List (List ℕ))
      → IsCoherent dev s
      → m < 2 ^ 64
      → 0 < m
      → AllChunks cs
      → IsChain s.device m bs cs
      → length bs < fuel
      → (s' : BlockStore Device) × (load_from dev fuel s (first bs) ≡ ok (s', concat cs, bs))
        × IsCoherent dev s'
  unfolding load_from
  load_from_lem zero s m bs cs h top pos fits chain enough = absurd (omega arith)
  load_from_lem (suc fuel) s m [] [] h top pos fits chain enough = (s, refl, h)
  load_from_lem (suc fuel) s m [] (c ∷ cs) h top pos fits chain enough = absurd chain
  load_from_lem (suc fuel) s m (b ∷ bs) [] h top pos fits chain enough = absurd chain
  load_from_lem (suc fuel) s m (zero ∷ bs) (c ∷ cs) h top pos fits (z, lt, r, chain) enough =
      absurd (omega arith)
  load_from_lem (suc fuel) s m (suc k ∷ bs) (c ∷ cs) h top pos (short, small, fits)
        (z, lt, r, chain) enough =
      let buf = chain_block (first bs) c in
      let (s1, e1) = read_data_ok s (suc k) buf h r in
      let (back, same, h1) = read_data_lem dev s s1 (suc k) buf h e1 in
      let chain1 = subst (λ d. IsChain d m bs cs) (sym same) chain in
      let (s2, e2, h2) = load_from_lem fuel s1 m bs cs h1 top pos fits chain1 (omega arith) in
      let fl = first-lt s.device m bs cs pos chain in
      let nx : next_of buf ≡ first bs = next_of-chain_block (first bs) c (omega arith) in
      let en : entries_of buf ≡ c = entries_of-chain_block (first bs) c short small in
      (s2, rw e1 (rw nx (rw e2 (ap (λ x. ok (s2, x ++ concat cs, suc k ∷ bs)) en))), h2)
