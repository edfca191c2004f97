-- ===== src/Store/Coherent.antt =====
-- storage.rs: the cache of data blocks holds what is on the device, so a read returns what was
-- last written to its block.
use rfs.Prelude.{
  ℕ, ◌+◌, ◌*◌, ◌≤◌, ◌≡◌, ◌≢◌, ◌⊎◌, refl, subst, none, some, Option, List, [], ◌∷◌, arith, length,
}
use rfs.Prelude.Outcome.{ok, bind-ok, ok_inj}
use rfs.Bytes.{Bytes}
use rfs.Device.{BlockDevice}
use rfs.Store.{BlockStore, get, remove, read_data, write_data, free, block_size}

get-remove_self : {A : Type 0} (m : List (ℕ × A)) (nr : ℕ) → get (remove m nr) nr ≡ none
get-remove_self [] nr = refl
get-remove_self ((k, a) ∷ m) nr = ground (arith, get-remove_self m nr)

pub get-remove_apart :
    {A : Type 0} (m : List (ℕ × A)) (nr n : ℕ) → n ≢ nr → get (remove m nr) n ≡ get m n
get-remove_apart [] nr n h = refl
get-remove_apart ((k, a) ∷ m) nr n h = ground (arith, get-remove_apart m nr n h)

module _ (dev : BlockDevice) where
  open dev use {Device, read_at, write_at, read-write_self, read-write_apart}

  -- Each cached data block is what the device holds there.
  abbrev pub IsCoherent : BlockStore Device → Type 0
  IsCoherent s =
      (nr : ℕ) (b : Bytes) → get s.data_cache nr ≡ some b → read_at s.device 4096 (nr * 4096) ≡ ok b

  -- A read of a coherent store returns the block on the device, and the store stays coherent.
  pub read_data_lem :
      (s s' : BlockStore Device) (nr : ℕ) (b : Bytes)
      → IsCoherent s
      → read_data dev s nr ≡ ok (b, s')
      → (read_at s.device 4096 (nr * 4096) ≡ ok b) × (s'.device ≡ s.device) × IsCoherent s'
  unfolding read_data
  read_data_lem s s' nr b h e = by (get s.data_cache nr) refl
    where
      Good : Bytes → BlockStore Device → Type 0
      Good c t = (read_at s.device 4096 (nr * 4096) ≡ ok c) × (t.device ≡ s.device) × IsCoherent t

      found : (p : Bytes × BlockStore Device) → p ≡ (b, s') → Good p.0 p.1 → Good b s'
      found p q g = subst (λ x. Good x.0 x.1) q g

      fetched :
          (c : Bytes)
          → read_at s.device 4096 (nr * 4096) ≡ ok c
          → IsCoherent (record s { data_cache = (nr, c) ∷ s.data_cache })
      fetched c r n x q = ground (arith, r, h n x)

      by : (o : Option Bytes) → get s.data_cache nr ≡ o → Good b s'
      by (some c) p = found (c, s) (ok_inj _ _ (rw (p, read_data) at e)) (h nr c p, refl, h)
      by none p =
          let (c, e1, e2) =
            bind-ok (read_at s.device 4096 (nr * 4096)) _ (b, s') (rw (p, read_data) at e) in
          found (c, record s { data_cache = (nr, c) ∷ s.data_cache }) (ok_inj _ _ e2)
            (e1, refl, fetched c e1)

  -- A block of 4096 bytes that is written is read back, reads of other blocks find on the device
  -- what they found, and the store stays coherent.
  pub write_data_lem :
      (s s' : BlockStore Device) (nr : ℕ) (bs : Bytes)
      → length bs ≡ 4096
      → IsCoherent s
      → write_data dev s nr bs ≡ ok s'
      → (read_data dev s' nr ≡ ok (bs, s'))
        × (read_at s'.device 4096 (nr * 4096) ≡ ok bs)
        × ((n : ℕ) → n ≢ nr → read_at s'.device 4096 (n * 4096) ≡ read_at s.device 4096 (n * 4096))
        × IsCoherent s'
  unfolding write_data read_data
  write_data_lem s s' nr bs size h e =
      let (d, e1, e2) = bind-ok (write_at s.device bs (nr * block_size)) _ s' e in
      let back = rw size at (read-write_self s.device bs (nr * 4096) e1) in
      let others : (n : ℕ) → n ≢ nr → read_at d 4096 (n * 4096) ≡ read_at s.device 4096 (n * 4096) =
        λ n ne.
          read-write_apart s.device bs (nr * 4096) 4096 (n * 4096) e1
            (apart n nr (length bs) size ne) in
      subst
        (λ t.
          (read_data dev t nr ≡ ok (bs, t))
          × (read_at t.device 4096 (nr * 4096) ≡ ok bs)
          × ((n : ℕ) → n ≢ nr → read_at t.device 4096 (n * 4096) ≡ read_at s.device 4096 (n * 4096))
          × IsCoherent t)
        (ok_inj _ s' e2) (cached _ nr bs (ground arith), back, others, coherent d back others)
    where
      apart :
          (n m l : ℕ) → l ≡ 4096 → n ≢ m → (n * 4096 + 4096 ≤ m * 4096) ⊎ (m * 4096 + l ≤ n * 4096)
      apart n m l e ne = grind arith

      cached :
          (t : BlockStore Device) (n : ℕ) (b : Bytes)
          → get t.data_cache n ≡ some b
          → read_data dev t n ≡ ok (b, t)
      cached t n b q = rw (q, read_data) refl

      coherent :
          (d : Device)
          → read_at d 4096 (nr * 4096) ≡ ok bs
          → ((n : ℕ) → n ≢ nr → read_at d 4096 (n * 4096) ≡ read_at s.device 4096 (n * 4096))
          → IsCoherent (record s { device = d; data_cache = (nr, bs) ∷ s.data_cache })
      coherent d back others n b q = ground (arith, back, others n, h n b)

  -- A freed block is in no cache, and the store stays coherent.
  free-IsCoherent :
      (s : BlockStore Device) (nr : ℕ)
      → IsCoherent s
      → IsCoherent (free s nr)
        × (get (free s nr).data_cache nr ≡ none)
        × (get (free s nr).node_cache nr ≡ none)
  unfolding free
  free-IsCoherent s nr h = (kept, get-remove_self s.data_cache nr, get-remove_self s.node_cache nr)
    where
      kept :
          (n : ℕ) (b : Bytes)
          → get (remove s.data_cache nr) n ≡ some b
          → read_at s.device 4096 (n * 4096) ≡ ok b
      kept n b q =
          ground (arith, h n b, get-remove_self s.data_cache nr, get-remove_apart s.data_cache nr n)
