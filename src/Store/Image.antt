-- ===== src/Store/Image.antt =====
-- storage.rs: what is written to a block through the node lane or as the superblock is read back
-- and passes the verification.
use rfs.Prelude.{
  ℕ, ◌*◌, ◌^◌, ◌<◌, ◌≡◌, refl, sym, ap, ◌∙◌, subst, false, some, List, ◌∷◌, ◌++◌, arith, length,
  take, drop, length-append, append_assoc,
}
use rfs.Prelude.Outcome.{ok, ◌>>=◌, bind-ok, ok_inj}
use rfs.Bytes.{Bytes, to_le, of_le}
use rfs.Bytes.Codec.{length-to_le, of_le-to_le}
use rfs.Layout.{take_front, drop_front}
use rfs.Device.{BlockDevice}
use rfs.Journal.Frame.{Crc32}
use rfs.Superblock.{Superblock, stamp_checksum, superblock_magic, superblock_version, to_bytes}
use rfs.Superblock.Parse.{IsSuperblock, stamp-IsSuperblock, parse-stamp, length-to_bytes}
use rfs.Store.{
  BlockStore, CachedNode, get, BtreeNodeRaw, node_to_bytes, node_of_bytes, stamp_node,
  verify_node_in_place, fault_in, with_node, with_cached_node, write_node, write_superblock,
  read_superblock, magic_number, block_size,
}

-- A node's block has its size, and the numbers are in range.
pub record IsNode (n : BtreeNodeRaw) : Type 0 where
  pub magic_lt : n.magic < 256 ^ 4
  pub checksum_lt : n.checksum < 256 ^ 8
  pub fields_size : length n.fields ≡ 20
  pub rest_size : length n.rest ≡ 4064

module _ (n : BtreeNodeRaw) (h : IsNode n) where
  pub length-node : length (node_to_bytes n) ≡ 4096
  unfolding node_to_bytes
  length-node = omega (
    arith,
    h.fields_size,
    h.rest_size,
    length-to_le 4 n.magic,
    length-to_le 8 n.checksum,
    length-append (to_le 4 n.magic) (n.fields ++ (to_le 8 n.checksum ++ n.rest)),
    length-append n.fields (to_le 8 n.checksum ++ n.rest),
    length-append (to_le 8 n.checksum) n.rest,
  )

  -- A node reads back from its block.
  pub node_of-node_to : node_of_bytes (node_to_bytes n) ≡ n
  unfolding node_of_bytes node_to_bytes
  node_of-node_to =
      let a = to_le 4 n.magic in
      let c = to_le 8 n.checksum in
      let la = length-to_le 4 n.magic in
      let lc = length-to_le 8 n.checksum in
      let tail = n.fields ++ (c ++ n.rest) in
      let lf : length (a ++ n.fields) ≡ 24 =
        omega (arith, length-append a n.fields, h.fields_size) in
      let lh : length ((a ++ n.fields) ++ c) ≡ 32 =
        omega (arith, length-append (a ++ n.fields) c) in
      let d24 : drop 24 (a ++ tail) ≡ c ++ n.rest =
        ap (λ x. drop 24 x) (sym (append_assoc a n.fields (c ++ n.rest)))
        ∙ drop_front 24 (a ++ n.fields) (c ++ n.rest) lf in
      let d32 : drop 32 (a ++ tail) ≡ n.rest =
        ap (λ x. drop 32 x)
          (sym (append_assoc a n.fields (c ++ n.rest))
            ∙ sym (append_assoc (a ++ n.fields) c n.rest))
        ∙ drop_front 32 ((a ++ n.fields) ++ c) n.rest lh in
      let magic_back = ap of_le (take_front 4 a tail la) ∙ of_le-to_le 4 n.magic h.magic_lt in
      let fields_back =
        ap (λ x. take 20 x) (drop_front 4 a tail la)
        ∙ take_front 20 n.fields (c ++ n.rest) h.fields_size in
      let checksum_back =
        ap (λ x. of_le (take 8 x)) d24
        ∙ ap of_le (take_front 8 c n.rest lc)
        ∙ of_le-to_le 8 n.checksum h.checksum_lt in
      raw_eq magic_back fields_back checksum_back d32
    where
      raw_eq :
          {m m' k k' : ℕ} {f f' r r' : Bytes}
          → m ≡ m'
          → f ≡ f'
          → k ≡ k'
          → r ≡ r'
          → ◌≡◌ {A = BtreeNodeRaw}
              (record { magic = m; fields = f; checksum = k; rest = r })
              (record { magic = m'; fields = f'; checksum = k'; rest = r' })
      raw_eq e1 e2 e3 e4 = rw (e1, e2, e3, e4) refl

pub front : {A : Type 0} (nr : ℕ) (a : A) (m : List (ℕ × A)) → get ((nr, a) ∷ m) nr ≡ some a
front nr a m = ground arith

module _ (crc : Crc32) (n : BtreeNodeRaw) where
  stamp-IsNode : IsNode n → IsNode (stamp_node crc n)
  unfolding stamp_node
  stamp-IsNode h =
      let small = crc.hash_lt (node_to_bytes (record n { checksum = 0 })) in
      record {
        magic_lt = h.magic_lt;
        checksum_lt = omega arith;
        fields_size = h.fields_size;
        rest_size = h.rest_size;
      }

  -- A stamped node passes the verification.
  verify-stamp :
      (nr : ℕ) → n.magic ≡ magic_number → verify_node_in_place crc nr (stamp_node crc n) ≡ ok tt
  unfolding verify_node_in_place stamp_node
  verify-stamp nr m = ground arith

module _ (crc : Crc32) (dev : BlockDevice) where
  open dev use {Device, read_at, write_at, read-write_self}

  faulted :
      (d : Device) (nr : ℕ) (x : BtreeNodeRaw)
      → read_at d 4096 (nr * 4096) ≡ ok (node_to_bytes x)
      → node_of_bytes (node_to_bytes x) ≡ x
      → verify_node_in_place crc nr x ≡ ok tt
      → fault_in crc dev d nr ≡ ok x
  unfolding fault_in
  faulted d nr x r b v =
      rw r (subst (λ y. (verify_node_in_place crc nr y >>= λ t. ok y) ≡ ok x) (sym b) (rw v refl))

  cached :
      (t : BlockStore Device) (nr : ℕ) (c : CachedNode)
      → get t.node_cache nr ≡ some c
      → with_node crc dev t nr (λ y. y) ≡ ok (c.node, t)
  unfolding with_node
  cached t nr c e = rw (e, with_node) refl

  in_cache :
      (t : BlockStore Device) (nr : ℕ) (c : CachedNode)
      → get t.node_cache nr ≡ some c
      → with_cached_node crc dev t nr (λ x dirty. dirty) ≡ some c.dirty
  unfolding with_cached_node
  in_cache t nr c e = rw (e, with_cached_node) refl

  -- Where a well-formed node with the magic number is written with success, a fault from the
  -- device returns it with its checksum, verified, a read through the cache returns the same, and
  -- the cache has it as clean.
  pub write_node_lem :
      (s s' : BlockStore Device) (nr : ℕ) (n : BtreeNodeRaw)
      → IsNode n
      → n.magic ≡ magic_number
      → write_node crc dev s nr n ≡ ok s'
      → (fault_in crc dev s'.device nr ≡ ok (stamp_node crc n))
        × (with_node crc dev s' nr (λ x. x) ≡ ok (stamp_node crc n, s'))
        × (with_cached_node crc dev s' nr (λ x dirty. dirty) ≡ some false)
  unfolding write_node
  write_node_lem s s' nr n h m e =
      let x = stamp_node crc n in
      let (d, e1, e2) = bind-ok (write_at s.device (node_to_bytes x) (nr * block_size)) _ s' e in
      let hx = stamp-IsNode crc n h in
      let back =
        rw (length-node x hx) at
          (read-write_self s.device (node_to_bytes x) (nr * block_size) e1) in
      subst
        (λ t.
          (fault_in crc dev t.device nr ≡ ok (stamp_node crc n))
          × (with_node crc dev t nr (λ y. y) ≡ ok (stamp_node crc n, t))
          × (with_cached_node crc dev t nr (λ x dirty. dirty) ≡ some false))
        (ok_inj _ s' e2)
        (
          faulted d nr x back (node_of-node_to x hx) (verify-stamp crc n nr m),
          cached _ nr (record { node = stamp_node crc n; dirty = false }) (front nr _ s.node_cache),
          in_cache _ nr (record { node = stamp_node crc n; dirty = false })
              (front nr _ s.node_cache),
        )

  -- A superblock with the magic number and the version that is written is read back with its
  -- checksum.
  pub read-write_superblock :
      (s s' : BlockStore Device) (sb : Superblock)
      → IsSuperblock sb
      → sb.magic ≡ superblock_magic
      → sb.version ≡ superblock_version
      → write_superblock crc dev s sb ≡ ok s'
      → read_superblock crc dev s' ≡ ok (stamp_checksum crc sb)
  unfolding write_superblock read_superblock
  read-write_superblock s s' sb h m v e =
      let (d, e1, e2) = bind-ok (write_at s.device (to_bytes (stamp_checksum crc sb)) 0) _ s' e in
      let back =
        rw (length-to_bytes (stamp_checksum crc sb) (stamp-IsSuperblock crc sb h)) at
          (read-write_self s.device (to_bytes (stamp_checksum crc sb)) 0 e1) in
      subst (λ x. read_superblock crc dev x ≡ ok (stamp_checksum crc sb))
        (ok_inj (record s { device = d }) s' e2) (rw (back, ◌>>=◌) (parse-stamp crc sb h m v))
