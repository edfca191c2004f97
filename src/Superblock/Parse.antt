-- ===== src/Superblock/Parse.antt =====
-- A stamped superblock parses to itself, and what `parse` accepts is stamped.
use rfs.Prelude.{
  ℕ, [], ◌∷◌, ◌++◌, sym, replicate, append_assoc, ◌↔◌, ◌≡◌, refl, ap, ◌∙◌, some, arith, length,
  take, drop, length-append, take-length, drop-length,
}
use rfs.Prelude.Outcome.{ok}
use rfs.Bytes.{Bytes, to_le, of_le}
use rfs.Bytes.Codec.{length-to_le, of_le-to_le}
use rfs.Layout.{Fields, Fit, pack, pack-append, length-pack, unpack-pack, take_front, drop_front}
use rfs.Journal.Frame.{Crc32}
use rfs.Superblock.{
  Superblock, named, named_size, to_bytes, of_bytes, check, parse, stamp_checksum, compute_checksum,
  superblock_magic, superblock_version,
}

pub record IsSuperblock (sb : Superblock) : Type 0 where
  pub fit : Fit (named sb)
  pub size : length sb.reserved ≡ 4024

module _ (sb : Superblock) (h : IsSuperblock sb) where
  pub length-to_bytes : length (to_bytes sb) ≡ 4096
  unfolding to_bytes
  length-to_bytes =
      omega (arith, length-append (pack (named sb)) sb.reserved, length-pack (named sb), h.size)

  pub of_bytes-to_bytes : of_bytes (to_bytes sb) ≡ some sb
  unfolding of_bytes
  of_bytes-to_bytes =
      let l : length (pack (named sb)) ≡ named_size = length-pack (named sb) in
      let t : take named_size (to_bytes sb) ≡ pack (named sb) =
        unfold to_bytes in rw l at (take-length (pack (named sb)) sb.reserved) in
      let d : drop named_size (to_bytes sb) ≡ sb.reserved =
        unfold to_bytes in rw l at (drop-length (pack (named sb)) sb.reserved) in
      rw (length-to_bytes, t, d) (rw (unpack-pack (named sb) h.fit) refl)

abbrev past_version : Superblock → Fields
past_version sb =
    (8, sb.root_block)
    ∷ (8, sb.next_block_nr)
    ∷ (8, sb.next_bset_seq)
    ∷ (8, sb.next_ino)
    ∷ (8, sb.journal_seq)
    ∷ (4, sb.next_snap_id)
    ∷ (4, sb.next_subvol_id)
    ∷ (4, sb.current_subvol)
    ∷ (4, sb.checksum)
    ∷ (8, sb.free_head)
    ∷ []

module _ (crc : Crc32) (sb : Superblock) (h : IsSuperblock sb) where
  pub stamp-IsSuperblock : IsSuperblock (stamp_checksum crc sb)
  unfolding stamp_checksum
  stamp-IsSuperblock = record {
    fit = (
      h.fit.0,
      (
        h.fit.1.0,
        (
          h.fit.1.1.0,
          (
            h.fit.1.1.1.0,
            (
              h.fit.1.1.1.1.0,
              (
                h.fit.1.1.1.1.1.0,
                (
                  h.fit.1.1.1.1.1.1.0,
                  (
                    h.fit.1.1.1.1.1.1.1.0,
                    (
                      h.fit.1.1.1.1.1.1.1.1.0,
                      (h.fit.1.1.1.1.1.1.1.1.1.0, (crc.hash_lt _, h.fit.1.1.1.1.1.1.1.1.1.1.1)),
                    ),
                  ),
                ),
              ),
            ),
          ),
        ),
      ),
    );
    size = h.size;
  }

  -- The bytes of a stamped superblock with the right magic number and version parse to it.
  pub parse-stamp :
      sb.magic ≡ superblock_magic
      → sb.version ≡ superblock_version
      → parse crc (to_bytes (stamp_checksum crc sb)) ≡ ok (stamp_checksum crc sb)
  unfolding parse
  parse-stamp m v =
      rw (of_bytes-to_bytes (stamp_checksum crc sb) stamp-IsSuperblock, parse)
        (unfold stamp_checksum in ground arith)

module _ (sb : Superblock) (h : IsSuperblock sb) where
  -- The fields before the checksum, and the bytes behind it.
  abbrev before : Fields
  before =
      (4, sb.magic)
      ∷ (4, sb.version)
      ∷ (8, sb.root_block)
      ∷ (8, sb.next_block_nr)
      ∷ (8, sb.next_bset_seq)
      ∷ (8, sb.next_ino)
      ∷ (8, sb.journal_seq)
      ∷ (4, sb.next_snap_id)
      ∷ (4, sb.next_subvol_id)
      ∷ (4, sb.current_subvol)
      ∷ []

  abbrev behind : Bytes
  behind = pack ((8, sb.free_head) ∷ []) ++ sb.reserved

  image_with :
      (c : ℕ) → to_bytes (record sb { checksum = c }) ≡ pack before ++ (to_le 4 c ++ behind)
  unfolding to_bytes pack
  image_with c =
      let tail = (4, c) ∷ (8, sb.free_head) ∷ [] in
      ap (λ x. x ++ sb.reserved) (pack-append before tail)
      ∙ append_assoc (pack before) (pack tail) sb.reserved
      ∙ ap (λ x. pack before ++ x)
          (append_assoc (to_le 4 c) (pack ((8, sb.free_head) ∷ [])) sb.reserved)

  image : to_bytes sb ≡ pack before ++ (to_le 4 sb.checksum ++ behind)
  image = image_with sb.checksum

  before_size : length (pack before) ≡ 60
  before_size = length-pack before

  front_bytes : take 60 (to_bytes sb) ≡ pack before
  front_bytes =
      ap (λ x. take 60 x) image
      ∙ take_front 60 (pack before) (to_le 4 sb.checksum ++ behind) before_size

  from_checksum : drop 60 (to_bytes sb) ≡ to_le 4 sb.checksum ++ behind
  from_checksum =
      ap (λ x. drop 60 x) image
      ∙ drop_front 60 (pack before) (to_le 4 sb.checksum ++ behind) before_size

  back_bytes : drop 64 (to_bytes sb) ≡ behind
  back_bytes =
      let c = to_le 4 sb.checksum in
      ap (λ x. drop 64 x) (image ∙ sym (append_assoc (pack before) c behind))
      ∙ drop_front 64 (pack before ++ c) behind
          (omega (arith, length-append (pack before) c, before_size, length-to_le 4 sb.checksum))

  -- The image without its checksum: the four bytes from the 60th on are zeros.
  pub zeroed :
      to_bytes (record sb { checksum = 0 })
      ≡ take 60 (to_bytes sb) ++ (replicate 4 0 ++ drop 64 (to_bytes sb))
  unfolding to_le
  zeroed = image_with 0 ∙ sym (rw (front_bytes, back_bytes) refl)

  pub checksum_bytes : of_le (take 4 (drop 60 (to_bytes sb))) ≡ sb.checksum
  checksum_bytes =
      ap (λ x. of_le (take 4 x)) from_checksum
      ∙ ap of_le (take_front 4 (to_le 4 sb.checksum) behind (length-to_le 4 sb.checksum))
      ∙ of_le-to_le 4 sb.checksum h.fit.1.1.1.1.1.1.1.1.1.1.0

  abbrev past_magic : Fields
  past_magic = (4, sb.version) ∷ past_version sb

  magic_image :
      to_bytes sb
      ≡ to_le 4 sb.magic ++ (to_le 4 sb.version ++ (pack (past_version sb) ++ sb.reserved))
  unfolding to_bytes pack
  magic_image =
      append_assoc (to_le 4 sb.magic) (pack past_magic) sb.reserved
      ∙ ap (λ x. to_le 4 sb.magic ++ x)
          (append_assoc (to_le 4 sb.version) (pack (past_version sb)) sb.reserved)

  pub magic_bytes : of_le (take 4 (to_bytes sb)) ≡ sb.magic
  magic_bytes =
      ap (λ x. of_le (take 4 x)) magic_image
      ∙ ap of_le (take_front 4 (to_le 4 sb.magic) _ (length-to_le 4 sb.magic))
      ∙ of_le-to_le 4 sb.magic h.fit.0

  pub version_bytes : of_le (take 4 (drop 4 (to_bytes sb))) ≡ sb.version
  version_bytes =
      ap (λ x. of_le (take 4 (drop 4 x))) magic_image
      ∙ ap (λ x. of_le (take 4 x)) (drop_front 4 (to_le 4 sb.magic) _ (length-to_le 4 sb.magic))
      ∙ ap of_le (take_front 4 (to_le 4 sb.version) _ (length-to_le 4 sb.version))
      ∙ of_le-to_le 4 sb.version h.fit.1.0

accepted :
    (crc : Crc32) (sb : Superblock)
    → IsSuperblock sb
    → parse crc (to_bytes sb) ≡ ok sb
    → (sb.magic ≡ superblock_magic)
      × (sb.version ≡ superblock_version)
      × (sb.checksum ≡ compute_checksum crc sb)
unfolding parse check
accepted crc sb h e =
    let c : check crc sb ≡ ok sb = rw (of_bytes-to_bytes sb h, parse) at e in ground arith

-- Parse returns a superblock, with fields in range, from its image exactly if the image has the
-- magic number in its bytes 0 to 3, the version in its bytes 4 to 7, and in its bytes 60 to 63 the
-- checksum of the image with those four bytes set to zero.
pub parse_iff :
    (crc : Crc32) (sb : Superblock)
    → IsSuperblock sb
    → (parse crc (to_bytes sb) ≡ ok sb) ↔ (
        (of_le (take 4 (to_bytes sb)) ≡ 0x52465342)
        × (of_le (take 4 (drop 4 (to_bytes sb))) ≡ 4)
        × (of_le (take 4 (drop 60 (to_bytes sb)))
            ≡ crc.hash (take 60 (to_bytes sb) ++ (replicate 4 0 ++ drop 64 (to_bytes sb)))))
unfolding parse check compute_checksum
parse_iff crc sb h =
    let z = ap crc.hash (zeroed sb h) in
    (
      λ e.
          (let a = accepted crc sb h e in
            (magic_bytes sb h ∙ a.0, version_bytes sb h ∙ a.1, checksum_bytes sb h ∙ a.2 ∙ z)),
      λ w.
          (let m = sym (magic_bytes sb h) ∙ w.0 in
            let v = sym (version_bytes sb h) ∙ w.1 in
            let c = sym (checksum_bytes sb h) ∙ w.2 ∙ sym z in
            rw (of_bytes-to_bytes sb h, parse) (ground arith)),
    )
