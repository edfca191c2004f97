-- ===== src/Layout.antt =====
-- The byte images of `#[repr(C)]` structs of unsigned integers: the fields in order, each in its
-- width, least significant byte first (`zerocopy`'s `as_bytes` and `read_from_bytes` on the
-- little-endian targets that the program runs on). Padding is written as a field of its own.
use mathlib.Core.Option
use rfs.Prelude.{
  ℕ, ◌+◌, ◌^◌, ◌<◌, ◌≡◌, refl, List, [], ◌∷◌, ◌++◌, Option, none, some, arith, length, take, drop,
  ltb, false, if◌then◌else◌, take-length, drop-length, length-append, subst, ap, ◌∙◌, sym,
  append_assoc,
}
use rfs.Bytes.{Bytes, to_le, of_le}
use rfs.Bytes.Codec.{length-to_le, of_le-to_le}

-- The fields of a struct: the width in bytes, and the value.
abbrev pub Fields : Type 0
Fields = List (ℕ × ℕ)

abbrev pub widths : Fields → List ℕ
widths [] = []
widths ((w, v) ∷ r) = w ∷ widths r

abbrev pub values : Fields → List ℕ
values [] = []
values ((w, v) ∷ r) = v ∷ values r

abbrev pub size : List ℕ → ℕ
size [] = 0
size (w ∷ ws) = w + size ws

-- Every value is in the range of its field's type.
abbrev pub Fit : Fields → Type 0
Fit [] = Unit
Fit ((w, v) ∷ r) = (v < 256 ^ w) × Fit r

unfoldable pub pack : Fields → Bytes
pack [] = []
pack ((w, v) ∷ r) = to_le w v ++ pack r

-- `none` where the size is not that of the struct.
unfoldable pub unpack : List ℕ → Bytes → Option (List ℕ)
unpack [] [] = some []
unpack [] (b ∷ bs) = none
unpack (w ∷ ws) bs =
    let rest = unpack ws (drop w bs) in
    if ltb (length bs) w then none else Option.map (λ vs. of_le (take w bs) ∷ vs) rest

-- The parts of a byte string whose front has a given length.
pub take_front : (k : ℕ) (a b : Bytes) → length a ≡ k → take k (a ++ b) ≡ a
take_front k a b h = subst (λ i. take i (a ++ b) ≡ a) h (take-length a b)

pub drop_front : (k : ℕ) (a b : Bytes) → length a ≡ k → drop k (a ++ b) ≡ b
drop_front k a b h = subst (λ i. drop i (a ++ b) ≡ b) h (drop-length a b)

pub pack-append : (fs gs : Fields) → pack (fs ++ gs) ≡ pack fs ++ pack gs
unfolding pack
pack-append [] gs = refl
pack-append ((w, v) ∷ fs) gs =
    ap (λ r. to_le w v ++ r) (pack-append fs gs)
    ∙ sym (append_assoc (to_le w v) (pack fs) (pack gs))

pub length-pack : (fs : Fields) → length (pack fs) ≡ size (widths fs)
unfolding pack
length-pack [] = refl
length-pack ((w, v) ∷ r) =
    omega (arith, length-append (to_le w v) (pack r), length-to_le w v, length-pack r)

take-to_le : (w v : ℕ) (r : Bytes) → take w (to_le w v ++ r) ≡ to_le w v
take-to_le w v r = rw (length-to_le w v) at (take-length (to_le w v) r)

drop-to_le : (w v : ℕ) (r : Bytes) → drop w (to_le w v ++ r) ≡ r
drop-to_le w v r = rw (length-to_le w v) at (drop-length (to_le w v) r)

-- A struct whose fields are in range reads back.
pub unpack-pack : (fs : Fields) → Fit fs → unpack (widths fs) (pack fs) ≡ some (values fs)
unfolding pack unpack
unpack-pack [] h = refl
unpack-pack ((w, v) ∷ r) (hv, hr) =
    let l = length-append (to_le w v) (pack r) in
    let k = length-to_le w v in
    let long : ltb (length (to_le w v ++ pack r)) w ≡ false = ground arith in
    rw
      (long, take-to_le w v (pack r), drop-to_le w v (pack r), unpack-pack r hr, of_le-to_le w v hv)
