-- ===== src/Bytes/Codec.antt =====
-- Encoded integers read back, and the big-endian form keeps the order of the numbers.
use native.Mathlib.Nat.{mod-lt, mod-add-div, div-lt_iff_lt-mul, pow-suc, one-le-pow, mul_comm}
use mathlib.Core.Path.{ap₂}
use rfs.Prelude.{
  ℕ, zero, suc, ◌+◌, ◌*◌, ◌/◌, ◌%◌, ◌^◌, ◌≤◌, ◌<◌, compare, ◌≡◌, refl, ap, arith, length, ◌∙◌, sym,
}
use rfs.Bytes.{compare_bytes, then_cmp, to_le, to_be, of_le, of_be}

pub pow_pos : (w : ℕ) → 0 < 256 ^ w
pow_pos w = one-le-pow w 256 (omega arith)

pow_step : (w : ℕ) → 256 ^ suc w ≡ 256 * 256 ^ w
pow_step w = pow-suc 256 w ∙ mul_comm (256 ^ w) 256

pub length-to_le : (w v : ℕ) → length (to_le w v) ≡ w
unfolding to_le
length-to_le zero v = refl
length-to_le (suc w) v = ap suc (length-to_le w (v / 256))

pub length-to_be : (w v : ℕ) → length (to_be w v) ≡ w
unfolding to_be
length-to_be zero v = refl
length-to_be (suc w) v = ap suc (length-to_be w (v % 256 ^ w))

pub of_le-to_le : (w v : ℕ) → v < 256 ^ w → of_le (to_le w v) ≡ v
unfolding to_le of_le
of_le-to_le zero v h = omega arith
of_le-to_le (suc w) v h =
    let e = pow_step w in let ih = of_le-to_le w (v / 256) (omega arith) in omega arith

-- The leading digit and the rest of a number below `256 ^ (w + 1)`.
head-lt : (w v : ℕ) → v < 256 ^ suc w → v / 256 ^ w < 256
head-lt w v h = (div-lt_iff_lt-mul (pow_pos w)).1 (let e = pow_step w in omega arith)

pub of_be-to_be : (w v : ℕ) → v < 256 ^ w → of_be (to_be w v) ≡ v
unfolding to_be of_be
of_be-to_be zero v h = omega arith
of_be-to_be (suc w) v h =
    let low = mod-lt v (pow_pos w) in
    let ih = of_be-to_be w (v % 256 ^ w) low in
    let l = length-to_be w (v % 256 ^ w) in
    let q = head-lt w v h in
    let d = mod-add-div v (256 ^ w) in
    rw (l, ih) (let m : v / 256 ^ w % 256 ≡ v / 256 ^ w = omega arith in rw m (omega arith))

mul_step : (p q q' : ℕ) → q < q' → p * q + p ≤ p * q'
mul_step p q q' h = grind arith

digit_compare :
    (p q q' r r' : ℕ)
    → r < p
    → r' < p
    → compare (r + p * q) (r' + p * q') ≡ then_cmp (compare q q') (compare r r')
digit_compare p q q' r r' h h' = ground (arith, mul_step p q q', mul_step p q' q)

pub compare-to_be :
    (w u v : ℕ) → u < 256 ^ w → v < 256 ^ w → compare_bytes (to_be w u) (to_be w v) ≡ compare u v
unfolding to_be compare_bytes
compare-to_be zero u v h k = ground arith
compare-to_be (suc w) u v h k =
    let p = pow_pos w in
    let ih = compare-to_be w (u % 256 ^ w) (v % 256 ^ w) (mod-lt u p) (mod-lt v p) in
    let hu = head-lt w u h in
    let hv = head-lt w v k in
    let eu : u / 256 ^ w % 256 ≡ u / 256 ^ w = omega arith in
    let ev : v / 256 ^ w % 256 ≡ v / 256 ^ w = omega arith in
    let d =
      digit_compare (256 ^ w) (u / 256 ^ w) (v / 256 ^ w) (u % 256 ^ w) (v % 256 ^ w) (mod-lt u p)
        (mod-lt v p) in
    rw (eu, ev, ih) (sym d ∙ ap₂ compare (mod-add-div u (256 ^ w)) (mod-add-div v (256 ^ w)))
