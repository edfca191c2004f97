-- ===== src/Device/Positions.antt =====
-- Byte strings position by position.
use mathlib.Core.Path.{ap₂}
use native.Mathlib.Nat.{sub-zero, zero-add, suc-add}
use rfs.Prelude.{
  ℕ, zero, suc, ◌+◌, ◌-◌, ◌≤◌, ◌<◌, ◌≡◌, refl, [], ◌∷◌, ◌++◌, arith, length, take, drop, replicate,
  get_or, ltb, if◌then◌else◌, ap, ◌∙◌,
}
use rfs.Bytes.{Bytes}

-- The byte at a position; past the end, 0.
abbrev pub byte_at : Bytes → ℕ → ℕ
byte_at bs i = get_or bs i 0

pub byte_at-append :
    (xs ys : Bytes) (i : ℕ)
    → byte_at (xs ++ ys) i
      ≡ (if ltb i (length xs) then byte_at xs i else byte_at ys (i - length xs))
byte_at-append [] ys i = ground (arith, ap (byte_at ys) (sub-zero i))
byte_at-append (x ∷ xs) ys zero = ground arith
byte_at-append (x ∷ xs) ys (suc i) = ground (arith, byte_at-append xs ys i)

pub byte_at-take : (n : ℕ) (xs : Bytes) (i : ℕ) → i < n → byte_at (take n xs) i ≡ byte_at xs i
byte_at-take zero xs i h = elim h [ ]
byte_at-take (suc n) [] i h = refl
byte_at-take (suc n) (x ∷ xs) zero h = refl
byte_at-take (suc n) (x ∷ xs) (suc i) h = byte_at-take n xs i (omega arith)

pub byte_at-drop : (n : ℕ) (xs : Bytes) (i : ℕ) → byte_at (drop n xs) i ≡ byte_at xs (n + i)
byte_at-drop zero xs i = rw zero-add
byte_at-drop (suc n) [] i = refl
byte_at-drop (suc n) (x ∷ xs) i = rw suc-add (byte_at-drop n xs i)

pub byte_at-drop_back :
    (n : ℕ) (xs : Bytes) (i : ℕ) → n ≤ i → byte_at (drop n xs) (i - n) ≡ byte_at xs i
byte_at-drop_back n xs i h =
    let e : n + (i - n) ≡ i = omega arith in byte_at-drop n xs (i - n) ∙ ap (byte_at xs) e

pub byte_at-zeros : (n i : ℕ) → byte_at (replicate n 0) i ≡ 0
byte_at-zeros zero i = refl
byte_at-zeros (suc n) zero = refl
byte_at-zeros (suc n) (suc i) = byte_at-zeros n i

pub byte_at-past : (xs : Bytes) (i : ℕ) → length xs ≤ i → byte_at xs i ≡ 0
byte_at-past [] i h = refl
byte_at-past (x ∷ xs) zero h = absurd (omega arith)
byte_at-past (x ∷ xs) (suc i) h = byte_at-past xs i (omega arith)

-- Byte strings of one length that agree at every position are equal.
pub ext_byte :
    (xs ys : Bytes)
    → length xs ≡ length ys
    → ((i : ℕ) → i < length xs → byte_at xs i ≡ byte_at ys i)
    → xs ≡ ys
ext_byte [] [] e h = refl
ext_byte [] (y ∷ ys) e h = absurd (omega arith)
ext_byte (x ∷ xs) [] e h = absurd (omega arith)
ext_byte (x ∷ xs) (y ∷ ys) e h =
    let tails = ext_byte xs ys (omega arith) (λ i k. h (suc i) (omega arith)) in
    ap₂ (λ b bs. b ∷ bs) (h 0 (omega arith)) tails
