-- ===== src/Btree/Slots.antt =====
-- The slots of an internal node with separators that fit their buffers, and what becomes of them when
-- a child is replaced or splits.
pub mod Copies
pub mod Focus
use rfs.Prelude.{
  ℕ, zero, suc, ◌+◌, ◌-◌, ◌^◌, ◌≤◌, ◌<◌, ◌≡◌, refl, ap, ◌∙◌, sym, true, Option, none, some, List,
  [], ◌∷◌, ◌++◌, arith, length, take, drop, min, leb, append_assoc, take-length, take_all,
}
use rfs.Prelude.Outcome.{ok, ◌>>=◌}
use rfs.Bytes.{Bytes, to_le, ◌≺◌}
use rfs.Bytes.Codec.{length-to_le, of_le-to_le}
use rfs.Entry.{DiskEntry, empty, key_bytes, child, set_key, set_child, filled, max_key_size}
use rfs.Btree.Split.{slot, last_slot, copy_slots, place_split}
use rfs.Btree.Bounds.{OverLo, UnderHi, OverLo-trans, UnderHi-trans}
use rfs.Btree.Shape.{Branches, gather}

-- A key that `set_key` takes whole.
abbrev pub Fits : Bytes → Type 0
Fits k = (4 ≤ length k) × (length k ≤ 32)

pub set_key_lem :
    (k : Bytes) → Fits k → (e : DiskEntry) × (set_key empty k ≡ ok e) × (key_bytes e ≡ k)
unfolding set_key key_bytes filled
set_key_lem k (long, short) =
    let m : min (length k) 32 ≡ length k = omega arith in
    let t : take (length k) k ≡ k = take_all (length k) k (omega arith) in
    let l : leb 4 (length k) ≡ true = ground arith in
    let n : length k - 4 + 4 ≡ length k = omega arith in
    (
      record empty { key = filled max_key_size k; key_len = length k - 4 },
      rw (l, m, t) refl,
      rw n (take-length k _),
    )

pub child-set_child : (e : DiskEntry) (c : ℕ) → c < 2 ^ 64 → child (set_child e c) ≡ c
unfolding child set_child
child-set_child e c h =
    let t : take 8 (to_le 8 c ++ drop 8 e.payload) ≡ to_le 8 c =
      rw (length-to_le 8 c) at (take-length (to_le 8 c) (drop 8 e.payload)) in
    rw t (of_le-to_le 8 c h)

pub key_bytes-set_child : (e : DiskEntry) (c : ℕ) → key_bytes (set_child e c) ≡ key_bytes e
unfolding key_bytes set_child
key_bytes-set_child e c = refl

pub slot_lem :
    (k : Bytes) (c : ℕ)
    → Fits k
    → c < 2 ^ 64
    → (e : DiskEntry) × (slot k c ≡ ok e) × (key_bytes e ≡ k) × (child e ≡ c)
unfolding slot
slot_lem k c f h =
    let (e, done, key) = set_key_lem k f in
    (set_child e c, rw done refl, key_bytes-set_child e c ∙ key, child-set_child e c h)

-- The slots of a node, as `Branches` has them, with separators that fit.
abbrev pub Rows :
    (Option Bytes → Option Bytes → ℕ → Type 0)
    → Option Bytes
    → Option Bytes
    → List DiskEntry
    → Type 0
Rows P lo hi [] = ⊥
Rows P lo hi (e ∷ []) = P lo hi (child e)
Rows P lo hi (e ∷ f ∷ es) =
    Fits (key_bytes e)
    × OverLo lo (key_bytes e)
    × UnderHi hi (key_bytes e)
    × P lo (some (key_bytes e)) (child e)
    × Rows P (some (key_bytes e)) hi (f ∷ es)

-- The bounds of the child behind some slots, and of one before some.
abbrev pub low : Option Bytes → List DiskEntry → Option Bytes
low lo [] = lo
low lo (e ∷ es) = low (some (key_bytes e)) es

abbrev pub high : Option Bytes → DiskEntry → List DiskEntry → Option Bytes
high hi slot [] = hi
high hi slot (e ∷ es) = some (key_bytes slot)

module _ (P P' : Option Bytes → Option Bytes → ℕ → Type 0) (f f' : ℕ → List DiskEntry)
    (keep : (lo hi : Option Bytes) (c : ℕ) → P lo hi c → P' lo hi c × (f' c ≡ f c)) where
  -- The same slots, where the children are as before.
  pub Rows-kept :
      (lo hi : Option Bytes) (es : List DiskEntry)
      → Rows P lo hi es
      → Rows P' lo hi es × (gather f' es ≡ gather f es)
  Rows-kept lo hi [] b = absurd b
  Rows-kept lo hi (e ∷ []) b = let g = keep lo hi (child e) b in (g.0, ap (λ r. r ++ []) g.1)
  Rows-kept lo hi (e ∷ x ∷ es) (t, o, u, p, b) =
      let g = keep lo (some (key_bytes e)) (child e) p in
      let r = Rows-kept (some (key_bytes e)) hi (x ∷ es) b in
      ((t, o, u, g.0, r.0), rw (g.1, r.1) refl)

  -- A child is replaced by one with its range.
  pub replaced :
      (pre post : List DiskEntry) (lo hi : Option Bytes) (s x : DiskEntry)
      → Rows P lo hi (pre ++ s ∷ post)
      → key_bytes x ≡ key_bytes s
      → P' (low lo pre) (high hi s post) (child x)
      → Rows P' lo hi (pre ++ x ∷ post)
        × (gather f' (pre ++ x ∷ post) ≡ gather f pre ++ (f' (child x) ++ gather f post))
  replaced [] [] lo hi s x b k p = (p, refl)
  replaced [] (y ∷ post) lo hi s x (t, o, u, q, b) k p =
      let r = Rows-kept (some (key_bytes s)) hi (y ∷ post) b in
      (rw k (t, o, u, p, r.0), rw (r.1) refl)
  replaced (e ∷ []) post lo hi s x (t, o, u, q, b) k p =
      let g = keep lo (some (key_bytes e)) (child e) q in
      let r = replaced [] post (some (key_bytes e)) hi s x b k p in
      ((t, o, u, g.0, r.0), rw (g.1, r.1) (sym (append_assoc (f (child e)) [] _)))
  replaced (e ∷ d ∷ pre) post lo hi s x (t, o, u, q, b) k p =
      let g = keep lo (some (key_bytes e)) (child e) q in
      let r = replaced (d ∷ pre) post (some (key_bytes e)) hi s x b k p in
      ((t, o, u, g.0, r.0), rw (g.1, r.1) (sym (append_assoc (f (child e)) (gather f (d ∷ pre)) _)))

-- Slots at a separator.
pub record Cut (P : Option Bytes → Option Bytes → ℕ → Type 0) (lo hi : Option Bytes)
    (pre : List DiskEntry) (m q : DiskEntry) (post : List DiskEntry) : Type 0 where
  pub fits : Fits (key_bytes m)
  pub over : OverLo lo (key_bytes m)
  pub under : UnderHi hi (key_bytes m)
  pub left : Rows P lo (some (key_bytes m)) (pre ++ m ∷ [])
  pub right : Rows P (some (key_bytes m)) hi (q ∷ post)

pub Cut-Rows :
    (P : Option Bytes → Option Bytes → ℕ → Type 0) (pre : List DiskEntry) (lo hi : Option Bytes)
    (m q : DiskEntry) (post : List DiskEntry)
    → Rows P lo hi (pre ++ m ∷ q ∷ post)
    → Cut P lo hi pre m q post
Cut-Rows P [] lo hi m q post (t, o, u, p, b) = record {
  fits = t;
  over = o;
  under = u;
  left = p;
  right = b;
}
Cut-Rows P (e ∷ []) lo hi m q post (t, o, u, p, b) =
    let c = Cut-Rows P [] (some (key_bytes e)) hi m q post b in
    record {
      fits = c.fits;
      over = OverLo-trans lo (key_bytes e) (key_bytes m) o c.over;
      under = c.under;
      left = (t, o, c.over, p, c.left);
      right = c.right;
    }
Cut-Rows P (e ∷ d ∷ pre) lo hi m q post (t, o, u, p, b) =
    let c = Cut-Rows P (d ∷ pre) (some (key_bytes e)) hi m q post b in
    record {
      fits = c.fits;
      over = OverLo-trans lo (key_bytes e) (key_bytes m) o c.over;
      under = c.under;
      left = (t, o, c.over, p, c.left);
      right = c.right;
    }

pub gather-append :
    (f : ℕ → List DiskEntry) (xs ys : List DiskEntry)
    → gather f (xs ++ ys) ≡ gather f xs ++ gather f ys
gather-append f [] ys = refl
gather-append f (x ∷ xs) ys =
    ap (λ r. f (child x) ++ r) (gather-append f xs ys)
    ∙ sym (append_assoc (f (child x)) (gather f xs) (gather f ys))

pub Rows-Branches :
    (P Q : Option Bytes → Option Bytes → ℕ → Type 0)
    → ((lo hi : Option Bytes) (c : ℕ) → P lo hi c → Q lo hi c)
    → (lo hi : Option Bytes) (es : List DiskEntry) → Rows P lo hi es
    → Branches Q lo hi es
Rows-Branches P Q g lo hi [] b = b
Rows-Branches P Q g lo hi (e ∷ []) b = g lo hi (child e) b
Rows-Branches P Q g lo hi (e ∷ d ∷ es) (t, o, u, p, b) = (
  o,
  u,
  g lo (some (key_bytes e)) (child e) p,
  Rows-Branches P Q g (some (key_bytes e)) hi (d ∷ es) b,
)
