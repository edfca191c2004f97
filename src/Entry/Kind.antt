-- ===== src/Entry/Kind.antt =====
-- block_btree.rs: `EntryKind`, the type tag of an entry.
use rfs.Prelude.{ℕ, ◌≡◌, refl, Bool, true, false, ◌==◌, if◌then◌else◌}

pub data EntryKind : Type 0 where
  live deleted whiteout : EntryKind

abbrev pub kind_byte : EntryKind → ℕ
kind_byte live = 0
kind_byte deleted = 1
kind_byte whiteout = 2

-- An unknown tag reads as `live`.
unfoldable pub kind_of_u8 : ℕ → EntryKind
kind_of_u8 b = if b == 1 then deleted else if b == 2 then whiteout else live

abbrev pub is_tombstone : EntryKind → Bool
is_tombstone live = false
is_tombstone _ = true

abbrev pub is_whiteout : EntryKind → Bool
is_whiteout whiteout = true
is_whiteout _ = false

abbrev pub is_live : EntryKind → Bool
is_live live = true
is_live _ = false

pub kind_of_u8-kind_byte : (k : EntryKind) → kind_of_u8 (kind_byte k) ≡ k
unfolding kind_of_u8
kind_of_u8-kind_byte live = refl
kind_of_u8-kind_byte deleted = refl
kind_of_u8-kind_byte whiteout = refl
