-- ===== src/Visible.antt =====
-- btree.rs: the loop of `range_scan_visible` and `range_scan_visible_with_snap`, which picks the
-- visible rows of a snapshot from the raw rows of `range_scan_all`.
pub mod Rows
use rfs.Prelude.{ℕ, Bool, true, false, ◌||◌, Option, none, some, List, [], ◌∷◌, map, if◌then◌else◌}
use rfs.Bytes.{Bytes, compare_bytes, is_eq}
use rfs.Entry.Kind.{EntryKind, is_live}
use rfs.Leaf.{contains}

-- `AllSnapRow`.
pub record Row : Type 0 where
  pub logical : Bytes
  pub snap : ℕ
  pub kind : EntryKind
  pub value : Bytes

unfoldable pub same_key : Bytes → Bytes → Bool
same_key a b = is_eq (compare_bytes a b)

-- `current_logical.as_deref() == Some(logical)`.
abbrev pub is_current : Option Bytes → Bytes → Bool
is_current none key = false
is_current (some c) key = same_key c key

-- The rows that are pushed from here on, at the current key and whether it is decided.
unfoldable pub select_from : List ℕ → Option Bytes → Bool → List Row → List Row
select_from chain current decided [] = []
select_from chain current decided (r ∷ rows) =
    let known : Bool = if is_current current r.logical then decided else false in
    let on_chain : Bool = contains chain r.snap in
    let rest : List Row = select_from chain (some r.logical) (known || on_chain) rows in
    if known then rest else if on_chain then (if is_live r.kind then r ∷ rest else rest) else rest

unfoldable pub visible_rows : List ℕ → List Row → List Row
visible_rows chain raw = select_from chain none false raw

-- `range_scan_visible` leaves out the snapshot.
abbrev pub visible_pairs : List ℕ → List Row → List (Bytes × Bytes)
unfolding visible_rows
visible_pairs chain raw = map (λ r. (r.logical, r.value)) (visible_rows chain raw)
