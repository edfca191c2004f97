-- ===== src/Fs/Snapshots.antt =====
-- fs.rs: `ancestor_chain` and `is_ancestor`. The lookup of a snapshot's metadata is an argument. The
-- loops have a number of rounds as fuel, and a walk that needs more is a panic here; the source's
-- loops have no bound.
pub mod Chain
use rfs.Prelude.{
  ℕ, zero, suc, ◌+◌, ◌-◌, Bool, true, false, ◌||◌, Option, none, some, List, [], ◌∷◌, ltb, leb,
  ◌==◌, if◌then◌else◌,
}
use rfs.Prelude.Outcome.{Outcome, ok, panic, ◌>>=◌}
use rfs.Fs.Values.{SnapshotV1}

abbrev pub no_parent_snap : ℕ
no_parent_snap = 0

-- The tests of both loops: a tree root has no parent, and a parent that does not lie above its child
-- ends the walk, as missing metadata does.
unfoldable pub next_parent : ℕ → Option SnapshotV1 → Option ℕ
next_parent cur none = none
next_parent cur (some m) =
    if m.parent_id == no_parent_snap
    then none
    else if leb m.parent_id cur
    then none
    else some m.parent_id

-- The rounds that are enough from a snapshot on: each goes to a larger `u32`.
abbrev pub rounds_from : ℕ → ℕ
rounds_from snap = 4294967296 - snap

-- The end of a loop, or its next round.
abbrev pub follow {ℓ} : {A : Type ℓ} → A → (ℕ → Outcome A) → Option ℕ → Outcome A
follow end round none = ok end
follow end round (some p) = round p

module _ (get_snapshot : ℕ → Outcome (Option SnapshotV1)) where
  -- The ancestors behind `cur`.
  unfoldable pub parents_of : ℕ → ℕ → Outcome (List ℕ)
  unfolding next_parent
  parents_of zero cur = panic
  parents_of (suc fuel) cur = get_snapshot cur >>= λ o.
      follow [] (λ p. parents_of fuel p >>= λ rest. ok (p ∷ rest)) (next_parent cur o)

  unfoldable pub ancestor_chain : ℕ → Outcome (List ℕ)
  unfolding parents_of
  ancestor_chain snap = parents_of (rounds_from snap) snap >>= λ rest. ok (snap ∷ rest)

  unfoldable pub reaches : ℕ → ℕ → ℕ → Outcome Bool
  unfolding next_parent
  reaches zero ancestor cur = panic
  reaches (suc fuel) ancestor cur =
      if cur == ancestor
      then ok true
      else (get_snapshot cur >>= λ o.
          follow false (λ p. reaches fuel ancestor p) (next_parent cur o))

  unfoldable pub is_ancestor : ℕ → ℕ → Outcome Bool
  unfolding reaches
  is_ancestor ancestor of =
      if ltb ancestor of then ok false else reaches (rounds_from of) ancestor of
