-- ===== src/Visible/Rows.antt =====
-- The rows that a snapshot sees, against the first row of each key on the chain.
use rfs.Prelude.{
  ℕ, ◌≡◌, ◌≢◌, refl, sym, ap, Bool, true, false, ◌||◌, ◌&&◌, Option, none, some, List, [], ◌∷◌,
  if◌then◌else◌, arith, lt, eq, gt, Ordering, subst, Bool-cases, inl, inr,
}
use rfs.Bytes.{Bytes, compare_bytes, ◌≺◌}
use rfs.Bytes.Order.{eq_of_compare, lt_of_gt, gt_of_lt, lt_trans}
use rfs.Entry.Kind.{is_live}
use rfs.Leaf.{contains}
use rfs.Visible.{Row, same_key, is_current, select_from, visible_rows}

-- The first row of a key, among all rows, and among those on the chain.
unfoldable pub find_row : List Row → Bytes → Option Row
find_row [] k = none
find_row (r ∷ rows) k = if same_key r.logical k then some r else find_row rows k

unfoldable pub deciding : List ℕ → List Row → Bytes → Option Row
deciding chain [] k = none
deciding chain (r ∷ rows) k =
    if same_key r.logical k && contains chain r.snap then some r else deciding chain rows k

-- A tombstone is as no row.
abbrev pub if_live : Option Row → Option Row
if_live none = none
if_live (some r) = if is_live r.kind then some r else none

-- Every key is behind `k`, or is `k`.
abbrev pub AllFrom : Bytes → List Row → Type 0
AllFrom k [] = Unit
AllFrom k (r ∷ rows) = (compare_bytes r.logical k ≢ lt) × AllFrom k rows

-- The rows are in ascending order of their logical keys.
abbrev pub IsAscending : List Row → Type 0
IsAscending [] = Unit
IsAscending (r ∷ rows) = AllFrom r.logical rows × IsAscending rows

pub eq_of_same : (a b : Bytes) → same_key a b ≡ true → a ≡ b
unfolding same_key
eq_of_same a b h = ground (arith, eq_of_compare a b)

-- Behind a later key there is no row of an earlier one.
deciding-past :
    (chain : List ℕ) (rows : List Row) (k j : Bytes)
    → k ≺ j
    → AllFrom j rows
    → deciding chain rows k ≡ none
unfolding deciding same_key
deciding-past chain [] k j h a = refl
deciding-past chain (r ∷ rows) k j h a = ground (
  arith,
  deciding-past chain rows k j h a.1,
  eq_of_compare r.logical k,
  ap (λ x. compare_bytes x j),
  a.0,
)

-- A key that differs from the current one is behind it.
later_key :
    (c j k : Bytes) → compare_bytes j c ≢ lt → same_key c j ≡ false → same_key c k ≡ true → k ≺ j
unfolding same_key
later_key c j k h d e = rw (sym (eq_of_same c k e)) (ground (arith, h, lt_of_gt c j, gt_of_lt j c))

differs : (k j : Bytes) → k ≺ j → same_key j k ≡ false
unfolding same_key
differs k j h = ground (arith, gt_of_lt k j h)

select_from_lem :
    (chain : List ℕ) (c : Bytes) (decided : Bool) (rows : List Row) (k : Bytes)
    → AllFrom c rows
    → IsAscending rows
    → find_row (select_from chain (some c) decided rows) k
      ≡ (if same_key c k && decided then none else if_live (deciding chain rows k))
unfolding find_row select_from deciding
select_from_lem chain c decided [] k a s = ground arith
select_from_lem chain c decided (r ∷ rows) k (ar, a) (ascr, asc) =
    elim (Bool-cases (same_key c r.logical)) [
      | inl same ↦ ground (
        arith,
        ap (λ x. same_key x k) (eq_of_same c r.logical same),
        select_from_lem chain r.logical (decided || contains chain r.snap) rows k ascr asc,
      )
      | inr other ↦
          let past = λ (e : same_key c k ≡ true).
            deciding-past chain rows k r.logical (later_key c r.logical k ar other e) ascr in
          let not_here =
            λ (e : same_key c k ≡ true). differs k r.logical (later_key c r.logical k ar other e) in
          ground (
            arith,
            past,
            not_here,
            select_from_lem chain r.logical (contains chain r.snap) rows k ascr asc,
          )
    ]

-- Every key is behind `k`.
abbrev pub AllBehind : Bytes → List Row → Type 0
AllBehind k [] = Unit
AllBehind k (r ∷ rows) = (k ≺ r.logical) × AllBehind k rows

-- Each row has a later key than the one before it.
abbrev pub IsStrict : List Row → Type 0
IsStrict [] = Unit
IsStrict (r ∷ rows) = AllBehind r.logical rows × IsStrict rows

-- A key behind `j`, which is behind `k`, is behind `k`.
behind_trans : (k j i : Bytes) → k ≺ j → compare_bytes i j ≢ lt → k ≺ i
behind_trans k j i h a = by (compare_bytes i j) refl
  where
    by : (o : Ordering) → compare_bytes i j ≡ o → k ≺ i
    by lt p = absurd (a p)
    by eq p = subst (λ x. k ≺ x) (sym (eq_of_compare i j p)) h
    by gt p = lt_trans k j i h (lt_of_gt i j p)

AllBehind-from : (k j : Bytes) (rows : List Row) → k ≺ j → AllFrom j rows → AllBehind k rows
AllBehind-from k j [] h a = tt
AllBehind-from k j (r ∷ rows) h a =
    (behind_trans k j r.logical h a.0, AllBehind-from k j rows h a.1)

-- What is selected of rows behind a key is behind it.
select_from-AllBehind :
    (chain : List ℕ) (k : Bytes) (current : Option Bytes) (decided : Bool) (rows : List Row)
    → AllBehind k rows
    → AllBehind k (select_from chain current decided rows)
unfolding select_from
select_from-AllBehind chain k current decided [] a = tt
select_from-AllBehind chain k current decided (r ∷ rows) a =
    let known : Bool = if is_current current r.logical then decided else false in
    let ih =
      select_from-AllBehind chain k (some r.logical) (known || contains chain r.snap) rows a.1 in
    ground (arith, ih, a.0)

is_behind : (c j : Bytes) → compare_bytes j c ≢ lt → same_key c j ≡ false → c ≺ j
unfolding same_key
is_behind c j h d = ground (arith, h, lt_of_gt c j, gt_of_lt j c)

-- Behind a decided key only later ones are selected.
select_from-decided :
    (chain : List ℕ) (c : Bytes) (rows : List Row)
    → AllFrom c rows
    → IsAscending rows
    → AllBehind c (select_from chain (some c) true rows)
unfolding select_from
select_from-decided chain c [] a s = tt
select_from-decided chain c (r ∷ rows) a s =
    let later = select_from-decided chain r.logical rows s.0 s.1 in
    elim (Bool-cases (same_key c r.logical)) [
      | inl q ↦ rw q (
          subst (λ x. AllBehind x (select_from chain (some r.logical) true rows))
            (sym (eq_of_same c r.logical q)) later)
      | inr q ↦
          let b = is_behind c r.logical a.0 q in
          select_from-AllBehind chain c (some c) true (r ∷ rows)
            (b, AllBehind-from c r.logical rows b s.0)
    ]

select_from-IsStrict :
    (chain : List ℕ) (current : Option Bytes) (decided : Bool) (rows : List Row)
    → IsAscending rows
    → IsStrict (select_from chain current decided rows)
unfolding select_from
select_from-IsStrict chain current decided [] s = tt
select_from-IsStrict chain current decided (r ∷ rows) s =
    let known : Bool = if is_current current r.logical then decided else false in
    let ih =
      select_from-IsStrict chain (some r.logical) (known || contains chain r.snap) rows s.1 in
    let later = select_from-decided chain r.logical rows s.0 s.1 in ground (arith, ih, later)

find_row-visible_rows :
    (chain : List ℕ) (rows : List Row) (k : Bytes)
    → IsAscending rows
    → find_row (visible_rows chain rows) k ≡ if_live (deciding chain rows k)
unfolding visible_rows select_from find_row deciding
find_row-visible_rows chain [] k s = refl
find_row-visible_rows chain (r ∷ rows) k (ascr, asc) =
    ground (arith, select_from_lem chain r.logical (contains chain r.snap) rows k ascr asc)

-- Of raw rows in ascending order of their logical keys, the selected rows are strictly ascending,
-- so that no key is twice among them, and have for each key the first row on the chain if it is
-- live, and none if it is a tombstone or there is none.
pub visible_rows_lem :
    (chain : List ℕ) (rows : List Row)
    → IsAscending rows
    → IsStrict (visible_rows chain rows)
      × ((k : Bytes) → find_row (visible_rows chain rows) k ≡ if_live (deciding chain rows k))
unfolding visible_rows
visible_rows_lem chain rows s =
    (select_from-IsStrict chain none false rows s, λ k. find_row-visible_rows chain rows k s)
