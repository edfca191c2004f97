-- ===== src/Node/Merged/Find.antt =====
-- `merged_find` finds the entry of the newest bset that has the key.
use native.Mathlib.Nat.{add-zero, zero-add}
use rfs.Prelude.{
  get_elem?-some, ℕ, suc, ◌+◌, ◌≡◌, refl, Option, none, some, List, [], ◌∷◌, arith, get_elem?, ap,
  ◌∙◌, sym,
}
use rfs.Bytes.{Bytes}
use rfs.Node.{Node, Bset, Found, at, insert_at, search_entries, entry_at}
use rfs.Node.Search.{lookup, Finds, search_entries-Finds}
use rfs.Node.Merged.{MergedHit, hit, find_from, merged_find, resolve, cursors}
use rfs.Node.Merged.Best.{IsOrdered, Newer, latest}

abbrev pub OlderHit : Option MergedHit → List Bset → Type 0
OlderHit none ss = Unit
OlderHit (some h) ss = Newer h.seq (cursors ss)

pub shift_index : (b i : ℕ) → b + 1 + i ≡ b + suc i
shift_index b i = omega arith

-- A hit in a newer bset replaces the best one.
resolve-hit :
    (n : Node) (best : Option MergedHit) (b : ℕ) (s : Bset) (ss : List Bset) (r : Found)
    (key : Bytes)
    → OlderHit best (s ∷ ss)
    → get_elem? n.bsets b ≡ some s
    → Finds s.entries key r
    → resolve n (hit best b s.seq r)
      ≡ (elim (lookup s.entries key) [ some e ↦ some e | none ↦ resolve n best ])
unfolding entry_at resolve
resolve-hit n best b s ss (insert_at i) key o g f = rw f.0
resolve-hit n none b s ss (at i) key o g f =
    let (e, found) = get_elem?-some i s.entries f.1 in ground (arith, f.0, found, g)
resolve-hit n (some h) b s ss (at i) key o g f =
    let (e, found) = get_elem?-some i s.entries f.1 in ground (arith, f.0, found, g)

pub OlderHit-hit :
    (best : Option MergedHit) (b : ℕ) (s : Bset) (ss : List Bset) (r : Found)
    → OlderHit best (s ∷ ss)
    → Newer s.seq (cursors ss)
    → OlderHit (hit best b s.seq r) ss
OlderHit-hit none b s ss (insert_at i) o w = tt
OlderHit-hit (some h) b s ss (insert_at i) o w = o.1
OlderHit-hit none b s ss (at i) o w = w
OlderHit-hit (some h) b s ss (at i) o w = ground arith

find_from_lem :
    (n : Node) (key : Bytes) (ss : List Bset) (b : ℕ) (best : Option MergedHit)
    → ((i : ℕ) → get_elem? n.bsets (b + i) ≡ get_elem? ss i)
    → OlderHit best ss
    → IsOrdered (cursors ss)
    → resolve n (find_from b ss key best)
      ≡ (elim (latest (cursors ss) key) [ some e ↦ some e | none ↦ resolve n best ])
unfolding find_from latest entry_at resolve
find_from_lem n key [] b best h o w = refl
find_from_lem n key (s ∷ ss) b best h o w =
    let r = search_entries s.entries key in
    let f = search_entries-Finds s.entries key w.1 in
    let here : get_elem? n.bsets b ≡ some s = ap (get_elem? n.bsets) (sym (add-zero b)) ∙ h 0 in
    let rest : (i : ℕ) → get_elem? n.bsets (b + 1 + i) ≡ get_elem? ss i =
      λ i. ap (get_elem? n.bsets) (shift_index b i) ∙ h (suc i) in
    find_from_lem n key ss (b + 1) (hit best b s.seq r) rest (OlderHit-hit best b s ss r o w.0) w.2
    ∙ ground (arith, resolve-hit n best b s ss r key o here f)

-- The hit of `merged_find` is the entry of the newest bset that has the key, or there is none.
pub merged_find_lem :
    (n : Node) (key : Bytes)
    → IsOrdered (cursors n.bsets)
    → resolve n (merged_find n key) ≡ latest (cursors n.bsets) key
unfolding merged_find entry_at resolve
merged_find_lem n key w =
    find_from_lem n key n.bsets 0 none (λ i. ap (get_elem? n.bsets) (zero-add i)) tt w
    ∙ ground arith
