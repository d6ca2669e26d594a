-- ===== src/Tests/Oauth1.antt =====
-- The theorem on gdata/gdata-oauth1-authorizer.c with a concrete sort.
use libgdata.Base.{
  ◌+◌, ◌≡◌, refl, ap, ◌∙◌, true, false, some, List, [], ◌∷◌, ◌++◌, Text, codes, text_eq, Bool-cases,
  inl, inr, arith, if◌then◌else◌,
}
use libgdata.Oauth1.{Library, sign_message}
use libgdata.Oauth1.Sorting.{text_leb, count, Below, IsSorted}
use libgdata.Oauth1.Order.{IsDocumented, Rearranged, swap, nil, cons, sign_message-Rearranged}

text_leb_total : (s t : Text) → text_leb s t ≡ false → text_leb t s ≡ true
unfolding text_leb
text_leb_total [] t h = cc
text_leb_total (a ∷ s) [] h = refl
text_leb_total (a ∷ s) (b ∷ t) h = ground (arith, text_leb_total s t)

text_leb_trans : (s t u : Text) → text_leb s t ≡ true → text_leb t u ≡ true → text_leb s u ≡ true
unfolding text_leb
text_leb_trans [] t u h k = refl
text_leb_trans (a ∷ s) [] u h k = cc
text_leb_trans (a ∷ s) (b ∷ t) [] h k = cc
text_leb_trans (a ∷ s) (b ∷ t) (c ∷ u) h k = ground (arith, text_leb_trans s t u)

unfoldable insert_sorted : Text → List Text → List Text
insert_sorted t [] = t ∷ []
insert_sorted t (s ∷ list) =
    let rest = insert_sorted t list in if text_leb t s then t ∷ s ∷ list else s ∷ rest

unfoldable sort : List Text → List Text
sort [] = []
sort (t ∷ list) = insert_sorted t (sort list)

Below-trans : (s t : Text) (list : List Text) → text_leb s t ≡ true → Below t list → Below s list
Below-trans s t [] le below = tt
Below-trans s t (u ∷ list) le (here, below) =
    (text_leb_trans s t u le here, Below-trans s t list le below)

insert_sorted-Below :
    (s t : Text) (list : List Text)
    → text_leb s t ≡ true
    → Below s list
    → Below s (insert_sorted t list)
unfolding insert_sorted
insert_sorted-Below s t [] le below = (le, tt)
insert_sorted-Below s t (u ∷ list) le (here, below) = elim (Bool-cases (text_leb t u)) [
  | inl first ↦ rw first (le, (here, below))
  | inr next ↦ rw next (here, insert_sorted-Below s t list le below)
]

insert_sorted-IsSorted :
    (t : Text) (list : List Text) → IsSorted list → IsSorted (insert_sorted t list)
unfolding insert_sorted
insert_sorted-IsSorted t [] h = (tt, tt)
insert_sorted-IsSorted t (u ∷ list) (below, h) = elim (Bool-cases (text_leb t u)) [
  | inl first ↦ rw first ((first, Below-trans t u list first below), (below, h))
  | inr next ↦ rw next (
    insert_sorted-Below u t list (text_leb_total t u next) below,
    insert_sorted-IsSorted t list h,
  )
]

sort-IsSorted : (list : List Text) → IsSorted (sort list)
unfolding sort
sort-IsSorted [] = tt
sort-IsSorted (t ∷ list) = insert_sorted-IsSorted t (sort list) (sort-IsSorted list)

count-insert_sorted :
    (r t : Text) (list : List Text) → count r (insert_sorted t list) ≡ count r (t ∷ list)
unfolding insert_sorted count
count-insert_sorted r t [] = refl
count-insert_sorted r t (u ∷ list) = let ih = count-insert_sorted r t list in ground arith

count-sort : (list : List Text) (r : Text) → count r (sort list) ≡ count r list
unfolding sort count
count-sort [] r = refl
count-sort (t ∷ list) r =
    count-insert_sorted r t (sort list)
    ∙ ap (λ n. if text_eq r t then n + 1 else n) (count-sort list r)

swap_first : List (Text × Text) → List (Text × Text)
swap_first [] = []
swap_first (p ∷ []) = p ∷ []
swap_first (p ∷ q ∷ table) = q ∷ p ∷ table

Rearranged-refl : (table : List (Text × Text)) → Rearranged table table
Rearranged-refl [] = nil
Rearranged-refl (p ∷ table) = cons p table table (Rearranged-refl table)

swap_first-Rearranged : (table : List (Text × Text)) → Rearranged (swap_first table) table
unfolding swap_first
swap_first-Rearranged [] = nil
swap_first-Rearranged (p ∷ []) = Rearranged-refl (p ∷ [])
swap_first-Rearranged (p ∷ q ∷ table) = swap q p table

abbrev plain : Library
plain = record {
  iterate = λ table. table;
  sort = sort;
  escaped = λ t. t;
  bare = λ t. t;
  sign = λ key t. key ++ t;
}

plain-IsDocumented : IsDocumented plain
plain-IsDocumented = record { sorted = sort-IsSorted; kept = count-sort }

sign_message-Rearranged_example :
    sign_message
      (record plain { iterate = swap_first })
      (codes "GET")
      (codes "u")
      (some (codes "t"))
      (some (codes "s"))
      []
      (codes "n")
      (codes "1")
    ≡ sign_message plain
        (codes "GET")
        (codes "u")
        (some (codes "t"))
        (some (codes "s"))
        []
        (codes "n")
        (codes "1")
sign_message-Rearranged_example =
    sign_message-Rearranged plain swap_first (codes "GET") (codes "u") (some (codes "t"))
      (some (codes "s")) [] (codes "n") (codes "1") plain-IsDocumented swap_first-Rearranged
