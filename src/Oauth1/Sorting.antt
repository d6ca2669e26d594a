-- ===== src/Oauth1/Sorting.antt =====
-- Lists of texts in the order of `strcmp`: one list holds the same texts as another and both are
-- sorted, only if they are the same list.
use libgdata.Base.{
  ℕ, ◌+◌, ◌<◌, ◌≡◌, refl, sym, ap, ◌∙◌, Bool, true, false, ◌&&◌, ◌||◌, List, [], ◌∷◌, Text, text_eq,
  text_eq_sound, text_eq_refl, ltb, ◌==◌, inl, inr, Bool-cases, arith, if◌then◌else◌,
}

-- `strcmp (s, t) <= 0`
unfoldable pub text_leb : Text → Text → Bool
text_leb [] t = true
text_leb (a ∷ s) [] = false
text_leb (a ∷ s) (b ∷ t) = let rest = text_leb s t in ltb a b || ((a == b) && rest)

-- How often a text stands in a list.
unfoldable pub count : Text → List Text → ℕ
count t [] = 0
count t (s ∷ list) = let rest = count t list in if text_eq t s then rest + 1 else rest

abbrev pub Below : Text → List Text → Type 0
Below t [] = Unit
Below t (s ∷ list) = (text_leb t s ≡ true) × Below t list

abbrev pub IsSorted : List Text → Type 0
IsSorted [] = Unit
IsSorted (t ∷ list) = Below t list × IsSorted list

text_leb_antisym : (s t : Text) → text_leb s t ≡ true → text_leb t s ≡ true → s ≡ t
unfolding text_leb
text_leb_antisym [] [] h k = refl
text_leb_antisym [] (b ∷ t) h k = cc
text_leb_antisym (a ∷ s) [] h k = cc
text_leb_antisym (a ∷ s) (b ∷ t) h k =
    let same : a ≡ b = ground arith in
    let h' : text_leb s t ≡ true = ground arith in
    let k' : text_leb t s ≡ true = ground arith in
    ap (λ c. c ∷ s) same ∙ ap (λ r. b ∷ r) (text_leb_antisym s t h' k')

text_leb_refl : (t : Text) → text_leb t t ≡ true
unfolding text_leb
text_leb_refl [] = refl
text_leb_refl (a ∷ t) = let ih = text_leb_refl t in ground arith

-- A text that stands in a list is not below a lower bound of it.
Below-count :
    (s t : Text) (list : List Text) → Below s list → 0 < count t list → text_leb s t ≡ true
unfolding count
Below-count s t [] below some_there = let nowhere : ⊥ = omega arith in absurd nowhere
Below-count s t (r ∷ list) (here, later) some_there = elim (Bool-cases (text_eq t r)) [
  | inl same ↦ ap (text_leb s) (text_eq_sound t r same) ∙ here
  | inr other ↦ Below-count s t list later (rw other at some_there)
]

count_self : (t : Text) (list : List Text) → count t (t ∷ list) ≡ count t list + 1
unfolding count
count_self t list = rw (text_eq_refl t) refl

head_le :
    (s t : Text) (list list' : List Text)
    → IsSorted (s ∷ list)
    → ((r : Text) → count r (s ∷ list) ≡ count r (t ∷ list'))
    → text_leb s t ≡ true
unfolding count
head_le s t list list' (below, sorted) same = elim (Bool-cases (text_eq t s)) [
  | inl equal ↦ ap (text_leb s) (text_eq_sound t s equal) ∙ text_leb_refl s
  | inr other ↦
      let here : count t (s ∷ list) ≡ count t list = rw other refl in
      let there = count_self t list' in
      let whole = same t in Below-count s t list below (omega arith)
]

tail_counts :
    (s t : Text) (list list' : List Text)
    → s ≡ t
    → ((r : Text) → count r (s ∷ list) ≡ count r (t ∷ list'))
    → (r : Text) → count r list ≡ count r list'
unfolding count
tail_counts s t list list' equal same r =
    let whole : count r (s ∷ list) ≡ count r (s ∷ list') =
      same r ∙ ap (λ u. count r (u ∷ list')) (sym equal) in
    elim (Bool-cases (text_eq r s)) [
      | inl here ↦ let e = rw here at whole in omega arith
      | inr other ↦ rw other at whole
    ]

pub sorted_unique :
    (list list' : List Text)
    → IsSorted list
    → IsSorted list'
    → ((r : Text) → count r list ≡ count r list')
    → list ≡ list'
unfolding count
sorted_unique [] [] h k same = refl
sorted_unique [] (t ∷ list') h k same =
    let there = count_self t list' in
    let none_here = same t in let different : ⊥ = omega arith in absurd different
sorted_unique (s ∷ list) [] h k same =
    let there = count_self s list in
    let none_there = same s in let different : ⊥ = omega arith in absurd different
sorted_unique (s ∷ list) (t ∷ list') h k same =
    let equal =
      text_leb_antisym s t (head_le s t list list' h same)
        (head_le t s list' list k (λ r. sym (same r))) in
    ap (λ u. u ∷ list) equal
    ∙ ap (λ r. t ∷ r) (sorted_unique list list' h.1 k.1 (tail_counts s t list list' equal same))
