-- ===== src/Parser/Trim/Laws.antt =====
-- What the trimming of gdata/gdata-parser.c leaves.
use libgdata.Base.{
  ℕ, zero, suc, ◌+◌, ◌≤◌, ◌<◌, ◌≡◌, ◌≢◌, refl, sym, ap, ◌∙◌, Bool, true, false, some, [], ◌∷◌, ◌++◌,
  append-nil, append_assoc, Text, ◌==◌, length, take, drop, get_or, All, All-append, Bool-cases,
  inl, inr, arith, take-append-drop, ne→==, length-drop, take_all,
}
use libgdata.Parser.Trim.{leading, backtrack, utf8_trim_whitespace}

module _ (isspace : ℕ → Bool) where
  abbrev pub IsBlank : Text → Type 0
  IsBlank = All (λ c. isspace c ≡ true)

  -- The first character, if there is one, is no space; and the last.
  abbrev pub StartsSolid : Text → Type 0
  StartsSolid [] = Unit
  StartsSolid (c ∷ s) = isspace c ≡ false

  abbrev pub EndsSolid : Text → Type 0
  EndsSolid [] = Unit
  EndsSolid (c ∷ []) = isspace c ≡ false
  EndsSolid (c ∷ d ∷ s) = EndsSolid (d ∷ s)

  leading-IsBlank : (s : Text) → IsBlank (take (leading isspace s) s)
  unfolding leading
  leading-IsBlank [] = tt
  leading-IsBlank (c ∷ s) = elim (Bool-cases (isspace c)) [
    | inl blank ↦ rw blank (blank, leading-IsBlank s)
    | inr solid ↦ rw solid tt
  ]

  leading-StartsSolid : (s : Text) → StartsSolid (drop (leading isspace s) s)
  unfolding leading
  leading-StartsSolid [] = tt
  leading-StartsSolid (c ∷ s) = elim (Bool-cases (isspace c)) [
    | inl blank ↦ rw blank (leading-StartsSolid s)
    | inr solid ↦ rw solid solid
  ]

  take-suc : (n : ℕ) (s : Text) → n < length s → take (suc n) s ≡ take n s ++ get_or s n 0 ∷ []
  take-suc n [] h = elim h [ ]
  take-suc zero (c ∷ s) h = refl
  take-suc (suc n) (c ∷ s) h = ap (λ t. c ∷ t) (take-suc n s (omega arith))

  EndsSolid-append : (s : Text) (c : ℕ) → isspace c ≡ false → EndsSolid (s ++ c ∷ [])
  EndsSolid-append [] c h = h
  EndsSolid-append (d ∷ []) c h = h
  EndsSolid-append (d ∷ e ∷ s) c h = EndsSolid-append (e ∷ s) c h

  not_in_front :
      (start : ℕ) (s : Text) (len : ℕ)
      → StartsSolid s
      → len < length s
      → isspace (get_or s len 0) ≡ true
      → (start + len == 0) ≡ false
  not_in_front start [] len solid h blank = elim h [ ]
  not_in_front start (c ∷ s) zero solid h blank = absurd (cc)
  not_in_front start (c ∷ s) (suc len) solid h blank = ne→== (start + suc len) 0 (omega arith)

  -- From a text that starts with no space the second loop never steps in front of it.
  backtrack_lem :
      (start : ℕ) (s : Text) (len : ℕ)
      → StartsSolid s
      → len ≤ length s
      → (n : ℕ) × (trail : Text) × (backtrack isspace start s len ≡ some n)
        × (take len s ≡ take n s ++ trail)
        × IsBlank trail
        × EndsSolid (take n s)
  unfolding backtrack
  backtrack_lem start s zero solid h = (0, [], refl, refl, tt, tt)
  backtrack_lem start s (suc len) solid h = elim (Bool-cases (isspace (get_or s len 0))) [
    | inl blank ↦
        let (n, trail, found, cut, blanks, end) = backtrack_lem start s len solid (omega arith) in
        (
          n,
          trail ++ get_or s len 0 ∷ [],
          rw (blank, not_in_front start s len solid h blank) found,
          take-suc len s (omega arith)
              ∙ ap (λ t. t ++ get_or s len 0 ∷ []) cut
              ∙ append_assoc (take n s) trail (get_or s len 0 ∷ []),
          All-append (λ c. isspace c ≡ true) trail (get_or s len 0 ∷ []) blanks (blank, tt),
          end,
        )
    | inr end ↦ (
      suc len,
      [],
      rw end,
      sym (append-nil _),
      tt,
      rw (take-suc len s (omega arith)) (EndsSolid-append (take len s) (get_or s len 0) end),
    )
  ]

  StartsSolid-take : (n : ℕ) (s : Text) → StartsSolid s → StartsSolid (take n s)
  StartsSolid-take zero s h = tt
  StartsSolid-take (suc n) [] h = tt
  StartsSolid-take (suc n) (c ∷ s) h = h

  some_text : (text : Text) → text ≢ [] → 0 < length text
  some_text [] h = absurd (h refl)
  some_text (c ∷ s) h = omega arith

  -- Any text but the empty one is trimmed to what stands between the white space at its two ends:
  -- the result starts and ends with no space, and what is cut off on either side is white space.
  pub utf8_trim_whitespace_lem :
      (text : Text)
      → text ≢ []
      → (lead : Text) × (r : Text) × (trail : Text) × (utf8_trim_whitespace isspace text ≡ some r)
        × (text ≡ lead ++ (r ++ trail))
        × IsBlank lead
        × IsBlank trail
        × StartsSolid r
        × EndsSolid r
  unfolding utf8_trim_whitespace
  utf8_trim_whitespace_lem text h =
      let start = leading isspace text in
      let s = drop start text in
      let (n, trail, found, cut, blanks, end) =
        backtrack_lem start s (length s) (leading-StartsSolid text) (omega arith) in
      let inside : start + length s ≢ 0 = omega (arith, length-drop start text, some_text text h) in
      (
        take start text,
        take n s,
        trail,
        rw (ne→== (start + length s) 0 inside, found) refl,
        sym (take-append-drop start text) ∙ ap (λ t. take start text ++ t) (sym (take_all s) ∙ cut),
        leading-IsBlank text,
        blanks,
        StartsSolid-take n s (leading-StartsSolid text),
        end,
      )
