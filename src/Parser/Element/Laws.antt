-- ===== src/Parser/Element/Laws.antt =====
-- What the readers of gdata/gdata-parser.c accept, and that the XML and the JSON readers agree.
use libgdata.Base.{
  and_false, Bool-cases, ◌≡◌, ◌≢◌, ◌↔◌, ◌⊎◌, inl, inr, refl, Bool, true, false, not, ◌&&◌, ◌||◌,
  Option, none, some, [], ◌∷◌, Text, codes, text_eq, text_eq_sound, arith, sym, ap, ◌∙◌,
}
use libgdata.Base.Int.{ℤ, pos, negsuc, minus_one}
use libgdata.Parser.Errors.{
  Element, JsonMember, ParserError, error_required_content_missing, error_duplicate_element,
  error_required_json_content_missing,
}
use libgdata.Parser.Element.{
  boolean_from_value, ParserOptions, failed, parsed, is_null, is_empty, is_one, is_name,
  check_string, string_from_element, string_from_json_member, boolean_from_property,
}

-- What the options ask of a content.
pub record IsAllowed (options : ParserOptions) (content : Option Text) : Type 0 where
  pub present : options.required ≡ true → content ≢ none
  pub filled : options.non_empty ≡ true → content ≢ some []

-- The value of an accepted content: under `P_DEFAULT` a missing one is the empty string.
abbrev pub value_of : Bool → Option Text → Option Text
value_of true none = some []
value_of false none = none
value_of d (some t) = some t

check_string_allowed :
    (options : ParserOptions) (content : Option Text) (e : ParserError)
    → IsAllowed options content
    → check_string options content e ≡ parsed (value_of options.default content) none
unfolding check_string
check_string_allowed options none e h = elim (Bool-cases options.required) [
  | inl needed ↦ absurd (h.present needed refl)
  | inr free ↦ rw free (ground arith)
]
check_string_allowed options (some []) e h = elim (Bool-cases options.non_empty) [
  | inl needed ↦ absurd (h.filled needed refl)
  | inr free ↦ rw free (ground arith)
]
check_string_allowed options (some (c ∷ s)) e h = (ground arith)

check_string-parsed :
    (options : ParserOptions) (content : Option Text) (e : ParserError) {v : Option Text}
    → check_string options content e ≡ parsed v none
    → IsAllowed options content × (v ≡ value_of options.default content)
unfolding check_string
check_string-parsed options none e h = elim (Bool-cases options.required) [
  | inl needed ↦ ground arith
  | inr free ↦ (ground arith)
]
check_string-parsed options (some []) e h = (ground arith)
check_string-parsed options (some (c ∷ s)) e h = (ground arith)

first_only : (d : Bool) (o : Option Text) → (d && not (is_null o)) ≡ false → d ≡ true → o ≡ none
first_only d none h e = refl
first_only d (some t) h e = ground arith

not_again : (d : Bool) (o : Option Text) → (d && not (is_null o)) ≡ true → (d ≡ true → o ≡ none) → ⊥
not_again true none h k = cc
not_again true (some t) h k = let e = k refl in cc
not_again false o h k = cc

-- On an element of its name, with no earlier value where duplicates are refused, a string is read
-- exactly when the options allow the content, and the value is the content, or the empty string for
-- a missing one under `P_DEFAULT`.
pub string_from_element_iff :
    (element : Element) (name : Text) (options : ParserOptions) (output v : Option Text)
    → text_eq element.name name ≡ true
    → (string_from_element element name options output ≡ parsed v none) ↔ (
        (options.no_dupes ≡ true → output ≡ none)
        × IsAllowed options element.content
        × (v ≡ value_of options.default element.content))
unfolding string_from_element
string_from_element_iff element name options output v own =
    elim (Bool-cases (options.no_dupes && not (is_null output))) [
      | inl again ↦
          rw (own, again) (λ h. cc, λ h. absurd (not_again options.no_dupes output again h.0))
      | inr first ↦
          rw (own, first)
            (
              λ h.
                  let (allowed, value) =
                    check_string-parsed options element.content
                      (error_required_content_missing element) h in
                  (first_only options.no_dupes output first, allowed, value),
              λ h.
                  check_string_allowed options element.content
                    (error_required_content_missing element) h.1
                  ∙ ap (λ t. parsed t none) (sym h.2),
            )
    ]

check_string_same :
    (options : ParserOptions) (content : Option Text) (e f : ParserError)
    → ((v : Option Text) × (check_string options content e ≡ parsed v none)
        × (check_string options content f ≡ parsed v none))
      ⊎ ((check_string options content e ≡ failed e) × (check_string options content f ≡ failed f))
unfolding check_string
check_string_same options content e f =
    elim (Bool-cases
      ((options.required && is_null content) || (options.non_empty && is_empty content))) [
        | inl refused ↦ inr (rw refused, rw refused)
        | inr taken ↦ elim (Bool-cases (options.default && (is_null content || is_empty content))) [
          | inl filled ↦ inl (some [], rw (taken, filled), rw (taken, filled))
          | inr kept ↦ inl (content, rw (taken, kept), rw (taken, kept))
        ]
      ]

-- The reader of a JSON member and the reader of an element agree: on the same content, with the
-- name right, no earlier value and no error of the JSON reader, both accept with the same value, or
-- both refuse.
string_from_json-string_from_element :
    (element : Element) (reader : JsonMember) (name : Text) (options : ParserOptions)
    → text_eq element.name name ≡ true
    → is_name reader.member_name name ≡ true
    → reader.string_error ≡ none
    → reader.string_value ≡ element.content
    → ((v : Option Text) × (string_from_element element name options none ≡ parsed v none)
        × (string_from_json_member reader name options none ≡ parsed v none))
      ⊎ ((string_from_element element name options none
            ≡ failed (error_required_content_missing element))
          × (string_from_json_member reader name options none
              ≡ failed (error_required_json_content_missing reader)))
unfolding string_from_element string_from_json_member
string_from_json-string_from_element element reader name options own own' clean same =
    simp (own, own', clean, same, and_false)
      (check_string_same options element.content (error_required_content_missing element)
        (error_required_json_content_missing reader))

-- Once a required element has been read, a second of its name is refused where duplicates are, and
-- the error names the second.
string_from_element_twice :
    (first second : Element) (name : Text) (options : ParserOptions) (v : Option Text)
    → text_eq second.name name ≡ true
    → options.required ≡ true
    → options.no_dupes ≡ true
    → string_from_element first name options none ≡ parsed v none
    → string_from_element second name options v ≡ failed (error_duplicate_element second)
unfolding string_from_element check_string
string_from_element_twice first second name options none own needed single h = ground arith
string_from_element_twice first second name options (some t) own needed single h =
    rw (own, single) refl

-- What a Boolean property may be: missing, with a default, or one of two texts.
abbrev pub BooleanOf : Option Text → ℤ → Bool → Type 0
BooleanOf none default_output b = (default_output ≢ minus_one) × (b ≡ is_one default_output)
BooleanOf (some t) default_output b =
    ((t ≡ codes "true") × (b ≡ true)) ⊎ ((t ≡ codes "false") × (b ≡ false))

boolean_from_value_iff :
    (element : Element) (name : Text) (value : Option Text) (default_output : ℤ) (b : Bool)
    → (boolean_from_value element name value default_output ≡ parsed b none)
      ↔ BooleanOf value default_output b
unfolding boolean_from_value
boolean_from_value_iff element name none (pos n) b = (ground arith, ground arith)
boolean_from_value_iff element name none (negsuc n) b = (ground arith, ground arith)
boolean_from_value_iff element name (some t) default_output b = (
  λ h. elim (Bool-cases (text_eq t (codes "false"))) [
    | inl f ↦ inr (text_eq_sound t (codes "false") f, ground arith)
    | inr nf ↦ elim (Bool-cases (text_eq t (codes "true"))) [
      | inl y ↦ inl (text_eq_sound t (codes "true") y, ground arith)
      | inr ny ↦ ground arith
    ]
  ],
  λ h. elim h [
    | inl y ↦ rw (y.0, y.1) (unfold text_eq in refl)
    | inr n ↦ rw (n.0, n.1) (unfold text_eq in refl)
  ],
)

-- A Boolean property is read from the texts "true" and "false" alone, and from the default where it
-- is missing and there is one.
boolean_from_property_iff :
    (element : Element) (name : Text) (default_output : ℤ) (b : Bool)
    → (boolean_from_property element name default_output ≡ parsed b none)
      ↔ BooleanOf (element.property name) default_output b
unfolding boolean_from_property
boolean_from_property_iff element name default_output b =
    boolean_from_value_iff element name (element.property name) default_output b
