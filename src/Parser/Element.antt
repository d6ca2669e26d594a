-- ===== src/Parser/Element.antt =====
-- The readers of one element or one JSON member in gdata/gdata-parser.c. Callers chain them in a
-- large "or": each says whether the node was its own.
pub mod Laws
use libgdata.Base.{
  ℕ, Bool, true, false, not, ◌&&◌, ◌||◌, Option, none, some, List, [], ◌∷◌, ◌++◌, Text, codes,
  text_eq, ◌==◌, if◌then◌else◌,
}
use libgdata.Base.Int.{ℤ, pos, negsuc, is_minus_one}
use libgdata.Parser.Errors.{
  Namespace, Element, JsonMember, ParserError, atom_uri, error_required_content_missing,
  error_not_iso8601_format, error_unknown_property_value, error_required_property_missing,
  error_duplicate_element, error_required_json_content_missing, error_not_iso8601_format_json,
  parser_error_from_json_error,
}

-- `GDataParserOptions`, a flag for each bit.
pub record ParserOptions : Type 0 where
  pub no_dupes : Bool
  pub required : Bool
  pub non_empty : Bool
  pub default : Bool

-- `FALSE` is returned, and nothing is set; or `TRUE`, with `*success` FALSE, `*error` set and
-- `*output` left alone; or `TRUE`, with `*success` TRUE and `*output` set, where a second part is
-- an `*error` that was set all the same; or a `g_assert` fails.
pub data Parsed {ℓ} (A : Type ℓ) : Type ℓ where
  unmatched : Parsed A
  failed : ParserError → Parsed A
  parsed : A → Option ParserError → Parsed A
  aborted : Parsed A

abbrev pub is_null {ℓ} : {A : Type ℓ} → Option A → Bool
is_null none = true
is_null (some t) = false

-- `text != NULL && *text == '\0'`
abbrev pub is_empty : Option Text → Bool
is_empty none = false
is_empty (some []) = true
is_empty (some (c ∷ s)) = false

abbrev pub is_one : ℤ → Bool
is_one (pos n) = n == 1
is_one (negsuc n) = false

-- `g_strcmp0 (name, member_name) == 0`
abbrev pub is_name : Option Text → Text → Bool
is_name none member_name = false
is_name (some name) member_name = text_eq name member_name

-- What follows `xmlGetProp` in `gdata_parser_boolean_from_property`.
unfoldable pub boolean_from_value : Element → Text → Option Text → ℤ → Parsed Bool
boolean_from_value element property_name none default_output =
    if is_minus_one default_output
    then failed (error_required_property_missing element property_name)
    else parsed (is_one default_output) none
boolean_from_value element property_name (some value) default_output =
    if text_eq value (codes "false")
    then parsed false none
    else if text_eq value (codes "true")
    then parsed true none
    else failed (error_unknown_property_value element property_name value)

-- `gdata_parser_boolean_from_property`; `default_output` is -1 for none.
unfoldable pub boolean_from_property : Element → Text → ℤ → Parsed Bool
unfolding boolean_from_value
boolean_from_property element property_name default_output =
    boolean_from_value element property_name (element.property property_name) default_output

-- `gdata_parser_is_namespace`
unfoldable pub is_namespace : Element → Text → Bool
is_namespace element namespace_uri = elim element.ns [
  | none ↦ text_eq namespace_uri atom_uri
  | some ns ↦ text_eq ns.href namespace_uri
]

-- The tests on the content that the XML and the JSON reader of a string share, with the error that
-- each sets.
unfoldable pub check_string : ParserOptions → Option Text → ParserError → Parsed (Option Text)
check_string options text missing =
    if (options.required && is_null text) || (options.non_empty && is_empty text)
    then failed missing
    else if options.default && (is_null text || is_empty text)
    then parsed (some []) none
    else parsed text none

-- `gdata_parser_string_from_element`; `output` is what `*output` holds before.
unfoldable pub string_from_element :
    Element → Text → ParserOptions → Option Text → Parsed (Option Text)
unfolding check_string
string_from_element element element_name options output =
    if not (text_eq element.name element_name)
    then unmatched
    else if options.no_dupes && not (is_null output)
    then failed (error_duplicate_element element)
    else check_string options element.content (error_required_content_missing element)

-- `gdata_parser_string_from_json_member`
unfoldable pub string_from_json_member :
    JsonMember → Text → ParserOptions → Option Text → Parsed (Option Text)
unfolding check_string
string_from_json_member reader member_name options output =
    if not (is_name reader.member_name member_name)
    then unmatched
    else if options.no_dupes && not (is_null output)
    then aborted
    else elim reader.string_error [
      | some message ↦ failed (parser_error_from_json_error message)
      | none ↦ check_string options reader.string_value (error_required_json_content_missing reader)
    ]

-- GLib's `g_time_val_from_iso8601`, the seconds of the time it reads, is a parameter.
module _ (time_from_iso8601 : Text → Option ℤ) where
  -- A NULL string is no time.
  abbrev pub time_of : Option Text → Option ℤ
  time_of none = none
  time_of (some t) = time_from_iso8601 t

  abbrev pub check_time : ParserOptions → Option Text → ParserError → ParserError → Parsed ℤ
  check_time options text missing unreadable =
      if options.required && (is_null text || is_empty text)
      then failed missing
      else elim (time_of text) [ none ↦ failed unreadable | some t ↦ parsed t none ]

  -- `gdata_parser_int64_time_from_element`
  unfoldable pub int64_time_from_element : Element → Text → ParserOptions → ℤ → Parsed ℤ
  int64_time_from_element element element_name options output =
      if not (text_eq element.name element_name)
      then unmatched
      else if options.no_dupes && not (is_minus_one output)
      then failed (error_duplicate_element element)
      else check_time options element.content (error_required_content_missing element)
          (error_not_iso8601_format element element.content)

  -- `gdata_parser_int64_time_from_json_member`
  unfoldable pub int64_time_from_json_member : JsonMember → Text → ParserOptions → ℤ → Parsed ℤ
  int64_time_from_json_member reader member_name options output =
      if not (is_name reader.member_name member_name)
      then unmatched
      else if options.no_dupes && not (is_minus_one output)
      then aborted
      else elim reader.string_error [
        | some message ↦ failed (parser_error_from_json_error message)
        | none ↦
            check_time options reader.string_value (error_required_json_content_missing reader)
              (error_not_iso8601_format_json reader reader.string_value)
      ]

-- `gdata_parser_boolean_from_json_member`
unfoldable pub boolean_from_json_member : JsonMember → Text → Parsed Bool
boolean_from_json_member reader member_name =
    if not (is_name reader.member_name member_name) then unmatched else elim reader.boolean_error [
      | some message ↦ failed (parser_error_from_json_error message)
      | none ↦ parsed reader.boolean_value none
    ]

-- The object that an element is read into is made by its class: `_gdata_parsable_new_from_xml_node`
-- gives the object, or NULL and an error.
pub data Made {ℓ} (A : Type ℓ) : Type ℓ where
  made : A → Made A
  not_made : ParserError → Made A

module _ {A : Type 0} (new_from_xml_node : Element → Made A) where
  -- `gdata_parser_object_from_element`. Where the object is not required, NULL is stored and the
  -- call succeeds, and the error that was set stays.
  unfoldable pub object_from_element : Element → Text → ParserOptions → Option A → Parsed (Option A)
  object_from_element element element_name options output =
      if not (text_eq element.name element_name)
      then unmatched
      else if options.no_dupes && not (is_null output)
      then failed (error_duplicate_element element)
      else elim (new_from_xml_node element) [
        | made a ↦ parsed (some a) none
        | not_made e ↦ if options.required then failed e else parsed none (some e)
      ]

  -- `gdata_parser_object_from_element_setter`: the output is the argument of the setter's call.
  unfoldable pub object_from_element_setter : Element → Text → ParserOptions → Parsed (Option A)
  object_from_element_setter element element_name options =
      if not (text_eq element.name element_name)
      then unmatched
      else elim (new_from_xml_node element) [
        | made a ↦ parsed (some a) none
        | not_made e ↦ if options.required then failed e else parsed none (some e)
      ]
