-- ===== src/Parser/Numbers.antt =====
-- The reader of an integer in gdata/gdata-parser.c, and its conversions of dates and times.
use libgdata.Base.{
  ℕ, Bool, false, not, ◌&&◌, ◌||◌, Option, none, some, [], ◌∷◌, ◌++◌, Text, codes, length, text_eq,
  ◌==◌, if◌then◌else◌,
}
use libgdata.Base.Int.{ℤ, pos, negsuc}
use libgdata.Parser.Errors.{
  Element, error_duplicate_element, error_required_content_missing, error_unknown_content,
}
use libgdata.Parser.Element.{
  ParserOptions, Parsed, unmatched, failed, parsed, aborted, is_null, is_empty,
}

abbrev pub int_eq : ℤ → ℤ → Bool
int_eq (pos m) (pos n) = m == n
int_eq (negsuc m) (negsuc n) = m == n
int_eq m n = false

-- `g_ascii_strtoll` in base 10: the value, whether `errno` is set, and how many characters it reads.
pub record Strtoll : Type 0 where
  pub value : ℤ
  pub has_errno : Bool
  pub consumed : ℕ

module _ (strtoll : Text → Strtoll) where
  -- The end of `gdata_parser_int64_from_element`, by the text. For NULL GLib returns without setting
  -- the end pointer that is then read.
  unfoldable pub check_int64 : Element → Option Text → Parsed ℤ
  check_int64 element none = aborted
  check_int64 element (some text) =
      let read = strtoll text in
      if read.has_errno || (read.consumed == 0)
      then failed (error_unknown_content element (some text))
      else parsed read.value none

  -- `gdata_parser_int64_from_element`
  unfoldable pub int64_from_element : Element → Text → ParserOptions → ℤ → ℤ → Parsed ℤ
  unfolding check_int64
  int64_from_element element element_name options output default_output =
      if not (text_eq element.name element_name)
      then unmatched
      else if options.no_dupes && not (int_eq output default_output)
      then failed (error_duplicate_element element)
      else if options.required && (is_null element.content || is_empty element.content)
      then failed (error_required_content_missing element)
      else check_int64 element element.content

-- GLib's reading and writing of a time, by its seconds, are parameters.
module _ (time_from_iso8601 : Text → Option ℤ) (time_to_iso8601 : ℤ → Text) where
  -- `gdata_parser_int64_from_date`
  unfoldable pub int64_from_date : Text → Option ℤ
  int64_from_date date =
      if not (length date == 10) && not (length date == 8)
      then none
      else time_from_iso8601 (date ++ codes "T00:00:00Z")

  -- The text up to the first `Z`, and what follows that; `g_strsplit` at `Z`, in two parts at most.
  unfoldable pub join_at_z : Text → Text → Text
  join_at_z [] between = []
  join_at_z (c ∷ t) between =
      let rest = join_at_z t between in if c == 90 then between ++ t else c ∷ rest

  -- `gdata_parser_int64_to_json_iso8601`
  unfoldable pub int64_to_json_iso8601 : ℤ → Text
  unfolding join_at_z
  int64_to_json_iso8601 time = join_at_z (time_to_iso8601 time) (codes ".000001+00:00")
