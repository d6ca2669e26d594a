-- ===== src/Parser/Errors.antt =====
-- The nodes that gdata/gdata-parser.c is given, and the errors that it sets. An XML node shows of
-- itself what libxml tells about it; the messages are the untranslated ones.
use libgdata.Base.{Bool, Option, none, some, ◌++◌, Text, codes, text_eq, if◌then◌else◌}

pub record Namespace : Type 0 where
  pub prefix : Option Text
  pub href : Text

-- `is_document` is `type == XML_DOCUMENT_NODE`.
pub record Parent : Type 0 where
  pub is_document : Bool
  pub ns : Option Namespace
  pub name : Text

-- `content` is what `xmlNodeListGetString` gives for the node's children, and `property` is
-- `xmlGetProp`.
pub record Element : Type 0 where
  pub name : Text
  pub ns : Option Namespace
  pub parent : Option Parent
  pub content : Option Text
  pub property : Text → Option Text

-- Every error of the file is a `GDATA_SERVICE_ERROR_PROTOCOL_ERROR`.
pub record ParserError : Type 0 where
  pub message : Text

abbrev pub atom_uri : Text
atom_uri = codes "http://www.w3.org/2005/Atom"

-- The prefix to print in front of a node's name.
unfoldable pub shown_prefix : Option Namespace → Option Text
shown_prefix none = none
shown_prefix (some ns) = if text_eq ns.href atom_uri then none else ns.prefix

abbrev pub qualified : Option Text → Text → Text
qualified none name = name
qualified (some p) name = p ++ (codes ":" ++ name)

unfoldable pub parent_prefix : Parent → Option Text
unfolding shown_prefix
parent_prefix p = if p.is_document then none else shown_prefix p.ns

-- The three forms under a parent: the parent's prefix is shown only beside the node's own.
unfoldable pub print_below : Option Text → Text → Option Text → Text → Text
print_below (some p) parent (some q) name =
    codes "<"
    ++ (p ++ (codes ":" ++ (parent ++ (codes "/" ++ (q ++ (codes ":" ++ (name ++ codes ">")))))))
print_below none parent (some q) name =
    codes "<" ++ (parent ++ (codes "/" ++ (q ++ (codes ":" ++ (name ++ codes ">")))))
print_below p parent none name = codes "<" ++ (parent ++ (codes "/" ++ (name ++ codes ">")))

unfoldable pub print_element : Element → Text
unfolding shown_prefix parent_prefix print_below
print_element node = elim node.parent [
  | none ↦ codes "<" ++ (qualified (shown_prefix node.ns) node.name ++ codes ">")
  | some p ↦ print_below (parent_prefix p) p.name (shown_prefix node.ns) node.name
]

-- A NULL string as `printf` shows it.
abbrev pub or_null : Option Text → Text
or_null none = codes "(null)"
or_null (some t) = t

unfoldable pub error_required_content_missing : Element → ParserError
error_required_content_missing element = record {
  message = codes "A " ++ (print_element element ++ codes " element was missing required content.");
}

unfoldable pub error_not_iso8601_format : Element → Option Text → ParserError
error_not_iso8601_format element actual_value = record {
  message =
      codes "The content of a "
      ++ (print_element element
          ++ (codes " element (\""
              ++ (or_null actual_value ++ codes "\") was not in ISO 8601 format.")));
}

unfoldable pub error_unknown_property_value : Element → Text → Text → ParserError
error_unknown_property_value element property_name actual_value = record {
  message =
      codes "The value of the @"
      ++ (property_name
          ++ (codes " property of a "
              ++ (print_element element
                  ++ (codes " element (\"" ++ (actual_value ++ codes "\") was unknown.")))));
}

unfoldable pub error_required_property_missing : Element → Text → ParserError
error_required_property_missing element property_name = record {
  message =
      codes "A required property of a "
      ++ (print_element element
          ++ (codes " element (@" ++ (property_name ++ codes ") was not present.")));
}

unfoldable pub error_duplicate_element : Element → ParserError
error_duplicate_element element = record {
  message = codes "A singleton element (" ++ (print_element element ++ codes ") was duplicated.");
}

unfoldable pub error_unknown_content : Element → Option Text → ParserError
error_unknown_content element actual_content = record {
  message =
      codes "The content of a "
      ++ (print_element element
          ++ (codes " element (\"" ++ (or_null actual_content ++ codes "\") was unknown.")));
}

unfoldable pub error_mutexed_properties : Element → Text → Text → ParserError
error_mutexed_properties element property1_name property2_name = record {
  message =
      codes "Values were present for properties @"
      ++ (property1_name
          ++ (codes " and @"
              ++ (property2_name
                  ++ (codes " of a "
                      ++ (print_element element
                          ++ codes " element when only one of the two is allowed.")))));
}

-- What the JSON reader says of its current member: the name, and the value or an error message for
-- each of the two types that are asked for.
pub record JsonMember : Type 0 where
  pub member_name : Option Text
  pub string_value : Option Text
  pub string_error : Option Text
  pub boolean_value : Bool
  pub boolean_error : Option Text

unfoldable pub error_required_json_content_missing : JsonMember → ParserError
error_required_json_content_missing reader = record {
  message =
      codes "A '"
      ++ (or_null reader.member_name ++ codes "' element was missing required content.");
}

unfoldable pub error_duplicate_json_element : JsonMember → ParserError
error_duplicate_json_element reader = record {
  message =
      codes "A singleton element (" ++ (or_null reader.member_name ++ codes ") was duplicated.");
}

unfoldable pub error_not_iso8601_format_json : JsonMember → Option Text → ParserError
error_not_iso8601_format_json reader actual_value = record {
  message =
      codes "The content of a '"
      ++ (or_null reader.member_name
          ++ (codes "' element (\""
              ++ (or_null actual_value ++ codes "\") was not in ISO 8601 format.")));
}

unfoldable pub parser_error_from_json_error : Text → ParserError
parser_error_from_json_error message = record {
  message = codes "Invalid JSON was received from the server: " ++ message;
}
