-- ===== src/Services/DocumentsUploadQuery.antt =====
-- gdata/services/documents/gdata-documents-upload-query.c: the query that names where a document is
-- uploaded to.
use libgdata.Base.{Bool, true, false, Option, none, some, [], ◌∷◌, ◌++◌, Text, codes}
use libgdata.Service.{◌>>=◌}
use libgdata.Service.Uris
use libgdata.Service.Uris.{string}
pub mod Laws

-- What the query reads of a folder: the URI of its link for resumable uploads, if it has one, and the
-- resource id that the server has given it.
pub record Folder : Type 0 where
  pub upload_link : Option Text
  pub resource_id : Text

pub record DocumentsUploadQuery : Type 0 where
  pub folder : Option Folder
  pub convert : Bool

-- `gdata_documents_upload_query_init`
unfoldable pub init : DocumentsUploadQuery
init = record { folder = none; convert = true }

-- The setters; where the value is the old one, they return at once.
unfoldable pub set_folder : DocumentsUploadQuery → Option Folder → DocumentsUploadQuery
set_folder self folder = record self { folder = folder }

unfoldable pub set_convert : DocumentsUploadQuery → Bool → DocumentsUploadQuery
set_convert self convert = record self { convert = convert }

pub data Setting : Type 0 where
  prop_folder : Option Folder → Setting
  prop_convert : Bool → Setting

-- `gdata_documents_upload_query_set_property`
unfoldable pub set_property : DocumentsUploadQuery → Setting → DocumentsUploadQuery
unfolding set_folder set_convert
set_property self (prop_folder v) = set_folder self v
set_property self (prop_convert v) = set_convert self v

-- `_gdata_service_get_scheme`
abbrev pub get_scheme : Text
get_scheme = codes "https"

-- The URI for a folder with this link and this id; the outer `none` is the end of the program, and the
-- inner one NULL. `escaped` is `g_string_append_uri_escaped` where it leaves UTF-8 alone.
unfoldable pub link_uri : (Text → Text) → Option Text → Text → Option (Option Text)
link_uri escaped none resource_id =
    Uris.build_uri escaped
      (codes "%s://docs.google.com/feeds/upload/create-session/default/private/full/%s/contents")
      (string get_scheme ∷ string resource_id ∷ [])
link_uri escaped (some link) resource_id = some (some link)

-- The base URI.
unfoldable pub base_uri : (Text → Text) → Option Folder → Option (Option Text)
unfolding link_uri
base_uri escaped none = some (
    some
      (get_scheme ++ codes "://docs.google.com/feeds/upload/create-session/default/private/full"))
base_uri escaped (some folder) = link_uri escaped folder.upload_link folder.resource_id

abbrev pub convert_field : Bool → Text
convert_field true = codes "?convert=true"
convert_field false = codes "?convert=false"

-- `g_string_new`, which makes an empty string of NULL.
abbrev pub text_of : Option Text → Text
text_of none = []
text_of (some t) = t

-- `gdata_documents_upload_query_build_uri`
unfoldable pub build_uri : (Text → Text) → DocumentsUploadQuery → Option Text
unfolding base_uri
build_uri escaped self =
    base_uri escaped self.folder >>= λ base. some (text_of base ++ convert_field self.convert)
