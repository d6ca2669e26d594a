-- ===== src/Services/DocumentsQuery.antt =====
-- gdata/services/documents/gdata-documents-query.c: the query for documents. The list of a role's
-- `GDataGDEmailAddress` objects is the list of their addresses.
pub mod Laws
use libgdata.Base.{
  String, ℕ, zero, suc, Bool, true, false, ◌&&◌, not, Option, none, some, List, [], ◌∷◌, ◌++◌, Text,
  codes, ◌==◌, if◌then◌else◌,
}
use libgdata.Base.Int.{ℤ, pos, negsuc, minus_one, ge_minus_one}
use libgdata.Base.Printf.{print_decimal}
use libgdata.Query
use libgdata.Query.{Query}
use libgdata.Query.Uri.{
  Uri, Glib, append, append_sep, append_param, escaped_param, time_param, count_param, choice_param,
}
use libgdata.Query.Build
use libgdata.Query.Build.{append_escaped, append_time, append_count, append_choice}

-- The parent object, and the private fields.
pub record DocumentsQuery : Type 0 where
  pub base : Query
  pub show_deleted : Bool
  pub show_folders : Bool
  pub exact_title : Bool
  pub folder_id : Option Text
  pub title : Option Text
  pub collaborator_addresses : List Text
  pub reader_addresses : List Text

unfoldable pub drop_etag : DocumentsQuery → DocumentsQuery
unfolding Query.set_etag
drop_etag self = record self { base = Query.set_etag self.base none }

unfoldable pub set_show_deleted : DocumentsQuery → Bool → DocumentsQuery
unfolding drop_etag
set_show_deleted self show_deleted = drop_etag (record self { show_deleted = show_deleted })

unfoldable pub set_show_folders : DocumentsQuery → Bool → DocumentsQuery
unfolding drop_etag
set_show_folders self show_folders = drop_etag (record self { show_folders = show_folders })

unfoldable pub set_folder_id : DocumentsQuery → Option Text → DocumentsQuery
unfolding drop_etag
set_folder_id self folder_id = drop_etag (record self { folder_id = folder_id })

unfoldable pub set_title : DocumentsQuery → Option Text → Bool → DocumentsQuery
unfolding drop_etag
set_title self title exact_title =
    drop_etag (record self { title = title; exact_title = exact_title })

-- The guard `email_address != NULL && *email_address != '\0'` refuses the two first cases.
unfoldable pub add_reader : DocumentsQuery → Option Text → DocumentsQuery
unfolding drop_etag
add_reader self none = self
add_reader self (some []) = self
add_reader self (some (c ∷ s)) =
    drop_etag (record self { reader_addresses = self.reader_addresses ++ (c ∷ s) ∷ [] })

unfoldable pub add_collaborator : DocumentsQuery → Option Text → DocumentsQuery
unfolding drop_etag
add_collaborator self none = self
add_collaborator self (some []) = self
add_collaborator self (some (c ∷ s)) =
    drop_etag (record self { collaborator_addresses = self.collaborator_addresses ++ (c ∷ s) ∷ [] })

-- A property with its value.
pub data Setting : Type 0 where
  prop_show_deleted : Bool → Setting
  prop_show_folders : Bool → Setting
  prop_folder_id : Option Text → Setting
  prop_exact_title : Bool → Setting
  prop_title : Option Text → Setting

unfoldable pub set_property : DocumentsQuery → Setting → DocumentsQuery
unfolding set_show_deleted set_show_folders set_folder_id set_title
set_property self (prop_show_deleted v) = set_show_deleted self v
set_property self (prop_show_folders v) = set_show_folders self v
set_property self (prop_folder_id v) = set_folder_id self v
set_property self (prop_exact_title v) = record self { exact_title = v }
set_property self (prop_title v) = set_title self v true

module _ (glib : Glib) where
  -- The loop over the addresses behind the first.
  unfoldable pub append_more : Uri → List Text → Uri
  append_more u [] = u
  append_more u (a ∷ more) =
      append_more (append (append u (codes ";")) (glib.uri_escaped a none)) more

  -- The block for the addresses of one role.
  unfoldable pub append_addresses : Uri → String → List Text → Uri
  unfolding append_more
  append_addresses u name [] = u
  append_addresses u name (a ∷ more) =
      append_more (append (append (append_sep u) (codes name)) (glib.uri_escaped a none)) more

  unfoldable pub append_title : Uri → Option Text → Bool → Uri
  append_title u none exact = u
  append_title u (some t) true =
      append (append (append (append_sep u) (codes "title=")) (glib.uri_escaped t none))
        (codes "&title-exact=true")
  append_title u (some t) false =
      append (append (append_sep u) (codes "title=")) (glib.uri_escaped t none)

  unfoldable pub append_folder : Uri → Option Text → Uri
  append_folder u none = u
  append_folder u (some t) = append (append u (codes "/folder%3A")) (glib.uri_escaped t none)

  unfoldable pub append_show_folders : Uri → Bool → Uri
  append_show_folders u true = append u (codes "&showfolders=true")
  append_show_folders u false = append u (codes "&showfolders=false")

  unfoldable pub get_query_uri : DocumentsQuery → Uri → Uri
  get_query_uri self u0 =
      let u1 = append_folder u0 self.folder_id in
      let u2 = Build.get_query_uri glib self.base u1 in
      let u3 = append_addresses u2 "writer=" self.collaborator_addresses in
      let u4 = append_addresses u3 "reader=" self.reader_addresses in
      let u5 = append_title u4 self.title self.exact_title in
      let u6 = append_choice u5 "showdeleted=true" "showdeleted=false" self.show_deleted in
      append_show_folders u6 self.show_folders

  -- The addresses of a role, each escaped, with `;` between them.
  abbrev pub joined : List Text → Text
  joined [] = []
  joined (a ∷ more) = b';' ∷ (glib.uri_escaped a none ++ joined more)

  abbrev pub addresses_param : String → List Text → List Text
  addresses_param name [] = []
  addresses_param name (a ∷ more) = (codes name ++ (glib.uri_escaped a none ++ joined more)) ∷ []

  abbrev pub title_param : Option Text → Bool → List Text
  title_param none exact = []
  title_param (some t) true =
      (codes "title=" ++ glib.uri_escaped t none) ∷ codes "title-exact=true" ∷ []
  title_param (some t) false = (codes "title=" ++ glib.uri_escaped t none) ∷ []

  abbrev pub folder_path : Option Text → Text
  folder_path none = []
  folder_path (some t) = codes "/folder%3A" ++ glib.uri_escaped t none

  -- The parameters behind those of the parent class.
  unfoldable pub own_params : DocumentsQuery → List Text
  own_params self =
      addresses_param "writer=" self.collaborator_addresses
      ++ (addresses_param "reader=" self.reader_addresses
          ++ (title_param self.title self.exact_title
              ++ (choice_param "showdeleted=true" "showdeleted=false" self.show_deleted
                  ++ choice_param "showfolders=true" "showfolders=false" self.show_folders)))
