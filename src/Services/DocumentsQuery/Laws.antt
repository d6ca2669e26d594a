-- ===== src/Services/DocumentsQuery/Laws.antt =====
-- The URIs and the settings of gdata/services/documents/gdata-documents-query.c.
use libgdata.Base.{
  String, ◌≡◌, refl, ap, ◌∙◌, sym, Bool, true, false, Option, none, some, List, [], ◌∷◌, ◌++◌,
  append_assoc, append-nil, Text, codes, All, All-append, Lacks, arith,
}
use libgdata.Query.Uri.{
  Uri, Glib, IsDocumented, choice_param, append, append_sep, append_param, append_params,
  append_params-append,
}
use libgdata.Query.Build.{append_choice, append_categories, has_question, query_uri}
use libgdata.Query.Rendering.{base_params, category_path, append_two, get_query_uri_lem}
use libgdata.Query.Split.{
  params_of, params_of-append_params, base_params-Lacks, category_path-Lacks, append_categories_lem,
  choice_param-Lacks, has_question-Lacks,
}
use libgdata.Services.DocumentsQuery.{
  DocumentsQuery, Setting, prop_show_deleted, prop_show_folders, prop_folder_id, prop_exact_title,
  prop_title, set_property, append_more, append_addresses, append_title, append_folder,
  append_show_folders, get_query_uri, joined, addresses_param, title_param, folder_path, own_params,
}

-- Adjacent appends.
pub append-append : (u : Uri) (s t : Text) → append (append u s) t ≡ append u (s ++ t)
unfolding append
append-append u s t = λ i. record { text = append_assoc u.text s t i; started = u.started }

pub append_empty : (u : Uri) → append u [] ≡ u
unfolding append
append_empty u = λ i. record { text = append-nil u.text i; started = u.started }

-- A raw `&` behind a parameter starts another.
pub append_amp :
    (u : Uri) (p t : Text)
    → append (append (append_sep u) p) (b'&' ∷ t) ≡ append_param (append_param u p) t
unfolding append_param append append_sep
append_amp u p t = λ i. record {
  text = sym (append_assoc (append_param u p).text (b'&' ∷ []) t) i;
  started = true;
}

-- The branches of this class that the parent class has not.
module _ (glib : Glib) where
  append_more_lem :
      (u : Uri) (as' : List Text) → append_more glib u as' ≡ append u (joined glib as')
  unfolding append_more
  append_more_lem u [] = sym (append_empty u)
  append_more_lem u (a ∷ more) =
      append_more_lem (append (append u (codes ";")) (glib.uri_escaped a none)) more
      ∙ simp (append-append, append_assoc)

  append_addresses_lem :
      (u : Uri) (name : String) (as' : List Text)
      → append_addresses glib u name as' ≡ append_params u (addresses_param glib name as')
  unfolding append_addresses append_params append_param
  append_addresses_lem u name [] = refl
  append_addresses_lem u name (a ∷ more) =
      append_more_lem (append (append (append_sep u) (codes name)) (glib.uri_escaped a none)) more
      ∙ simp append_assoc

  append_title_lem :
      (u : Uri) (t : Option Text) (exact : Bool)
      → append_title glib u t exact ≡ append_params u (title_param glib t exact)
  unfolding append_title append_params
  append_title_lem u none exact = refl
  append_title_lem u (some t) false = append_two u (codes "title=") (glib.uri_escaped t none)
  append_title_lem u (some t) true =
      ap (λ v. append v (codes "&title-exact=true"))
        (append-append (append_sep u) (codes "title=") (glib.uri_escaped t none))
      ∙ append_amp u (codes "title=" ++ glib.uri_escaped t none) (codes "title-exact=true")

  append_show_lem :
      (u : Uri) (deleted folders : Bool)
      → append_show_folders glib
          (append_choice u "showdeleted=true" "showdeleted=false" deleted)
          folders
        ≡ append_params u (
            choice_param "showdeleted=true" "showdeleted=false" deleted
            ++ choice_param "showfolders=true" "showfolders=false" folders)
  unfolding append_show_folders append_choice append_params
  append_show_lem u true true = append_amp u (codes "showdeleted=true") (codes "showfolders=true")
  append_show_lem u true false = append_amp u (codes "showdeleted=true") (codes "showfolders=false")
  append_show_lem u false true = append_amp u (codes "showdeleted=false") (codes "showfolders=true")
  append_show_lem u false false =
      append_amp u (codes "showdeleted=false") (codes "showfolders=false")

  get_query_uri-append_params :
      (self : DocumentsQuery) (u : Uri)
      → get_query_uri glib self u
        ≡ append_params
            (append_categories glib (append_folder glib u self.folder_id) self.base.categories)
            (base_params glib self.base ++ own_params glib self)
  unfolding get_query_uri own_params
  get_query_uri-append_params self u = simp (
    append_show_lem, append_title_lem, append_addresses_lem, get_query_uri_lem,
    append_params-append, append_assoc,
  )

  append_folder_lem :
      (feed : Text) (o : Option Text)
      → append_folder glib (record { text = feed; started = false }) o
        ≡ record { text = feed ++ folder_path glib o; started = false }
  unfolding append_folder append
  append_folder_lem feed none = λ i. record { text = sym (append-nil feed) i; started = false }
  append_folder_lem feed (some t) = λ i. record {
    text = append_assoc feed (codes "/folder%3A") (glib.uri_escaped t none) i;
    started = false;
  }

module _ (glib : Glib) (documented : IsDocumented glib) where
  joined-Lacks : (as' : List Text) → Lacks b'&' (joined glib as')
  joined-Lacks [] = tt
  joined-Lacks (a ∷ more) = (
    omega arith,
    All-append _ (glib.uri_escaped a none) (joined glib more) (documented.escaped_amp a)
        (joined-Lacks more),
  )

  addresses_param-Lacks :
      (name : String)
      → Lacks b'&' (codes name)
      → (as' : List Text) → All (Lacks b'&') (addresses_param glib name as')
  addresses_param-Lacks name clean [] = tt
  addresses_param-Lacks name clean (a ∷ more) = (
    All-append _ (codes name) _ clean (
        All-append _ (glib.uri_escaped a none) (joined glib more) (documented.escaped_amp a)
          (joined-Lacks more)),
    tt,
  )

  title_param-Lacks : (t : Option Text) (exact : Bool) → All (Lacks b'&') (title_param glib t exact)
  title_param-Lacks none exact = tt
  title_param-Lacks (some t) true =
      (All-append _ (codes "title=") _ (omega arith) (documented.escaped_amp t), (omega arith, tt))
  title_param-Lacks (some t) false =
      (All-append _ (codes "title=") _ (omega arith) (documented.escaped_amp t), tt)

  own_params-Lacks : (self : DocumentsQuery) → All (Lacks b'&') (own_params glib self)
  unfolding own_params
  own_params-Lacks self =
      All-append _ _ _ (addresses_param-Lacks "writer=" (omega arith) self.collaborator_addresses) (
        All-append _ _ _ (addresses_param-Lacks "reader=" (omega arith) self.reader_addresses) (
          All-append _ _ _ (title_param-Lacks self.title self.exact_title) (
            All-append _ _ _
              (choice_param-Lacks "showdeleted=true" "showdeleted=false" (omega arith) (omega arith)
                self.show_deleted)
              (choice_param-Lacks "showfolders=true" "showfolders=false" (omega arith) (omega arith)
                self.show_folders))))

  folder_path-Lacks : (o : Option Text) → Lacks b'?' (folder_path glib o)
  folder_path-Lacks none = tt
  folder_path-Lacks (some t) =
      All-append _ (codes "/folder%3A") _ (omega arith) (documented.escaped_question t)

  -- For a feed URI with no `?`, the URI of a query that is at no page, cut at `?` and `&`, gives
  -- exactly the parameters of the parent class and then those of this class, whatever its texts and
  -- addresses hold.
  pub documents_query_uri-params :
      (self : DocumentsQuery) (feed : Text)
      → self.base.use_next_uri ≡ false
      → self.base.use_previous_uri ≡ false
      → Lacks b'?' feed
      → (uri : Text) × (query_uri self.base (get_query_uri glib self) feed ≡ some uri)
        × (params_of uri ≡ base_params glib self.base ++ own_params glib self)
  unfolding query_uri
  documents_query_uri-params self feed no_next no_previous plain =
      let started = has_question-Lacks feed plain in
      let u : Uri = record { text = feed; started = has_question feed } in
      (
        (get_query_uri glib self u).text,
        rw (no_next, no_previous) refl,
        rw
            (
              get_query_uri-append_params glib self u,
              started,
              append_folder_lem glib feed self.folder_id,
              append_categories_lem glib documented (feed ++ folder_path glib self.folder_id)
                  self.base.categories,
            )
            (params_of-append_params
              ((feed ++ folder_path glib self.folder_id) ++ category_path glib self.base.categories)
              _ (base_params glib self.base ++ own_params glib self) refl
              (All-append _ (feed ++ folder_path glib self.folder_id) _
                (All-append _ feed _ plain (folder_path-Lacks self.folder_id))
                (category_path-Lacks glib documented self.base.categories))
              (All-append _ _ _ (base_params-Lacks glib documented self.base)
                (own_params-Lacks self))),
      )

abbrev pub etag_after : DocumentsQuery → Setting → Option Text
etag_after self (prop_exact_title v) = self.base.etag
etag_after self s = none

-- Every property drops the ETag when it is set, but "exact-title": that one keeps the ETag, and the
-- rest of the parent object, though it changes the URI of the next request.
documents_query-etag :
    (self : DocumentsQuery) (s : Setting) (exact : Bool)
    → ((set_property self s).base.etag ≡ etag_after self s)
      × ((set_property self (prop_exact_title exact)).base ≡ self.base)
unfolding set_property
documents_query-etag self (prop_show_deleted v) exact = (refl, refl)
documents_query-etag self (prop_show_folders v) exact = (refl, refl)
documents_query-etag self (prop_folder_id v) exact = (refl, refl)
documents_query-etag self (prop_exact_title v) exact = (refl, refl)
documents_query-etag self (prop_title v) exact = (refl, refl)
