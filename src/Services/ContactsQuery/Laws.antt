-- ===== src/Services/ContactsQuery/Laws.antt =====
-- The URIs and the settings of gdata/services/contacts/gdata-contacts-query.c.
use libgdata.Base.{
  ◌≡◌, ◌⊎◌, inr, refl, false, none, some, ◌++◌, append_assoc, Text, All, All-append, Lacks, arith,
}
use libgdata.Query.Uri.{Uri, Glib, IsDocumented, append_params, append_params-append}
use libgdata.Query.Build.{append_categories, has_question, query_uri}
use libgdata.Query.Rendering.{
  base_params, category_path, append_escaped_lem, append_choice_lem, get_query_uri_lem,
}
use libgdata.Query.Split.{
  params_of, params_of-append_params, base_params-Lacks, category_path-Lacks, append_categories_lem,
  escaped_param-Lacks, choice_param-Lacks, has_question-Lacks,
}
use libgdata.Services.ContactsQuery.{
  ContactsQuery, Setting, prop_order_by, prop_show_deleted, prop_sort_order, prop_group,
  set_property, get_query_uri, own_params,
}

module _ (glib : Glib) (documented : IsDocumented glib) where
  own_params-Lacks : (self : ContactsQuery) → All (Lacks b'&') (own_params glib self)
  unfolding own_params
  own_params-Lacks self =
      All-append _ _ _ (escaped_param-Lacks "orderby=" (omega arith) glib documented self.order_by)
        (All-append _ _ _
          (choice_param-Lacks "showdeleted=true" "showdeleted=false" (omega arith) (omega arith)
            self.show_deleted)
          (All-append _ _ _
            (escaped_param-Lacks "sortorder=" (omega arith) glib documented self.sort_order)
            (escaped_param-Lacks "group=" (omega arith) glib documented self.group)))

  get_query_uri-append_params :
      (self : ContactsQuery) (u : Uri)
      → get_query_uri glib self u
        ≡ append_params
            (append_categories glib u self.base.categories)
            (base_params glib self.base ++ own_params glib self)
  unfolding get_query_uri own_params
  get_query_uri-append_params self u =
      simp (
        get_query_uri_lem, append_escaped_lem, append_choice_lem, append_params-append,
        append_assoc,
      )

  -- For a feed URI with no `?`, the URI of a query that is at no page, cut at `?` and `&`, gives
  -- exactly the parameters of the parent class and then those of this class, whatever its texts hold.
  contacts_query_uri-params :
      (self : ContactsQuery) (feed : Text)
      → self.base.use_next_uri ≡ false
      → self.base.use_previous_uri ≡ false
      → Lacks b'?' feed
      → (uri : Text) × (query_uri self.base (get_query_uri glib self) feed ≡ some uri)
        × (params_of uri ≡ base_params glib self.base ++ own_params glib self)
  unfolding query_uri
  contacts_query_uri-params self feed no_next no_previous plain =
      let started = has_question-Lacks feed plain in
      let u : Uri = record { text = feed; started = has_question feed } in
      (
        (get_query_uri glib self u).text,
        rw (no_next, no_previous) refl,
        rw
            (
              get_query_uri-append_params self u,
              started,
              append_categories_lem glib documented feed self.base.categories,
            )
            (params_of-append_params (feed ++ category_path glib self.base.categories) _
              (base_params glib self.base ++ own_params glib self) refl
              (All-append _ feed _ plain (category_path-Lacks glib documented self.base.categories))
              (All-append _ _ _ (base_params-Lacks glib documented self.base)
                (own_params-Lacks self))),
      )

-- A setting is refused and changes nothing, or it drops the ETag.
contacts_query-etag :
    (self : ContactsQuery) (s : Setting)
    → (set_property self s ≡ self) ⊎ ((set_property self s).base.etag ≡ none)
unfolding set_property
contacts_query-etag self (prop_order_by v) = inr refl
contacts_query-etag self (prop_show_deleted v) = inr refl
contacts_query-etag self (prop_sort_order v) = inr refl
contacts_query-etag self (prop_group v) = inr refl
