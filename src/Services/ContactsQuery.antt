-- ===== src/Services/ContactsQuery.antt =====
-- gdata/services/contacts/gdata-contacts-query.c: the query for contacts.
pub mod Laws
use libgdata.Base.{
  String, ℕ, Bool, true, false, Option, none, some, List, [], ◌∷◌, ◌++◌, Text, codes, ◌==◌,
  if◌then◌else◌,
}
use libgdata.Base.Int.{ℤ, minus_one, ge_minus_one}
use libgdata.Query
use libgdata.Query.{Query}
use libgdata.Query.Uri.{Uri, Glib, escaped_param, time_param, count_param, choice_param}
use libgdata.Query.Build
use libgdata.Query.Build.{append_escaped, append_time, append_count, append_choice}
use libgdata.Query.Rendering.{base_params}

-- The parent object, and the private fields.
pub record ContactsQuery : Type 0 where
  pub base : Query
  pub order_by : Option Text
  pub show_deleted : Bool
  pub sort_order : Option Text
  pub group : Option Text

-- A new object, as the `_init` functions leave it.
unfoldable pub init : ContactsQuery
unfolding Query.init
init = record {
  base = Query.init;
  order_by = none;
  show_deleted = false;
  sort_order = none;
  group = none;
}

-- `gdata_query_set_etag (GDATA_QUERY (self), NULL)`
unfoldable pub drop_etag : ContactsQuery → ContactsQuery
unfolding Query.set_etag
drop_etag self = record self { base = Query.set_etag self.base none }

unfoldable pub set_order_by : ContactsQuery → Option Text → ContactsQuery
unfolding drop_etag
set_order_by self order_by = drop_etag (record self { order_by = order_by })

unfoldable pub set_show_deleted : ContactsQuery → Bool → ContactsQuery
unfolding drop_etag
set_show_deleted self show_deleted = drop_etag (record self { show_deleted = show_deleted })

unfoldable pub set_sort_order : ContactsQuery → Option Text → ContactsQuery
unfolding drop_etag
set_sort_order self sort_order = drop_etag (record self { sort_order = sort_order })

unfoldable pub set_group : ContactsQuery → Option Text → ContactsQuery
unfolding drop_etag
set_group self group = drop_etag (record self { group = group })

-- A property with its value.
pub data Setting : Type 0 where
  prop_order_by : Option Text → Setting
  prop_show_deleted : Bool → Setting
  prop_sort_order : Option Text → Setting
  prop_group : Option Text → Setting

unfoldable pub set_property : ContactsQuery → Setting → ContactsQuery
unfolding set_order_by set_show_deleted set_sort_order set_group
set_property self (prop_order_by v) = set_order_by self v
set_property self (prop_show_deleted v) = set_show_deleted self v
set_property self (prop_sort_order v) = set_sort_order self v
set_property self (prop_group v) = set_group self v

module _ (glib : Glib) where
  unfoldable pub get_query_uri : ContactsQuery → Uri → Uri
  get_query_uri self u0 =
      let u1 = Build.get_query_uri glib self.base u0 in
      let u2 = append_escaped glib u1 "orderby=" self.order_by in
      let u3 = append_choice u2 "showdeleted=true" "showdeleted=false" self.show_deleted in
      let u4 = append_escaped glib u3 "sortorder=" self.sort_order in
      append_escaped glib u4 "group=" self.group

  -- The parameters behind those of the parent class.
  unfoldable pub own_params : ContactsQuery → List Text
  own_params self =
      escaped_param glib "orderby=" self.order_by
      ++ (choice_param "showdeleted=true" "showdeleted=false" self.show_deleted
          ++ (escaped_param glib "sortorder=" self.sort_order
              ++ (escaped_param glib "group=" self.group)))
