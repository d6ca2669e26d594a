-- ===== src/Services/CalendarQuery.antt =====
-- gdata/services/calendar/gdata-calendar-query.c: the query for calendar events.
pub mod Laws
use libgdata.Base.{
  String, ℕ, Bool, true, false, Option, none, some, List, [], ◌∷◌, ◌++◌, Text, codes, ◌==◌,
  if◌then◌else◌,
}
use libgdata.Base.Int.{ℤ, minus_one, ge_minus_one}
use libgdata.Query
use libgdata.Query.{Query}
use libgdata.Query.Uri.{Uri, Glib, escaped_param, time_param, count_param, choice_param}
use libgdata.Query.Build
use libgdata.Query.Build.{append_escaped, append_time, append_count, append_choice}
use libgdata.Query.Rendering.{base_params}

-- The parent object, and the private fields.
pub record CalendarQuery : Type 0 where
  pub base : Query
  pub future_events : Bool
  pub order_by : Option Text
  pub recurrence_expansion_start : ℤ
  pub recurrence_expansion_end : ℤ
  pub single_events : Bool
  pub sort_order : Option Text
  pub start_min : ℤ
  pub start_max : ℤ
  pub timezone : Option Text
  pub max_attendees : ℕ
  pub show_deleted : Bool

-- A new object, as the `_init` functions leave it.
unfoldable pub init : CalendarQuery
unfolding Query.init
init = record {
  base = Query.init;
  future_events = false;
  order_by = none;
  recurrence_expansion_start = minus_one;
  recurrence_expansion_end = minus_one;
  single_events = false;
  sort_order = none;
  start_min = minus_one;
  start_max = minus_one;
  timezone = none;
  max_attendees = 0;
  show_deleted = false;
}

-- `gdata_query_set_etag (GDATA_QUERY (self), NULL)`
unfoldable pub drop_etag : CalendarQuery → CalendarQuery
unfolding Query.set_etag
drop_etag self = record self { base = Query.set_etag self.base none }

unfoldable pub set_future_events : CalendarQuery → Bool → CalendarQuery
unfolding drop_etag
set_future_events self future_events = drop_etag (record self { future_events = future_events })

unfoldable pub set_order_by : CalendarQuery → Option Text → CalendarQuery
unfolding drop_etag
set_order_by self order_by = drop_etag (record self { order_by = order_by })

unfoldable pub set_recurrence_expansion_start : CalendarQuery → ℤ → CalendarQuery
unfolding drop_etag
set_recurrence_expansion_start self recurrence_expansion_start =
    if ge_minus_one recurrence_expansion_start
    then drop_etag (record self { recurrence_expansion_start = recurrence_expansion_start })
    else self

unfoldable pub set_recurrence_expansion_end : CalendarQuery → ℤ → CalendarQuery
unfolding drop_etag
set_recurrence_expansion_end self recurrence_expansion_end =
    if ge_minus_one recurrence_expansion_end
    then drop_etag (record self { recurrence_expansion_end = recurrence_expansion_end })
    else self

unfoldable pub set_single_events : CalendarQuery → Bool → CalendarQuery
unfolding drop_etag
set_single_events self single_events = drop_etag (record self { single_events = single_events })

unfoldable pub set_sort_order : CalendarQuery → Option Text → CalendarQuery
unfolding drop_etag
set_sort_order self sort_order = drop_etag (record self { sort_order = sort_order })

unfoldable pub set_start_min : CalendarQuery → ℤ → CalendarQuery
unfolding drop_etag
set_start_min self start_min =
    if ge_minus_one start_min then drop_etag (record self { start_min = start_min }) else self

unfoldable pub set_start_max : CalendarQuery → ℤ → CalendarQuery
unfolding drop_etag
set_start_max self start_max =
    if ge_minus_one start_max then drop_etag (record self { start_max = start_max }) else self

-- The loop that replaces each space of a time zone.
unfoldable pub replace_spaces : Text → Text
replace_spaces [] = []
replace_spaces (c ∷ s) = (if c == b' ' then b'_' else c) ∷ replace_spaces s

abbrev pub underscores : Option Text → Option Text
underscores none = none
underscores (some t) = some (replace_spaces t)

unfoldable pub set_timezone : CalendarQuery → Option Text → CalendarQuery
unfolding drop_etag
set_timezone self timezone = drop_etag (record self { timezone = underscores timezone })

unfoldable pub set_max_attendees : CalendarQuery → ℕ → CalendarQuery
unfolding drop_etag
set_max_attendees self max_attendees = drop_etag (record self { max_attendees = max_attendees })

unfoldable pub set_show_deleted : CalendarQuery → Bool → CalendarQuery
unfolding drop_etag
set_show_deleted self show_deleted = drop_etag (record self { show_deleted = show_deleted })

-- A property with its value.
pub data Setting : Type 0 where
  prop_future_events : Bool → Setting
  prop_order_by : Option Text → Setting
  prop_recurrence_expansion_start : ℤ → Setting
  prop_recurrence_expansion_end : ℤ → Setting
  prop_single_events : Bool → Setting
  prop_sort_order : Option Text → Setting
  prop_start_min : ℤ → Setting
  prop_start_max : ℤ → Setting
  prop_timezone : Option Text → Setting
  prop_max_attendees : ℕ → Setting
  prop_show_deleted : Bool → Setting

unfoldable pub set_property : CalendarQuery → Setting → CalendarQuery
unfolding set_future_events set_order_by set_recurrence_expansion_start set_recurrence_expansion_end
    set_single_events set_sort_order set_start_min set_start_max set_timezone set_max_attendees
    set_show_deleted
set_property self (prop_future_events v) = set_future_events self v
set_property self (prop_order_by v) = set_order_by self v
set_property self (prop_recurrence_expansion_start v) = set_recurrence_expansion_start self v
set_property self (prop_recurrence_expansion_end v) = set_recurrence_expansion_end self v
set_property self (prop_single_events v) = set_single_events self v
set_property self (prop_sort_order v) = set_sort_order self v
set_property self (prop_start_min v) = set_start_min self v
set_property self (prop_start_max v) = set_start_max self v
set_property self (prop_timezone v) = set_timezone self v
set_property self (prop_max_attendees v) = set_max_attendees self v
set_property self (prop_show_deleted v) = set_show_deleted self v

module _ (glib : Glib) where
  unfoldable pub get_query_uri : CalendarQuery → Uri → Uri
  get_query_uri self u0 =
      let u1 = Build.get_query_uri glib self.base u0 in
      let u2 = append_choice u1 "futureevents=true" "futureevents=false" self.future_events in
      let u3 = append_escaped glib u2 "orderby=" self.order_by in
      let u4 = append_time glib u3 "recurrence-expansion-start=" self.recurrence_expansion_start in
      let u5 = append_time glib u4 "recurrence-expansion-end=" self.recurrence_expansion_end in
      let u6 = append_choice u5 "singleevents=true" "singleevents=false" self.single_events in
      let u7 = append_escaped glib u6 "sortorder=" self.sort_order in
      let u8 = append_time glib u7 "start-min=" self.start_min in
      let u9 = append_time glib u8 "start-max=" self.start_max in
      let u10 = append_escaped glib u9 "ctz=" self.timezone in
      let u11 = append_count u10 "max-attendees=" self.max_attendees in
      append_choice u11 "showdeleted=true" "showdeleted=false" self.show_deleted

  -- The parameters behind those of the parent class.
  unfoldable pub own_params : CalendarQuery → List Text
  own_params self =
      choice_param "futureevents=true" "futureevents=false" self.future_events
      ++ (escaped_param glib "orderby=" self.order_by
          ++ (time_param glib "recurrence-expansion-start=" self.recurrence_expansion_start
              ++ (time_param glib "recurrence-expansion-end=" self.recurrence_expansion_end
                  ++ (choice_param "singleevents=true" "singleevents=false" self.single_events
                      ++ (escaped_param glib "sortorder=" self.sort_order
                          ++ (time_param glib "start-min=" self.start_min
                              ++ (time_param glib "start-max=" self.start_max
                                  ++ (escaped_param glib "ctz=" self.timezone
                                      ++ (count_param "max-attendees=" self.max_attendees
                                          ++ (choice_param "showdeleted=true" "showdeleted=false"
                                              self.show_deleted))))))))))
