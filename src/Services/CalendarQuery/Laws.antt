-- ===== src/Services/CalendarQuery/Laws.antt =====
-- The URIs and the settings of gdata/services/calendar/gdata-calendar-query.c.
use libgdata.Base.{
  ◌≡◌, ◌⊎◌, inl, inr, refl, false, none, some, ◌++◌, append_assoc, Text, All, All-append, Lacks,
  Bool-cases, arith,
}
use libgdata.Base.Int.{ge_minus_one}
use libgdata.Query.Uri.{Uri, Glib, IsDocumented, append_params, append_params-append}
use libgdata.Query.Build.{append_categories, has_question, query_uri}
use libgdata.Query.Rendering.{
  base_params, category_path, append_escaped_lem, append_time_lem, append_count_lem,
  append_choice_lem, get_query_uri_lem,
}
use libgdata.Query.Split.{
  params_of, params_of-append_params, base_params-Lacks, category_path-Lacks, append_categories_lem,
  escaped_param-Lacks, time_param-Lacks, count_param-Lacks, choice_param-Lacks, has_question-Lacks,
}
use libgdata.Services.CalendarQuery.{
  CalendarQuery, Setting, prop_future_events, prop_order_by, prop_recurrence_expansion_start,
  prop_recurrence_expansion_end, prop_single_events, prop_sort_order, prop_start_min,
  prop_start_max, prop_timezone, prop_max_attendees, prop_show_deleted, set_property, get_query_uri,
  own_params,
}

module _ (glib : Glib) (documented : IsDocumented glib) where
  own_params-Lacks : (self : CalendarQuery) → All (Lacks b'&') (own_params glib self)
  unfolding own_params
  own_params-Lacks self =
      All-append _ _ _
        (choice_param-Lacks "futureevents=true" "futureevents=false" (omega arith) (omega arith)
          self.future_events)
        (All-append _ _ _
          (escaped_param-Lacks "orderby=" (omega arith) glib documented self.order_by)
          (All-append _ _ _
            (time_param-Lacks "recurrence-expansion-start=" (omega arith) glib documented
              self.recurrence_expansion_start)
            (All-append _ _ _
              (time_param-Lacks "recurrence-expansion-end=" (omega arith) glib documented
                self.recurrence_expansion_end)
              (All-append _ _ _
                (choice_param-Lacks "singleevents=true" "singleevents=false" (omega arith)
                  (omega arith) self.single_events)
                (All-append _ _ _
                  (escaped_param-Lacks "sortorder=" (omega arith) glib documented self.sort_order)
                  (All-append _ _ _
                    (time_param-Lacks "start-min=" (omega arith) glib documented self.start_min)
                    (All-append _ _ _
                      (time_param-Lacks "start-max=" (omega arith) glib documented self.start_max)
                      (All-append _ _ _
                        (escaped_param-Lacks "ctz=" (omega arith) glib documented self.timezone)
                        (All-append _ _ _
                          (count_param-Lacks "max-attendees=" (omega arith) self.max_attendees)
                          (choice_param-Lacks "showdeleted=true" "showdeleted=false" (omega arith)
                            (omega arith) self.show_deleted))))))))))

  get_query_uri-append_params :
      (self : CalendarQuery) (u : Uri)
      → get_query_uri glib self u
        ≡ append_params
            (append_categories glib u self.base.categories)
            (base_params glib self.base ++ own_params glib self)
  unfolding get_query_uri own_params
  get_query_uri-append_params self u = simp (
    get_query_uri_lem, append_escaped_lem, append_time_lem, append_count_lem, append_choice_lem,
    append_params-append, append_assoc,
  )

  -- For a feed URI with no `?`, the URI of a query that is at no page, cut at `?` and `&`, gives
  -- exactly the parameters of the parent class and then those of this class, whatever its texts hold.
  pub calendar_query_uri-params :
      (self : CalendarQuery) (feed : Text)
      → self.base.use_next_uri ≡ false
      → self.base.use_previous_uri ≡ false
      → Lacks b'?' feed
      → (uri : Text) × (query_uri self.base (get_query_uri glib self) feed ≡ some uri)
        × (params_of uri ≡ base_params glib self.base ++ own_params glib self)
  unfolding query_uri
  calendar_query_uri-params self feed no_next no_previous plain =
      let started = has_question-Lacks feed plain in
      let u : Uri = record { text = feed; started = has_question feed } in
      (
        (get_query_uri glib self u).text,
        rw (no_next, no_previous) refl,
        rw
            (
              get_query_uri-append_params self u,
              started,
              append_categories_lem glib documented feed self.base.categories,
            )
            (params_of-append_params (feed ++ category_path glib self.base.categories) _
              (base_params glib self.base ++ own_params glib self) refl
              (All-append _ feed _ plain (category_path-Lacks glib documented self.base.categories))
              (All-append _ _ _ (base_params-Lacks glib documented self.base)
                (own_params-Lacks self))),
      )

-- A setting is refused and changes nothing, or it drops the ETag.
calendar_query-etag :
    (self : CalendarQuery) (s : Setting)
    → (set_property self s ≡ self) ⊎ ((set_property self s).base.etag ≡ none)
unfolding set_property
calendar_query-etag self (prop_future_events v) = inr refl
calendar_query-etag self (prop_order_by v) = inr refl
calendar_query-etag self (prop_recurrence_expansion_start v) = elim (Bool-cases (ge_minus_one v)) [
  | inl e ↦ rw e (inr refl)
  | inr e ↦ rw e (inl refl)
]
calendar_query-etag self (prop_recurrence_expansion_end v) = elim (Bool-cases (ge_minus_one v)) [
  | inl e ↦ rw e (inr refl)
  | inr e ↦ rw e (inl refl)
]
calendar_query-etag self (prop_single_events v) = inr refl
calendar_query-etag self (prop_sort_order v) = inr refl
calendar_query-etag self (prop_start_min v) = elim (Bool-cases (ge_minus_one v)) [
  | inl e ↦ rw e (inr refl)
  | inr e ↦ rw e (inl refl)
]
calendar_query-etag self (prop_start_max v) = elim (Bool-cases (ge_minus_one v)) [
  | inl e ↦ rw e (inr refl)
  | inr e ↦ rw e (inl refl)
]
calendar_query-etag self (prop_timezone v) = inr refl
calendar_query-etag self (prop_max_attendees v) = inr refl
calendar_query-etag self (prop_show_deleted v) = inr refl
