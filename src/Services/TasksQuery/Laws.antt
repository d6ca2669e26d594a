-- ===== src/Services/TasksQuery/Laws.antt =====
-- The URIs and the settings of gdata/services/tasks/gdata-tasks-query.c.
use libgdata.Base.{
  ◌≡◌, inl, inr, refl, false, some, append_assoc, Text, All, All-append, Lacks, Bool-cases, arith,
}
use libgdata.Base.Int.{ge_minus_one}
use libgdata.Query.Uri.{Uri, Glib, IsDocumented, append_params, append_params-append}
use libgdata.Query.Build.{has_question, query_uri}
use libgdata.Query.Rendering.{append_time_lem, append_count_lem, append_choice_lem}
use libgdata.Query.Split.{
  params_of, params_of-append_params, time_param-Lacks, count_param-Lacks, choice_param-Lacks,
  has_question-Lacks,
}
use libgdata.Services.TasksQuery.{
  TasksQuery, Setting, prop_completed_max, prop_completed_min, prop_due_max, prop_due_min,
  prop_show_completed, prop_show_deleted, prop_show_hidden, set_property, get_query_uri, own_params,
}

module _ (glib : Glib) (documented : IsDocumented glib) where
  own_params-Lacks : (self : TasksQuery) → All (Lacks b'&') (own_params glib self)
  unfolding own_params
  own_params-Lacks self =
      All-append _ _ _ (count_param-Lacks "maxResults=" (omega arith) self.base.max_results) (
        All-append _ _ _
          (time_param-Lacks "updatedMin=" (omega arith) glib documented self.base.updated_min)
          (All-append _ _ _
            (time_param-Lacks "completedMin=" (omega arith) glib documented self.completed_min)
            (All-append _ _ _
              (time_param-Lacks "completedMax=" (omega arith) glib documented self.completed_max)
              (All-append _ _ _
                (time_param-Lacks "dueMin=" (omega arith) glib documented self.due_min)
                (All-append _ _ _
                  (time_param-Lacks "dueMax=" (omega arith) glib documented self.due_max)
                  (All-append _ _ _
                    (choice_param-Lacks "showCompleted=true" "showCompleted=false" (omega arith)
                      (omega arith) self.show_completed)
                    (All-append _ _ _
                      (choice_param-Lacks "showDeleted=true" "showDeleted=false" (omega arith)
                        (omega arith) self.show_deleted)
                      (choice_param-Lacks "showHidden=true" "showHidden=false" (omega arith)
                        (omega arith) self.show_hidden))))))))

  get_query_uri-append_params :
      (self : TasksQuery) (u : Uri)
      → get_query_uri glib self u ≡ append_params u (own_params glib self)
  unfolding get_query_uri own_params
  get_query_uri-append_params self u =
      simp
        (append_time_lem, append_count_lem, append_choice_lem, append_params-append, append_assoc)

  -- For a feed URI with no `?`, the URI of a query that is at no page, cut at `?` and `&`, gives
  -- exactly the parameters of this class, whatever its texts hold.
  tasks_query_uri-params :
      (self : TasksQuery) (feed : Text)
      → self.base.use_next_uri ≡ false
      → self.base.use_previous_uri ≡ false
      → Lacks b'?' feed
      → (uri : Text) × (query_uri self.base (get_query_uri glib self) feed ≡ some uri)
        × (params_of uri ≡ own_params glib self)
  unfolding query_uri
  tasks_query_uri-params self feed no_next no_previous plain =
      let started = has_question-Lacks feed plain in
      let u : Uri = record { text = feed; started = has_question feed } in
      (
        (get_query_uri glib self u).text,
        rw (no_next, no_previous) refl,
        rw (get_query_uri-append_params self u, started)
            (params_of-append_params (feed) _ (own_params glib self) refl plain
              (own_params-Lacks self)),
      )

-- No setting of this class drops the ETag, though the query that the next request makes may differ:
-- the object keeps the ETag, and every other field of the parent class, that it had.
tasks_query-etag_kept : (self : TasksQuery) (s : Setting) → (set_property self s).base ≡ self.base
unfolding set_property
tasks_query-etag_kept self (prop_completed_max v) = elim (Bool-cases (ge_minus_one v)) [
  | inl e ↦ rw e refl
  | inr e ↦ rw e refl
]
tasks_query-etag_kept self (prop_completed_min v) = elim (Bool-cases (ge_minus_one v)) [
  | inl e ↦ rw e refl
  | inr e ↦ rw e refl
]
tasks_query-etag_kept self (prop_due_max v) = elim (Bool-cases (ge_minus_one v)) [
  | inl e ↦ rw e refl
  | inr e ↦ rw e refl
]
tasks_query-etag_kept self (prop_due_min v) = elim (Bool-cases (ge_minus_one v)) [
  | inl e ↦ rw e refl
  | inr e ↦ rw e refl
]
tasks_query-etag_kept self (prop_show_completed v) = refl
tasks_query-etag_kept self (prop_show_deleted v) = refl
tasks_query-etag_kept self (prop_show_hidden v) = refl
