-- ===== src/Services/TasksQuery.antt =====
-- gdata/services/tasks/gdata-tasks-query.c: the query for tasks, with its own parameter names.
pub mod Laws
use libgdata.Base.{
  String, ℕ, Bool, true, false, Option, none, some, List, [], ◌∷◌, ◌++◌, Text, codes, ◌==◌,
  if◌then◌else◌,
}
use libgdata.Base.Int.{ℤ, minus_one, ge_minus_one}
use libgdata.Query
use libgdata.Query.{Query}
use libgdata.Query.Uri.{Uri, Glib, escaped_param, time_param, count_param, choice_param}
use libgdata.Query.Build
use libgdata.Query.Build.{append_escaped, append_time, append_count, append_choice}
use libgdata.Query.Rendering.{base_params}

-- The parent object, and the private fields but for three that no code of the class uses.
pub record TasksQuery : Type 0 where
  pub base : Query
  pub completed_max : ℤ
  pub completed_min : ℤ
  pub due_max : ℤ
  pub due_min : ℤ
  pub show_completed : Bool
  pub show_deleted : Bool
  pub show_hidden : Bool

-- A new object, as the `_init` functions leave it.
unfoldable pub init : TasksQuery
unfolding Query.init
init = record {
  base = Query.init;
  completed_max = minus_one;
  completed_min = minus_one;
  due_max = minus_one;
  due_min = minus_one;
  show_completed = false;
  show_deleted = false;
  show_hidden = false;
}

unfoldable pub set_completed_max : TasksQuery → ℤ → TasksQuery
set_completed_max self completed_max =
    if ge_minus_one completed_max then record self { completed_max = completed_max } else self

unfoldable pub set_completed_min : TasksQuery → ℤ → TasksQuery
set_completed_min self completed_min =
    if ge_minus_one completed_min then record self { completed_min = completed_min } else self

unfoldable pub set_due_max : TasksQuery → ℤ → TasksQuery
set_due_max self due_max = if ge_minus_one due_max then record self { due_max = due_max } else self

unfoldable pub set_due_min : TasksQuery → ℤ → TasksQuery
set_due_min self due_min = if ge_minus_one due_min then record self { due_min = due_min } else self

unfoldable pub set_show_completed : TasksQuery → Bool → TasksQuery
set_show_completed self show_completed = record self { show_completed = show_completed }

unfoldable pub set_show_deleted : TasksQuery → Bool → TasksQuery
set_show_deleted self show_deleted = record self { show_deleted = show_deleted }

unfoldable pub set_show_hidden : TasksQuery → Bool → TasksQuery
set_show_hidden self show_hidden = record self { show_hidden = show_hidden }

-- A property with its value.
pub data Setting : Type 0 where
  prop_completed_max : ℤ → Setting
  prop_completed_min : ℤ → Setting
  prop_due_max : ℤ → Setting
  prop_due_min : ℤ → Setting
  prop_show_completed : Bool → Setting
  prop_show_deleted : Bool → Setting
  prop_show_hidden : Bool → Setting

unfoldable pub set_property : TasksQuery → Setting → TasksQuery
unfolding set_completed_max set_completed_min set_due_max set_due_min set_show_completed
    set_show_deleted set_show_hidden
set_property self (prop_completed_max v) = set_completed_max self v
set_property self (prop_completed_min v) = set_completed_min self v
set_property self (prop_due_max v) = set_due_max self v
set_property self (prop_due_min v) = set_due_min self v
set_property self (prop_show_completed v) = set_show_completed self v
set_property self (prop_show_deleted v) = set_show_deleted self v
set_property self (prop_show_hidden v) = set_show_hidden self v

module _ (glib : Glib) where
  unfoldable pub get_query_uri : TasksQuery → Uri → Uri
  get_query_uri self u0 =
      let u1 = append_count u0 "maxResults=" self.base.max_results in
      let u2 = append_time glib u1 "updatedMin=" self.base.updated_min in
      let u3 = append_time glib u2 "completedMin=" self.completed_min in
      let u4 = append_time glib u3 "completedMax=" self.completed_max in
      let u5 = append_time glib u4 "dueMin=" self.due_min in
      let u6 = append_time glib u5 "dueMax=" self.due_max in
      let u7 = append_choice u6 "showCompleted=true" "showCompleted=false" self.show_completed in
      let u8 = append_choice u7 "showDeleted=true" "showDeleted=false" self.show_deleted in
      append_choice u8 "showHidden=true" "showHidden=false" self.show_hidden

  -- The parameters; those of the parent class are left out.
  unfoldable pub own_params : TasksQuery → List Text
  own_params self =
      count_param "maxResults=" self.base.max_results
      ++ (time_param glib "updatedMin=" self.base.updated_min
          ++ (time_param glib "completedMin=" self.completed_min
              ++ (time_param glib "completedMax=" self.completed_max
                  ++ (time_param glib "dueMin=" self.due_min
                      ++ (time_param glib "dueMax=" self.due_max
                          ++ (choice_param "showCompleted=true" "showCompleted=false"
                                self.show_completed
                              ++ (choice_param "showDeleted=true" "showDeleted=false"
                                    self.show_deleted
                                  ++ (choice_param "showHidden=true" "showHidden=false"
                                      self.show_hidden))))))))
