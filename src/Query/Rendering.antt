-- ===== src/Query/Rendering.antt =====
-- The URI that gdata/gdata-query.c builds, as a list of parameters.
use libgdata.Base.{
  ℕ, String, ◌≡◌, refl, Bool, true, false, Option, none, some, List, [], ◌++◌, append_assoc, Text,
  codes, ltb, Bool-cases, inl, inr,
}
use libgdata.Base.Int.{ℤ, is_minus_one}
use libgdata.Query.{Query}
use libgdata.Query.Uri.{
  Uri, Glib, append, append_sep, append_param, append_params, append_params-append, escaped_param,
  time_param, count_param, flag_param, choice_param,
}
use libgdata.Query.Build.{
  append_time, append_escaped, append_categories, append_count, append_flag, append_choice,
  get_query_uri,
}

-- A parameter whose name and value are appended one after the other.
pub append_two :
    (u : Uri) (s t : Text) → append (append (append_sep u) s) t ≡ append_param u (s ++ t)
unfolding append append_param
append_two u s t =
    λ i. record { text = append_assoc (append_sep u).text s t i; started = (append_sep u).started }

pub append_count_lem :
    (u : Uri) (name : String) (n : ℕ) → append_count u name n ≡ append_params u (count_param name n)
unfolding append_count append_params append_param
append_count_lem u name n = elim (Bool-cases (ltb 0 n)) [ inl e ↦ rw e | inr e ↦ rw e ]

pub append_flag_lem :
    (u : Uri) (text : String) (b : Bool)
    → append_flag u text b ≡ append_params u (flag_param text b)
unfolding append_flag append_params append_param
append_flag_lem u text true = refl
append_flag_lem u text false = refl

pub append_choice_lem :
    (u : Uri) (on off : String) (b : Bool)
    → append_choice u on off b ≡ append_params u (choice_param on off b)
unfolding append_choice append_params append_param
append_choice_lem u on off true = refl
append_choice_lem u on off false = refl

module _ (glib : Glib) where
  pub append_time_lem :
      (u : Uri) (name : String) (t : ℤ)
      → append_time glib u name t ≡ append_params u (time_param glib name t)
  unfolding append_time append_params
  append_time_lem u name t = elim (Bool-cases (is_minus_one t)) [
    | inl e ↦ rw e
    | inr e ↦ rw e (append_two u (codes name) (glib.iso8601 t))
  ]

  pub append_escaped_lem :
      (u : Uri) (name : String) (o : Option Text)
      → append_escaped glib u name o ≡ append_params u (escaped_param glib name o)
  unfolding append_escaped append_params
  append_escaped_lem u name none = refl
  append_escaped_lem u name (some t) = append_two u (codes name) (glib.uri_escaped t none)

  -- The parameters of a query, in the order of the URI.
  unfoldable pub base_params : Query → List Text
  base_params self =
      escaped_param glib "q=" self.q
      ++ (escaped_param glib "author=" self.author
          ++ (time_param glib "updated-min=" self.updated_min
              ++ (time_param glib "updated-max=" self.updated_max
                  ++ (time_param glib "published-min=" self.published_min
                      ++ (time_param glib "published-max=" self.published_max
                          ++ (count_param "start-index=" self.start_index
                              ++ (flag_param "strict=true" self.is_strict
                                  ++ count_param "max-results=" self.max_results)))))))

  abbrev pub category_path : Option Text → Text
  category_path none = []
  category_path (some t) = codes "/-/" ++ glib.uri_escaped t (some (codes "/"))

  -- The base class appends the categories as a path, and its parameters behind it.
  pub get_query_uri_lem :
      (self : Query) (u : Uri)
      → get_query_uri glib self u
        ≡ append_params (append_categories glib u self.categories) (base_params self)
  unfolding get_query_uri base_params
  get_query_uri_lem self u = simp (
    append_escaped_lem, append_time_lem, append_count_lem, append_flag_lem, append_params-append,
    append_assoc,
  )
