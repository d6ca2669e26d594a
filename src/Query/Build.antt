-- ===== src/Query/Build.antt =====
-- `get_query_uri` of gdata/gdata-query.c, which the query classes chain up to, and
-- `gdata_query_get_query_uri`.
use libgdata.Base.{
  String, ℕ, Bool, true, false, Option, none, some, [], ◌∷◌, ◌++◌, Text, codes, ltb, if◌then◌else◌,
  ◌==◌,
}
use libgdata.Base.Int.{ℤ, is_minus_one}
use libgdata.Base.Printf.{print_decimal}
use libgdata.Query.{Query}
use libgdata.Query.Uri.{Uri, Glib, append, append_sep}

module _ (glib : Glib) where
  -- The branch that the four times repeat.
  unfoldable pub append_time : Uri → String → ℤ → Uri
  unfolding append append_sep
  append_time u name t =
      if is_minus_one t then u else append (append (append_sep u) (codes name)) (glib.iso8601 t)

  -- The branch that the escaped texts repeat.
  unfoldable pub append_escaped : Uri → String → Option Text → Uri
  unfolding append append_sep
  append_escaped u name none = u
  append_escaped u name (some t) =
      append (append (append_sep u) (codes name)) (glib.uri_escaped t none)

  unfoldable pub append_categories : Uri → Option Text → Uri
  unfolding append
  append_categories u none = u
  append_categories u (some t) =
      append (append u (codes "/-/")) (glib.uri_escaped t (some (codes "/")))

-- The branch that the two counts repeat.
unfoldable pub append_count : Uri → String → ℕ → Uri
unfolding append append_sep
append_count u name n = if ltb 0 n then append (append_sep u) (codes name ++ print_decimal n) else u

unfoldable pub append_flag : Uri → String → Bool → Uri
unfolding append append_sep
append_flag u text b = if b then append (append_sep u) (codes text) else u

-- The two branches of a flag that is always written.
unfoldable pub append_choice : Uri → String → String → Bool → Uri
unfolding append append_sep
append_choice u on off true = append (append_sep u) (codes on)
append_choice u on off false = append (append_sep u) (codes off)

-- `strstr (feed_uri, "?") != NULL`
unfoldable pub has_question : Text → Bool
has_question [] = false
has_question (c ∷ s) = if c == b'?' then true else has_question s

module _ (glib : Glib) where
  unfoldable pub get_query_uri : Query → Uri → Uri
  get_query_uri self u0 =
      let u1 = append_categories glib u0 self.categories in
      let u2 = append_escaped glib u1 "q=" self.q in
      let u3 = append_escaped glib u2 "author=" self.author in
      let u4 = append_time glib u3 "updated-min=" self.updated_min in
      let u5 = append_time glib u4 "updated-max=" self.updated_max in
      let u6 = append_time glib u5 "published-min=" self.published_min in
      let u7 = append_time glib u6 "published-max=" self.published_max in
      let u8 = append_count u7 "start-index=" self.start_index in
      let u9 = append_flag u8 "strict=true" self.is_strict in
      append_count u9 "max-results=" self.max_results

-- `gdata_query_get_query_uri`; `klass` is the class's `get_query_uri`, applied to the query. A page
-- URI may be NULL.
unfoldable pub query_uri : Query → (Uri → Uri) → Text → Option Text
unfolding has_question
query_uri self klass feed_uri =
    if self.use_next_uri
    then self.next_uri
    else if self.use_previous_uri
    then self.previous_uri
    else some (klass (record { text = feed_uri; started = has_question feed_uri })).text
