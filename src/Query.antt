-- ===== src/Query.antt =====
-- gdata/gdata-query.c: the state of a `GDataQuery` and its setters. A string property is an
-- `Option Text`, NULL being `none`; a `gint64` time is -1 for none. The notification of a changed
-- property is not modelled: it changes no field.
pub mod Pages
pub mod Uri
pub mod Build
pub mod Rendering
pub mod Split
pub mod Stale
use libgdata.Base.{ℕ, ◌+◌, ◌%◌, Bool, true, false, Option, none, some, Text, if◌then◌else◌}
use libgdata.Base.Int.{ℤ, minus_one, ge_minus_one}

pub record Query : Type 0 where
  pub q : Option Text
  pub categories : Option Text
  pub author : Option Text
  pub updated_min : ℤ
  pub updated_max : ℤ
  pub published_min : ℤ
  pub published_max : ℤ
  pub start_index : ℕ
  pub is_strict : Bool
  pub max_results : ℕ
  pub next_uri : Option Text
  pub previous_uri : Option Text
  pub use_next_uri : Bool
  pub use_previous_uri : Bool
  pub etag : Option Text

-- `gdata_query_init`; the rest is zeroed by the allocator.
unfoldable pub init : Query
init = record {
  q = none;
  categories = none;
  author = none;
  updated_min = minus_one;
  updated_max = minus_one;
  published_min = minus_one;
  published_max = minus_one;
  start_index = 0;
  is_strict = false;
  max_results = 0;
  next_uri = none;
  previous_uri = none;
  use_next_uri = false;
  use_previous_uri = false;
  etag = none;
}

unfoldable pub set_etag : Query → Option Text → Query
set_etag self etag = record self { etag = etag }

unfoldable pub set_q : Query → Option Text → Query
unfolding set_etag
set_q self q = set_etag (record self { q = q }) none

unfoldable pub set_categories : Query → Option Text → Query
unfolding set_etag
set_categories self categories = set_etag (record self { categories = categories }) none

unfoldable pub set_author : Query → Option Text → Query
unfolding set_etag
set_author self author = set_etag (record self { author = author }) none

-- The guard of the four times: `g_return_if_fail (updated_min >= -1)`.
unfoldable pub set_updated_min : Query → ℤ → Query
unfolding set_etag
set_updated_min self updated_min =
    if ge_minus_one updated_min
    then set_etag (record self { updated_min = updated_min }) none
    else self

unfoldable pub set_updated_max : Query → ℤ → Query
unfolding set_etag
set_updated_max self updated_max =
    if ge_minus_one updated_max
    then set_etag (record self { updated_max = updated_max }) none
    else self

unfoldable pub set_published_min : Query → ℤ → Query
unfolding set_etag
set_published_min self published_min =
    if ge_minus_one published_min
    then set_etag (record self { published_min = published_min }) none
    else self

unfoldable pub set_published_max : Query → ℤ → Query
unfolding set_etag
set_published_max self published_max =
    if ge_minus_one published_max
    then set_etag (record self { published_max = published_max }) none
    else self

unfoldable pub set_start_index : Query → ℕ → Query
unfolding set_etag
set_start_index self start_index = set_etag (record self { start_index = start_index }) none

unfoldable pub set_is_strict : Query → Bool → Query
unfolding set_etag
set_is_strict self is_strict = set_etag (record self { is_strict = is_strict }) none

unfoldable pub set_max_results : Query → ℕ → Query
unfolding set_etag
set_max_results self max_results = set_etag (record self { max_results = max_results }) none

-- A property with its value, as `g_object_set` hands them over.
pub data Setting : Type 0 where
  prop_q : Option Text → Setting
  prop_categories : Option Text → Setting
  prop_author : Option Text → Setting
  prop_updated_min : ℤ → Setting
  prop_updated_max : ℤ → Setting
  prop_published_min : ℤ → Setting
  prop_published_max : ℤ → Setting
  prop_start_index : ℕ → Setting
  prop_is_strict : Bool → Setting
  prop_max_results : ℕ → Setting
  prop_etag : Option Text → Setting

-- `gdata_query_set_property`
unfoldable pub set_property : Query → Setting → Query
unfolding set_q set_categories set_author set_updated_min set_updated_max set_published_min
    set_published_max set_start_index set_is_strict set_max_results set_etag
set_property self (prop_q v) = set_q self v
set_property self (prop_categories v) = set_categories self v
set_property self (prop_author v) = set_author self v
set_property self (prop_updated_min v) = set_updated_min self v
set_property self (prop_updated_max v) = set_updated_max self v
set_property self (prop_published_min v) = set_published_min self v
set_property self (prop_published_max v) = set_published_max self v
set_property self (prop_start_index v) = set_start_index self v
set_property self (prop_is_strict v) = set_is_strict self v
set_property self (prop_max_results v) = set_max_results self v
set_property self (prop_etag v) = set_etag self v

-- `gdata_query_new_with_limits`
unfoldable pub new_with_limits : Option Text → ℕ → ℕ → Query
unfolding init set_property
new_with_limits q start_index max_results =
    set_property (set_property (set_property init (prop_q q)) (prop_start_index start_index))
      (prop_max_results max_results)
