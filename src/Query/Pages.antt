-- ===== src/Query/Pages.antt =====
-- The pages of gdata/gdata-query.c: the URIs that a feed leaves in its query, and the two steps.
use libgdata.Base.{
  ℕ, ◌+◌, ◌≤◌, ◌<◌, ◌≡◌, Bool, true, false, Option, none, some, Text, leb, ◌==◌, if◌then◌else◌,
  arith,
}
use libgdata.Base.Word.{u32, add32, sub32}
use libgdata.Query.{Query, set_etag}

-- `_gdata_query_set_next_uri` and `_gdata_query_set_previous_uri`
unfoldable pub set_next_uri : Query → Option Text → Query
set_next_uri self next_uri = record self {
  next_uri = next_uri;
  use_next_uri = false;
  use_previous_uri = false;
}

unfoldable pub set_previous_uri : Query → Option Text → Query
set_previous_uri self previous_uri = record self {
  previous_uri = previous_uri;
  use_next_uri = false;
  use_previous_uri = false;
}

abbrev pub is_null : Option Text → Bool
is_null none = true
is_null (some t) = false

-- `gdata_query_next_page`; the index is a `guint`.
unfoldable pub next_page : Query → Query
unfolding set_etag
next_page self =
    set_etag
      (if is_null self.next_uri
        then record self {
          start_index =
              add32 (if self.start_index == 0 then 1 else self.start_index) self.max_results;
        }
        else record self { use_next_uri = true; use_previous_uri = false })
      none

-- `if (priv->start_index == 1) priv->start_index--;`
abbrev pub back : ℕ → ℕ
back i = if i == 1 then 0 else i

-- `gdata_query_previous_page`
unfoldable pub previous_page : Query → Query × Bool
unfolding set_etag
previous_page self =
    if is_null self.previous_uri
    then if leb self.start_index self.max_results then (self, false) else (
      set_etag (record self { start_index = back (sub32 self.start_index self.max_results) }) none,
      true,
    )
    else (set_etag (record self { use_previous_uri = true; use_next_uri = false }) none, true)

-- The first result of a page, counting from 1: the indices 0 and 1 both stand for the first page.
abbrev pub first_result : Query → ℕ
first_result self = if self.start_index == 0 then 1 else self.start_index

-- With no URI from a feed, and an index that does not overflow, a step forward moves the first
-- result by the page size, a step back from there succeeds and returns to it, and both drop the
-- ETag and leave every other field.
previous_page-next_page :
    (self : Query)
    → self.next_uri ≡ none
    → self.previous_uri ≡ none
    → first_result self + self.max_results < u32
    → (first_result (next_page self) ≡ first_result self + self.max_results)
      × ((previous_page (next_page self)).1 ≡ true)
      × ((previous_page (next_page self)).0
          ≡ record self { start_index = back (first_result self); etag = none })
unfolding next_page previous_page
previous_page-next_page self no_next no_previous small = ground arith

-- A step back on the first page, with no URI from a feed, is refused and changes nothing.
previous_page_first :
    (self : Query)
    → self.previous_uri ≡ none
    → first_result self ≤ self.max_results
    → previous_page self ≡ (self, false)
unfolding previous_page
previous_page_first self none_left first = ground arith
