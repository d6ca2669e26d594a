-- ===== src/Query/Stale.antt =====
-- What the setters and the page steps of gdata/gdata-query.c leave behind: the ETag, and the flags
-- that choose a page URI.
use libgdata.Base.{◌≡◌, ◌⊎◌, inl, inr, refl, true, false, Option, none, some, Text, Bool-cases}
use libgdata.Base.Int.{ge_minus_one}
use libgdata.Query.{
  Query, Setting, prop_q, prop_categories, prop_author, prop_updated_min, prop_updated_max,
  prop_published_min, prop_published_max, prop_start_index, prop_is_strict, prop_max_results,
  prop_etag, set_property,
}
use libgdata.Query.Pages.{next_page, previous_page}
use libgdata.Query.Uri.{Uri}
use libgdata.Query.Build.{query_uri}

-- The ETag that a setting leaves, if it is accepted.
abbrev pub etag_after : Setting → Option Text
etag_after (prop_etag v) = v
etag_after s = none

-- A setting is refused and changes nothing, or it drops the ETag that the query had (setting the
-- ETag itself puts the new one); either way the page URIs and the flags that choose one stay.
set_property-etag :
    (self : Query) (s : Setting)
    → ((set_property self s ≡ self) ⊎ ((set_property self s).etag ≡ etag_after s))
      × ((set_property self s).next_uri ≡ self.next_uri)
      × ((set_property self s).previous_uri ≡ self.previous_uri)
      × ((set_property self s).use_next_uri ≡ self.use_next_uri)
      × ((set_property self s).use_previous_uri ≡ self.use_previous_uri)
unfolding set_property
set_property-etag self (prop_q v) = (inr refl, refl, refl, refl, refl)
set_property-etag self (prop_categories v) = (inr refl, refl, refl, refl, refl)
set_property-etag self (prop_author v) = (inr refl, refl, refl, refl, refl)
set_property-etag self (prop_start_index v) = (inr refl, refl, refl, refl, refl)
set_property-etag self (prop_is_strict v) = (inr refl, refl, refl, refl, refl)
set_property-etag self (prop_max_results v) = (inr refl, refl, refl, refl, refl)
set_property-etag self (prop_etag v) = (inr refl, refl, refl, refl, refl)
set_property-etag self (prop_updated_min v) = elim (Bool-cases (ge_minus_one v)) [
  | inl e ↦ rw e (inr refl, refl, refl, refl, refl)
  | inr e ↦ rw e (inl refl, refl, refl, refl, refl)
]
set_property-etag self (prop_updated_max v) = elim (Bool-cases (ge_minus_one v)) [
  | inl e ↦ rw e (inr refl, refl, refl, refl, refl)
  | inr e ↦ rw e (inl refl, refl, refl, refl, refl)
]
set_property-etag self (prop_published_min v) = elim (Bool-cases (ge_minus_one v)) [
  | inl e ↦ rw e (inr refl, refl, refl, refl, refl)
  | inr e ↦ rw e (inl refl, refl, refl, refl, refl)
]
set_property-etag self (prop_published_max v) = elim (Bool-cases (ge_minus_one v)) [
  | inl e ↦ rw e (inr refl, refl, refl, refl, refl)
  | inr e ↦ rw e (inl refl, refl, refl, refl, refl)
]

-- With the page URIs of a feed in the query, a step to the next page makes its URI the one for the
-- next page, and a step to the previous page the one for the previous; going there and back ends at
-- the URI of the last step. No other field counts.
query_uri-page :
    (self : Query) (next previous : Text) (klass : Uri → Uri) (feed_uri : Text)
    → self.next_uri ≡ some next
    → self.previous_uri ≡ some previous
    → (query_uri (next_page self) klass feed_uri ≡ some next)
      × (query_uri (previous_page self).0 klass feed_uri ≡ some previous)
      × (query_uri (previous_page (next_page self)).0 klass feed_uri ≡ some previous)
      × (query_uri (next_page (previous_page self).0) klass feed_uri ≡ some next)
unfolding query_uri next_page previous_page
query_uri-page self next previous klass feed_uri has_next has_previous =
    simp (has_next, has_previous) (refl, refl, refl, refl)

-- At the previous page of a feed that gave no URI for a next page, a step forward moves the start
-- index and yet leaves the query's URI the one of the previous page: the flag is not cleared.
next_page_stuck :
    (self : Query) (klass : Uri → Uri) (feed_uri : Text)
    → self.next_uri ≡ none
    → self.use_previous_uri ≡ true
    → self.use_next_uri ≡ false
    → query_uri (next_page self) klass feed_uri ≡ self.previous_uri
unfolding query_uri next_page
next_page_stuck self klass feed_uri no_next at_previous not_next =
    simp (no_next, at_previous, not_next)
