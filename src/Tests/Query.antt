-- ===== src/Tests/Query.antt =====
-- The theorems on gdata/gdata-query.c at concrete queries.
use libgdata.Base.{◌≡◌, refl, true, false, none, some, Text, codes, arith}
use libgdata.Base.Int.{pos}
use libgdata.Query.{Query}
use libgdata.Query.Build.{get_query_uri, query_uri}
use libgdata.Query.Rendering.{base_params}
use libgdata.Query.Split.{params_of, query_uri-params}
use libgdata.Tests.Glib.{letters_only, letters_only-IsDocumented}

-- A query for a text with both separators in it.
abbrev pub cats : Query
cats = record {
  q = some (codes "cats & dogs?");
  categories = some (codes "pets");
  author = none;
  updated_min = pos 1262304000;
  updated_max = pos 1293840000;
  published_min = pos 0;
  published_max = pos 0;
  start_index = 1;
  is_strict = true;
  max_results = 25;
  next_uri = none;
  previous_uri = none;
  use_next_uri = false;
  use_previous_uri = false;
  etag = some (codes "abc");
}

abbrev pub feed : Text
feed = codes "https://www.google.com/feeds"

query_uri-params_example :
    (uri : Text) × (query_uri cats (get_query_uri letters_only cats) feed ≡ some uri)
    × (params_of uri ≡ base_params letters_only cats)
query_uri-params_example =
    query_uri-params letters_only letters_only-IsDocumented cats feed refl refl (omega arith)

-- The same query once a feed has left its page URIs in it.
abbrev paged : Query
paged = record cats {
  next_uri = some (codes "http://a/2");
  previous_uri = some (codes "http://a/0");
}

abbrev last_page : Query
last_page = record cats { previous_uri = some (codes "http://a/0"); use_previous_uri = true }
