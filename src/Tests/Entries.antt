-- ===== src/Tests/Entries.antt =====
-- The theorems on the requests of gdata/gdata-service.c for entries and feeds, at a concrete server.
use libgdata.Base.{
  ◌≡◌, ◌≤◌, refl, Bool, false, Option, none, some, List, [], ◌∷◌, Text, codes, arith,
}
use libgdata.Base.Int.{pos, minus_one}
use libgdata.Query.{Query}
use libgdata.Query.Build.{query_uri}
use libgdata.Service.{Surroundings, Exchange, exchange_for, send_message}
use libgdata.Service.Errors.{Status, deletion, is_code}
use libgdata.Service.Sending.{IsDocumented}
use libgdata.Service.Entries.{
  ServiceState, Request, Entry, delete_request, delete_entry, insert_request, insert_entry,
  update_request, update_entry, Answer,
}
use libgdata.Service.Outcomes.{
  ReplyResult, InsertResult, delete_entry-ReplyResult, insert_entry-InsertResult,
}
use libgdata.Service.Updates.{UpdateResult, update_entry-UpdateResult}
use libgdata.Service.Feeds.{Feed, visited, named, visited-named, feed_request, query_feed}
use libgdata.Service.Fetched.{FeedResult, query_feed-FeedResult}
use libgdata.Service.Uris.{build_uri, has_prefix}
use libgdata.Service.Templates.{
  Piece, literal, escaped_text, plain_text, integer, percent, format_of, arguments_of, render,
  build_uri-render,
}
use libgdata.Tests.Service.{server, answered_with}

abbrev conflicting : Surroundings
conflicting = server (λ n m. answered_with 409 none)

conflicting-IsDocumented : IsDocumented conflicting
conflicting-IsDocumented = record { answered = λ n m. refl; redirection = λ s. refl }

abbrev anonymous : ServiceState
anonymous = record { authorizer = none; api_version = codes "2"; locale = some (codes "en") }

abbrev an_entry : Entry
an_entry = record {
  is_inserted = false;
  self_link = none;
  edit_link = some (codes "https://a/");
  etag = some (codes "e");
  is_json = false;
  shown = codes "<entry/>";
}

abbrev a_request : Request
a_request = record {
  method = codes "DELETE";
  uri = codes "https://a/";
  headers =
      (codes "GData-Version", codes "2")
      ∷ (codes "Accept-Language", codes "en")
      ∷ (codes "If-Match", codes "e")
      ∷ [];
  domain = none;
  body = none;
}

delete_entry-ReplyResult_example :
    (s : Status) × (x0 : Exchange) × (success : Bool) × (x : Exchange) × (send_message conflicting
        (exchange_for (codes "https://a/") false)
      ≡ some (s, x0))
    × (delete_entry conflicting anonymous none an_entry false ≡ some (success, x))
    × (x.sends ≤ 3)
    × ReplyResult conflicting deletion (is_code 200) s x0 success x
unfolding delete_request
delete_entry-ReplyResult_example =
    delete_entry-ReplyResult conflicting conflicting-IsDocumented anonymous none an_entry false
      a_request refl

update_entry-UpdateResult_example :
    (s : Status) × (x : Exchange) × (r : Exchange × Answer Text) × (send_message conflicting
        (exchange_for (codes "https://a/") false)
      ≡ some (s, x))
    × (update_entry conflicting (λ is_json t. some t) anonymous none an_entry false ≡ some r)
    × (r.0.sends ≤ 3)
    × UpdateResult conflicting conflicting-IsDocumented (λ is_json t. some t) an_entry s x r
unfolding update_request
update_entry-UpdateResult_example =
    update_entry-UpdateResult conflicting conflicting-IsDocumented (λ is_json t. some t) an_entry
      anonymous none false
      (record a_request {
        method = codes "PUT";
        body = some (codes "application/atom+xml", codes "<entry/>");
      })
      refl

insert_entry-InsertResult_example :
    InsertResult conflicting conflicting-IsDocumented
      (λ is_json t. some t)
      an_entry
      (send_message conflicting (exchange_for (codes "https://b/") false))
      (insert_entry conflicting
        (λ is_json t. some t)
        anonymous
        none
        (codes "https://b/")
        an_entry
        false)
unfolding insert_request
insert_entry-InsertResult_example =
    insert_entry-InsertResult conflicting conflicting-IsDocumented (λ is_json t. some t) an_entry
      anonymous none (codes "https://b/") false

-- A feed in the middle, and one at the end.
abbrev two_feeds : List Feed
two_feeds =
    record { etag = some (codes "e"); next_link = some (codes "p3"); previous_link = none }
    ∷ record { etag = none; next_link = none; previous_link = some (codes "p2") }
    ∷ []

abbrev at_first_page : Query
at_first_page = record {
  q = none;
  categories = none;
  author = none;
  updated_min = minus_one;
  updated_max = minus_one;
  published_min = minus_one;
  published_max = minus_one;
  start_index = 0;
  is_strict = false;
  max_results = 0;
  next_uri = some (codes "p2");
  previous_uri = none;
  use_next_uri = false;
  use_previous_uri = false;
  etag = none;
}

-- A server that has the first of these feeds.
abbrev feeding : Surroundings
feeding = server (λ n m. record (answered_with 200 none) { body = some (codes "<feed/>") })

feeding-IsDocumented : IsDocumented feeding
feeding-IsDocumented = record { answered = λ n m. refl; redirection = λ s. refl }

abbrev read_first : Bool → Text → Option Feed
read_first is_json t =
    some (record { etag = some (codes "e"); next_link = some (codes "p3"); previous_link = none })

query_feed-FeedResult_example :
    (s : Status) × (x : Exchange) × (send_message feeding (exchange_for (codes "f") false)
      ≡ some (s, x))
    × (x.sends ≤ 3)
    × FeedResult feeding feeding-IsDocumented read_first none (some at_first_page) s x (
        query_feed feeding read_first anonymous none
          (codes "f")
          (λ u. u)
          (some at_first_page)
          none
          false)
unfolding feed_request query_uri
query_feed-FeedResult_example =
    query_feed-FeedResult feeding feeding-IsDocumented read_first none (some at_first_page)
      anonymous none (codes "f") (λ u. u) false
      (record {
        method = codes "GET";
        uri = codes "f";
        headers = (codes "GData-Version", codes "2") ∷ (codes "Accept-Language", codes "en") ∷ [];
        domain = none;
        body = none;
      })
      refl

visited-named_example :
    visited (λ u. u) (codes "f") at_first_page two_feeds ≡ named (codes "p2") two_feeds
visited-named_example = visited-named (λ u. u) (codes "f") (codes "p2") at_first_page two_feeds refl

abbrev pieces : List Piece
pieces =
    plain_text (codes "https:")
    ∷ literal b'/' (λ h. omega arith)
    ∷ integer (pos 12)
    ∷ percent
    ∷ escaped_text (codes "a b")
    ∷ []

build_uri-render_example :
    build_uri (λ t. t) (format_of pieces) (arguments_of pieces)
    ≡ some (some (render (λ t. t) pieces))
unfolding has_prefix render
build_uri-render_example = build_uri-render (λ t. t) pieces refl
