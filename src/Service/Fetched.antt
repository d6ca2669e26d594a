-- ===== src/Service/Fetched.antt =====
-- What `__gdata_service_query` of gdata/gdata-service.c hands back, and what it leaves in the query.
use libgdata.Base.{
  ℕ, ◌≤◌, ◌≡◌, refl, ap, inl, inr, Bool, true, false, Option, none, some, [], Text, arith,
  Option-cases,
}
use libgdata.Query.{Query, set_etag}
use libgdata.Query.Pages.{set_next_uri, set_previous_uri}
use libgdata.Query.Uri.{Uri}
use libgdata.Service.{Surroundings, Exchange, exchange_for, send_message}
use libgdata.Service.Entries.{Request, ServiceState, Answer, entry, unparsable, failed}
use libgdata.Service.Errors.{Status, code, is_code}
use libgdata.Service.Feeds.{
  Feed, etag_from, next_from, previous_from, update_query, update_given, is_json, feed_request,
  read_feed, query_feed,
}
use libgdata.Service.Querying.{
  QueryResult, got, not_modified, stopped, refused, overwritten, send_query-QueryResult,
}
use libgdata.Service.Sending.{IsDocumented}

abbrev pub or_else : Option Text → Option Text → Option Text
or_else none t = t
or_else (some s) t = some s

-- A query behind a feed: what the feed names is in it, and what the feed does not name is as it was.
pub data QueryUpdate (feed : Feed) : Option Query → Option Query → Type 0 where
  absent : QueryUpdate feed none none
  updated :
      (q q' : Query)
      → q'.etag ≡ or_else feed.etag q.etag
      → q'.next_uri ≡ or_else feed.next_link q.next_uri
      → q'.previous_uri ≡ or_else feed.previous_link q.previous_uri
      → q'.start_index ≡ q.start_index
      → QueryUpdate feed (some q) (some q')

update_query_lem :
    (e n p : Option Text) (q : Query)
    → ((previous_from p (next_from n (etag_from e q))).etag ≡ or_else e q.etag)
      × ((previous_from p (next_from n (etag_from e q))).next_uri ≡ or_else n q.next_uri)
      × ((previous_from p (next_from n (etag_from e q))).previous_uri ≡ or_else p q.previous_uri)
      × ((previous_from p (next_from n (etag_from e q))).start_index ≡ q.start_index)
unfolding set_etag set_next_uri set_previous_uri
update_query_lem none none none q = (refl, refl, refl, refl)
update_query_lem none none (some v) q = (refl, refl, refl, refl)
update_query_lem none (some u) none q = (refl, refl, refl, refl)
update_query_lem none (some u) (some v) q = (refl, refl, refl, refl)
update_query_lem (some t) none none q = (refl, refl, refl, refl)
update_query_lem (some t) none (some v) q = (refl, refl, refl, refl)
update_query_lem (some t) (some u) none q = (refl, refl, refl, refl)
update_query_lem (some t) (some u) (some v) q = (refl, refl, refl, refl)

update_given-QueryUpdate :
    (feed : Feed) (q : Option Query) → QueryUpdate feed q (update_given (entry feed) q)
unfolding update_query
update_given-QueryUpdate feed none = absent
update_given-QueryUpdate feed (some q) =
    let (etag, next, previous, index) =
      update_query_lem feed.etag feed.next_link feed.previous_link q in
    updated q (update_query feed q) etag next previous index

module _ (around : Surroundings) (documented : IsDocumented around)
    (parse : Bool → Text → Option Feed) (content_type : Option Text) (q : Option Query) where
  -- How the query of a feed comes out, by the status `s` and the exchange `x` that its message came
  -- back with, and the query that it leaves: with a feed; with a body that is none; with no message;
  -- or, with a message that has no body, in a failed assertion.
  pub data FeedResult (s : Status) (x : Exchange)
      : Option (Exchange × Answer Feed × Option Query) → Type 0 where
    fetched :
        (body : Text) (feed : Feed) (q' : Option Query)
        → s ≡ code 200
        → x.errors ≡ []
        → x.body ≡ some body
        → parse (is_json content_type) body ≡ some feed
        → QueryUpdate feed q q'
        → FeedResult s x (some (x, entry feed, q'))
    unreadable :
        (body : Text)
        → s ≡ code 200
        → x.errors ≡ []
        → x.body ≡ some body
        → parse (is_json content_type) body ≡ none
        → FeedResult s x (some (x, unparsable, q))
    not_fetched :
        (x' : Exchange)
        → is_code 200 s ≡ false
        → QueryResult around s x false x'
        → FeedResult s x (some (x', failed, q))
    bodiless : s ≡ code 200 → x.errors ≡ [] → x.body ≡ none → FeedResult s x none

  read_feed-message :
      (s : Status) (x : Exchange)
      → s ≡ code 200
      → x.errors ≡ []
      → FeedResult s x (read_feed around parse content_type q (true, x))
  unfolding read_feed
  read_feed-message s x fine clear = elim (Option-cases x.body) [
    | inl nothing ↦ simp nothing (bodiless fine clear nothing)
    | inr (body, there) ↦ elim (Option-cases (parse (is_json content_type) body)) [
      | inl wrong ↦ simp (there, wrong) (unreadable body fine clear there wrong)
      | inr (feed, read) ↦
          simp (there, read)
            (fetched body feed _ fine clear there read (update_given-QueryUpdate feed q))
    ]
  ]

  sends-QueryResult :
      {s : Status} {x : Exchange} {has_message : Bool} {x' : Exchange}
      → QueryResult around s x has_message x'
      → x'.sends ≡ x.sends
  sends-QueryResult (got fine clear) = refl
  sends-QueryResult (not_modified same clear) = refl
  sends-QueryResult (stopped same told) = refl
  sends-QueryResult (refused x' wrong modified live sent told) = sent
  sends-QueryResult (overwritten x' same sent told) = sent

  read_feed-FeedResult :
      {s : Status} {x : Exchange} {has_message : Bool} {x' : Exchange}
      → QueryResult around s x has_message x'
      → FeedResult s x (read_feed around parse content_type q (has_message, x'))
  unfolding read_feed
  read_feed-FeedResult {s = s} {x = x} (got fine clear) = read_feed-message s x fine clear
  read_feed-FeedResult {x = x} (not_modified same clear) =
      not_fetched x (ap (is_code 200) same) (not_modified same clear)
  read_feed-FeedResult {x = x} (stopped same told) =
      not_fetched x (ap (is_code 200) same) (stopped same told)
  read_feed-FeedResult (refused x' wrong modified live sent told) =
      not_fetched x' wrong (refused x' wrong modified live sent told)
  read_feed-FeedResult (overwritten x' same sent told) =
      not_fetched x' (ap (is_code 200) same) (overwritten x' same sent told)

  -- Where the query has a URI, and whatever the server, the network and the authorizer do, the query of
  -- a feed sends at most three messages, and goes by the status that its message came back with. For
  -- 200, and a body that the parser takes, it hands back the feed and sets no error; the query then has
  -- the ETag and the URIs that the feed names, and keeps the others. For a body that the parser refuses
  -- there is no feed, and with no body an assertion fails. For any other status there is no feed, and
  -- the errors are those of the query of a message. Without a feed the query is as it was.
  pub query_feed-FeedResult :
      (self : ServiceState) (domain : Option ℕ) (feed_uri : Text) (klass : Uri → Uri)
      (cancelled : Bool) (request : Request)
      → feed_request around.with_port self domain feed_uri klass q ≡ some request
      → (s : Status) × (x : Exchange) × (send_message around (exchange_for request.uri cancelled)
          ≡ some (s, x))
        × (x.sends ≤ 3)
        × FeedResult s x
            (query_feed around parse self domain feed_uri klass q content_type cancelled)
  unfolding query_feed
  query_feed-FeedResult self domain feed_uri klass cancelled request asked =
      let (s, x, has_message, x', sent, run, few, result) =
        send_query-QueryResult around documented (exchange_for request.uri cancelled) refl in
      (
        s,
        x,
        sent,
        omega (arith, sends-QueryResult result),
        rw asked (rw run (read_feed-FeedResult result)),
      )
