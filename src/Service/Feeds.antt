-- ===== src/Service/Feeds.antt =====
-- `__gdata_service_query` and `gdata_service_query_single_entry` of gdata/gdata-service.c: the query of a
-- feed, and what it leaves in the query for the next one, and the query of one entry.
use libgdata.Base.{
  ℕ, ◌≡◌, refl, ◌∙◌, Bool, true, false, Option, none, some, List, [], ◌∷◌, Text, codes, text_eq,
  arith,
}
use libgdata.Query.{Query, set_etag}
use libgdata.Query.Build.{query_uri}
use libgdata.Query.Pages.{set_next_uri, set_previous_uri, next_page}
use libgdata.Query.Uri.{Uri}
use libgdata.Service.{Surroundings, Exchange, exchange_for, send_query, ◌>>=◌}
use libgdata.Service.Entries.{
  Request, ServiceState, Answer, entry, failed, build_message, of_parse, read_entry,
}

-- What the call reads of a feed: its ETag, and the URIs of its links "next" and "previous".
pub record Feed : Type 0 where
  pub etag : Option Text
  pub next_link : Option Text
  pub previous_link : Option Text

abbrev pub etag_from : Option Text → Query → Query
etag_from none q = q
etag_from (some t) q = set_etag q (some t)

abbrev pub next_from : Option Text → Query → Query
next_from none q = q
next_from (some t) q = set_next_uri q (some t)

abbrev pub previous_from : Option Text → Query → Query
previous_from none q = q
previous_from (some t) q = set_previous_uri q (some t)

-- The end of the call, for a query.
unfoldable pub update_query : Feed → Query → Query
unfolding set_etag set_next_uri set_previous_uri
update_query feed q =
    previous_from feed.previous_link (next_from feed.next_link (etag_from feed.etag q))

abbrev pub update_given : Answer Feed → Option Query → Option Query
update_given (entry feed) (some q) = some (update_query feed q)
update_given a q = q

abbrev pub is_json : Option Text → Bool
is_json none = false
is_json (some t) = text_eq t (codes "application/json")

-- The message: for the URI of the query, if there is one, with its ETag.
unfoldable pub feed_request :
    (Text → Text) → ServiceState → Option ℕ → Text → (Uri → Uri) → Option Query → Option Request
unfolding build_message
feed_request with_port self domain feed_uri klass none =
    some (build_message with_port self domain (codes "GET") feed_uri none false)
feed_request with_port self domain feed_uri klass (some q) = query_uri q klass feed_uri >>= λ uri.
    some (build_message with_port self domain (codes "GET") uri q.etag false)

module _ (around : Surroundings) (parse : Bool → Text → Option Feed) where
  -- The parse of the answer by its content type; `none` is the failed assertion on the body.
  unfoldable pub read_feed :
      Option Text → Option Query → Bool × Exchange → Option (Exchange × Answer Feed × Option Query)
  unfolding update_query
  read_feed content_type q (false, x) = some (x, failed, q)
  read_feed content_type q (true, x) = elim x.body [
    | none ↦ none
    | some body ↦
        let a = of_parse (parse (is_json content_type) body) in some (x, a, update_given a q)
  ]

  -- `__gdata_service_query`, with the query as it leaves it; `content_type` is that of the answer. A
  -- query whose page URI is NULL gives a message for a NULL URI, which is not modelled, and `none`.
  unfoldable pub query_feed :
      ServiceState
      → Option ℕ
      → Text
      → (Uri → Uri)
      → Option Query
      → Option Text
      → Bool
      → Option (Exchange × Answer Feed × Option Query)
  unfolding feed_request read_feed
  query_feed self domain feed_uri klass q content_type cancelled = do
    request ← feed_request around.with_port self domain feed_uri klass q
    r ← send_query around (exchange_for request.uri cancelled)
    read_feed content_type q r

-- `gdata_service_query_single_entry`; `get_entry_uri` is that of the class of the entry.
module _ {ℓ} {E : Type ℓ} (around : Surroundings) (parse : Bool → Text → Option E) where
  unfoldable pub query_single_entry :
      ServiceState
      → Option ℕ
      → (Text → Text)
      → Text
      → (Uri → Uri)
      → Option Query
      → Bool
      → Option (Exchange × Answer E)
  unfolding feed_request
  query_single_entry self domain get_entry_uri entry_id klass q cancelled = do
    request ← feed_request around.with_port self domain (get_entry_uri entry_id) klass q
    r ← send_query around (exchange_for request.uri cancelled)
    read_entry around parse false r

-- The URIs that a client asks for, which steps to the next page each time, and gets these feeds.
unfoldable pub visited : (Uri → Uri) → Text → Query → List Feed → List (Option Text)
unfolding next_page update_query
visited klass feed_uri q [] = []
visited klass feed_uri q (feed ∷ feeds) =
    query_uri (next_page q) klass feed_uri
    ∷ visited klass feed_uri (update_query feed (next_page q)) feeds

abbrev pub link_or : Option Text → Text → Text
link_or none uri = uri
link_or (some next) uri = next

-- The URIs that the feeds name: each stays the one to ask for until a feed names another.
unfoldable pub named : Text → List Feed → List (Option Text)
named uri [] = []
named uri (feed ∷ feeds) = some uri ∷ named (link_or feed.next_link uri) feeds

next_uri-etag_from : (o : Option Text) (q : Query) → (etag_from o q).next_uri ≡ q.next_uri
unfolding set_etag
next_uri-etag_from none q = refl
next_uri-etag_from (some t) q = refl

next_uri-previous_from : (o : Option Text) (q : Query) → (previous_from o q).next_uri ≡ q.next_uri
unfolding set_previous_uri
next_uri-previous_from none q = refl
next_uri-previous_from (some t) q = refl

next_uri-next_page : (q : Query) → (next_page q).next_uri ≡ q.next_uri
unfolding next_page
next_uri-next_page q = ground arith

query_uri-next_page :
    (klass : Uri → Uri) (feed_uri uri : Text) (q : Query)
    → q.next_uri ≡ some uri
    → query_uri (next_page q) klass feed_uri ≡ some uri
unfolding query_uri next_page
query_uri-next_page klass feed_uri uri q h = simp h

next_uri-next_from :
    (o : Option Text) (q : Query) (uri : Text)
    → q.next_uri ≡ some uri
    → (next_from o q).next_uri ≡ some (link_or o uri)
unfolding set_next_uri
next_uri-next_from none q uri h = h
next_uri-next_from (some t) q uri h = refl

next_uri-update_query :
    (feed : Feed) (q : Query) (uri : Text)
    → q.next_uri ≡ some uri
    → (update_query feed q).next_uri ≡ some (link_or feed.next_link uri)
unfolding update_query
next_uri-update_query feed q uri h =
    next_uri-previous_from feed.previous_link (next_from feed.next_link (etag_from feed.etag q))
    ∙ next_uri-next_from feed.next_link (etag_from feed.etag q) uri
        (next_uri-etag_from feed.etag q ∙ h)

-- A client that goes from page to page, whose query has the URI of a next page, asks for the URIs that
-- the feeds name, in order; and a feed with no next page does not end it: the client asks for that
-- page again, and goes on to do so.
pub visited-named :
    (klass : Uri → Uri) (feed_uri uri : Text) (q : Query) (feeds : List Feed)
    → q.next_uri ≡ some uri
    → visited klass feed_uri q feeds ≡ named uri feeds
unfolding visited named
visited-named klass feed_uri uri q [] h = refl
visited-named klass feed_uri uri q (feed ∷ feeds) h =
    let next = next_uri-update_query feed (next_page q) uri (next_uri-next_page q ∙ h) in
    let rest =
      visited-named klass feed_uri (link_or feed.next_link uri) (update_query feed (next_page q))
        feeds next in
    λ i. query_uri-next_page klass feed_uri uri q h i ∷ rest i
