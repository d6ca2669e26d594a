-- ===== src/Tests/Service.antt =====
-- The theorems on gdata/gdata-service.c with a concrete server.
use libgdata.Base.{
  ℕ, ◌≤◌, ◌≡◌, refl, Bool, true, false, Option, none, some, [], Text, codes, ◌==◌, if◌then◌else◌,
  arith,
}
use libgdata.Service.Errors.{Status, status_none, code, is_none_status}
use libgdata.Service.{Message, Response, Surroundings, Exchange, send_message, send_query}
use libgdata.Service.Sending.{IsDocumented, Reported, is_3xx, send_message_lem}
use libgdata.Service.Querying.{QueryResult, send_query-QueryResult}

abbrev pub number : Status → ℕ
number (code n) = n
number _ = 0

abbrev pub answered_with : ℕ → Option Text → Response
answered_with n location = record {
  status = code n;
  location = location;
  reason = codes "reason";
  body = none;
  cancels = false;
}

-- A redirect, a denial, and then the answer to the refreshed authorization.
abbrev redirecting : ℕ → Message → Response
redirecting n m =
    if n == 0
    then answered_with 302 (some (codes "https://b/"))
    else if n == 1
    then answered_with 401 none
    else answered_with 200 none

abbrev unchanged : ℕ → Message → Response
unchanged n m = answered_with 304 none

abbrev pub server : (ℕ → Message → Response) → Surroundings
server answer = record {
  has_cancellable = true;
  answer = answer;
  is_redirection = is_3xx;
  number = number;
  with_base = λ base location. some location;
  with_port = λ uri. uri;
  refresh = some (true, false);
}

redirecting_answered : (n : ℕ) (m : Message) → is_none_status (redirecting n m).status ≡ false
redirecting_answered n m = ground arith

redirecting-IsDocumented : IsDocumented (server redirecting)
redirecting-IsDocumented = record { answered = redirecting_answered; redirection = λ s. refl }

unchanged-IsDocumented : IsDocumented (server unchanged)
unchanged-IsDocumented = record { answered = λ n m. refl; redirection = λ s. refl }

abbrev pub fresh : Exchange
fresh = record {
  message = record { uri = codes "https://a/"; processed = 1 };
  status = status_none;
  location = none;
  reason = [];
  body = none;
  cancelled = false;
  sends = 0;
  errors = [];
}

send_message_lem_example :
    (s : Status) × (x' : Exchange) × (send_message (server redirecting) fresh ≡ some (s, x'))
    × (x'.sends ≤ 3)
    × Reported s x'.errors
send_message_lem_example = send_message_lem (server redirecting) redirecting-IsDocumented fresh refl

send_query-QueryResult_example :
    (s : Status) × (x0 : Exchange) × (got_message : Bool) × (x' : Exchange) × (send_message
        (server redirecting)
        fresh
      ≡ some (s, x0))
    × (send_query (server redirecting) fresh ≡ some (got_message, x'))
    × (x'.sends ≤ 3)
    × QueryResult (server redirecting) s x0 got_message x'
send_query-QueryResult_example =
    send_query-QueryResult (server redirecting) redirecting-IsDocumented fresh refl
