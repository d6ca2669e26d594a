-- ===== src/Upload/Ranges.antt =====
-- The messages of a resumable upload of gdata/gdata-upload-stream.c: `upload_thread` from the first
-- message to the end, and the ranges that the messages' headers name.
use libgdata.Base.{
  ℕ, ◌<◌, ◌≡◌, refl, sym, ap, ◌∙◌, Bool, true, false, ◌&&◌, not, Option, none, some, List, [], ◌∷◌,
  Text, ltb, ◌==◌, Bool-cases, inl, inr, arith, if◌then◌else◌,
}
use libgdata.Base.Word.{u64}
use libgdata.Buffer.{Outcome, ok, assertion, ◌>>=◌}
use libgdata.Service.Errors.{Status, is_code}
use libgdata.Upload.{
  UploadState, initial_request, data_requests, finished, Upload, construct, is_initial,
}
use libgdata.Upload.Writing.{run_callbacks}
use libgdata.Upload.Thread.{
  next_message, Next, again, done, finish_upload, read_answer, Exchange, upload_thread, is_length,
  below_length, at_length,
}
use libgdata.Upload.Returns.{Returns, Returns-bind, Returns-both}
use libgdata.Upload.Bounds.{
  contra, RangesFit, RangesFit-append, InBounds, AreHonest, run_callbacks-InBounds,
}

-- The bounds hold where the upload goes on, and where it has finished.
abbrev pub NextInBounds : ℕ → Next → Type 0
NextInBounds n (again v) = InBounds n v
NextInBounds n (done v) = InBounds n v × (v.state ≡ finished)

abbrev pub WhereAgain : (Upload → Type 0) → Next → Type 0
WhereAgain P (again v) = P v
WhereAgain P (done v) = Unit

-- In each message libsoup reports no more bytes than it has been given.
abbrev pub ExchangesHonest : (Status → Bool) → List Exchange → Upload → Type 0
ExchangesHonest is_successful [] u = Unit
ExchangesHonest is_successful (e ∷ es) u =
    AreHonest e.callbacks u
    × Returns
        (λ v.
          Returns (WhereAgain (ExchangesHonest is_successful es))
            (read_answer is_successful v.state e.status e.location v))
        (run_callbacks e.callbacks u)

module _ (n : ℕ) (few : n < u64) where
  next_message-InBounds :
      (u : Upload) (location : Option Text)
      → u.content_length ≡ some n
      → is_initial u.state ≡ false
      → RangesFit n u.ranges
      → u.total_network_bytes_written < n
      → Returns (InBounds n) (next_message u location)
  unfolding next_message
  next_message-InBounds u location known asked fits more =
      elim (Bool-cases (u.network_bytes_outstanding == 0)) [
        | inl idle ↦
            rw (known, idle)
              (record {
                known = refl;
                small_chunk = omega arith;
                nothing_yet = λ h. contra asked h;
                within_chunk = λ asked. ground arith;
                behind = λ asked. omega arith;
                within_content = λ asked. omega arith;
                at_most = omega arith;
                named =
                    RangesFit-append n u.ranges _ fits
                      (omega arith, omega arith, omega arith, refl);
              })
        | inr busy ↦ rw (known, busy) tt
      ]

  -- A message that has come to its end, with the state that the thread gives it.
  InBounds-finished : (u : Upload) → InBounds n u → InBounds n (record u { state = finished })
  InBounds-finished u inside = record {
    known = inside.known;
    small_chunk = inside.small_chunk;
    nothing_yet = λ h. contra refl h;
    within_chunk = λ h. contra refl h;
    behind = λ h. contra refl h;
    within_content = λ h. contra refl h;
    at_most = inside.at_most;
    named = inside.named;
  }

  next_message-NextInBounds :
      (u : Upload) (location : Option Text)
      → u.content_length ≡ some n
      → is_initial u.state ≡ false
      → RangesFit n u.ranges
      → u.total_network_bytes_written < n
      → Returns (NextInBounds n) (next_message u location >>= λ v. ok (again v))
  next_message-NextInBounds u location known asked fits more =
      Returns-bind (InBounds n) (NextInBounds n) (next_message u location) _
        (next_message-InBounds u location known asked fits more) (λ v h. h)

  finish-NextInBounds :
      (s : UploadState) (u : Upload)
      → InBounds n u
      → Returns (NextInBounds n) (finish_upload (record u { state = s }))
  finish-NextInBounds s u inside = (InBounds-finished u inside, refl)

  -- The answers that the thread goes on after, in the data state.
  continue-NextInBounds :
      (u : Upload) (location : Option Text)
      → InBounds n u
      → is_initial u.state ≡ false
      → Returns (NextInBounds n) (
          if below_length u.total_network_bytes_written u.content_length
            && ltb 0 u.total_network_bytes_written
          then (next_message u location >>= λ v. ok (again v))
          else assertion)
  continue-NextInBounds u location inside asked =
      elim (Bool-cases (
        below_length u.total_network_bytes_written u.content_length
        && ltb 0 u.total_network_bytes_written)) [
          | inl more ↦
              let below : (ltb u.total_network_bytes_written n
                    && ltb 0 u.total_network_bytes_written)
                  ≡ true =
                sym (
                  ap
                    (λ l.
                      below_length u.total_network_bytes_written l
                      && ltb 0 u.total_network_bytes_written)
                    inside.known)
                ∙ more in
              rw more (
                next_message-NextInBounds u location inside.known asked inside.named (ground arith))
          | inr other ↦ rw other tt
        ]

  module _ (is_successful : Status → Bool) (some_content : 0 < n) where
    read_answer-InBounds :
        (s : UploadState) (status : Status) (location : Option Text) (u : Upload)
        → InBounds n u
        → u.state ≡ s
        → Returns (NextInBounds n) (read_answer is_successful s status location u)
    unfolding read_answer
    read_answer-InBounds initial_request status location u inside now =
        let none_yet = inside.nothing_yet (rw now refl) in
        elim (Bool-cases (not (is_successful status))) [
          | inl failed ↦ rw failed (finish-NextInBounds finished u inside)
          | inr accepted ↦ elim (Bool-cases (is_length 0 u.content_length && is_code 201 status)) [
            | inl created ↦ rw (accepted, created) (finish-NextInBounds finished u inside)
            | inr more ↦ elim (Bool-cases (u.total_network_bytes_written == 0)) [
              | inl nothing ↦
                  rw (accepted, more, nothing)
                    (next_message-NextInBounds (record u { state = data_requests }) location
                      inside.known refl inside.named (omega arith))
              | inr something ↦ rw (accepted, more, something) tt
            ]
          ]
        ]
    read_answer-InBounds data_requests status location u inside now =
        elim (Bool-cases (is_code 308 status)) [
          | inl continue ↦ rw continue (continue-NextInBounds u location inside (rw now refl))
          | inr over ↦
              elim (Bool-cases (
                is_successful status
                && not (at_length u.total_network_bytes_written u.content_length))) [
                  | inl short ↦ rw (over, short) tt
                  | inr enough ↦ rw (over, enough) (finish-NextInBounds finished u inside)
                ]
        ]
    read_answer-InBounds finished status location u inside now = tt

    go_on :
        (es : List Exchange) (next : Next) (f : Upload → Outcome Upload)
        → ((v : Upload)
            → ExchangesHonest is_successful es v
            → InBounds n v
            → Returns (λ w. InBounds n w × (w.state ≡ finished)) (f v))
        → NextInBounds n next × WhereAgain (ExchangesHonest is_successful es) next
        → Returns
            (λ w. InBounds n w × (w.state ≡ finished))
            (elim next [ done v ↦ ok v | again v ↦ f v ])
    go_on es (again v) f ih (inside, honest) = ih v honest inside
    go_on es (done v) f ih (inside, t) = inside

    -- The thread of a resumable upload of `n` bytes, of which there is at least one and fewer than
    -- 2^64, where libsoup reports in each message no more bytes than it has been given, and that starts
    -- within the bounds, as a new stream does: if it ends, the upload has finished, at most `n` bytes
    -- are counted as written, and each message's range lies within the content and holds at most
    -- 512 KiB.
    pub upload_thread-InBounds :
        (es : List Exchange) (u : Upload)
        → ExchangesHonest is_successful es u
        → InBounds n u
        → Returns (λ v. InBounds n v × (v.state ≡ finished)) (upload_thread is_successful es u)
    unfolding upload_thread
    upload_thread-InBounds [] u honest inside = tt
    upload_thread-InBounds (e ∷ es) u (here, later) inside =
        Returns-bind
          (λ v.
            InBounds n v
            × Returns (WhereAgain (ExchangesHonest is_successful es))
                (read_answer is_successful v.state e.status e.location v))
          _ (run_callbacks e.callbacks u) _
          (Returns-both (InBounds n) _ (run_callbacks e.callbacks u)
            (run_callbacks-InBounds n few e.callbacks u here inside) later)
          (λ v (inside', later').
            Returns-bind
              (λ next. NextInBounds n next × WhereAgain (ExchangesHonest is_successful es) next) _
              (read_answer is_successful v.state e.status e.location v) _
              (Returns-both (NextInBounds n) _
                (read_answer is_successful v.state e.status e.location v)
                (read_answer-InBounds v.state e.status e.location v inside' refl) later')
              (λ next h.
                go_on es next (upload_thread is_successful es) (upload_thread-InBounds es) h))

-- A new stream for a resumable upload of `n` bytes.
pub construct-InBounds :
    (n : ℕ) (uri : Text) (entry : Option Text) (content_type : Text)
    → InBounds n (construct (some n) uri entry content_type)
unfolding construct
construct-InBounds n uri none content_type = record {
  known = refl;
  small_chunk = omega arith;
  nothing_yet = λ h. refl;
  within_chunk = λ h. contra refl h;
  behind = λ h. contra refl h;
  within_content = λ h. contra refl h;
  at_most = omega arith;
  named = tt;
}
construct-InBounds n uri (some xml) content_type = record {
  known = refl;
  small_chunk = omega arith;
  nothing_yet = λ h. refl;
  within_chunk = λ h. contra refl h;
  behind = λ h. contra refl h;
  within_content = λ h. contra refl h;
  at_most = omega arith;
  named = tt;
}
