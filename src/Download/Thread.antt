-- ===== src/Download/Thread.antt =====
-- `download_thread` of gdata/gdata-download-stream.c as a whole, and what a pop sees of it.
use libgdata.Base.{
  ◌≡◌, refl, sym, ap, ◌∙◌, Bool, true, false, not, ◌||◌, Option, some, List, [], ◌∷◌, length, ◌==◌,
  Bool-cases, inl, inr, none, arith, if◌then◌else◌,
}
use libgdata.Base.Int.{ℤ, pos, negsuc}
use libgdata.Buffer.{Buffer, Outcome, ok, ◌>>=◌, push_data}
use libgdata.Buffer.Wait.{Event, run_events}
use libgdata.Buffer.Blocking.{run_events-append}
use libgdata.Download.{Download}
use libgdata.Download.Network.{
  NetworkCall, got_headers, got_chunk, chunk, eof_mark, push_to, range, got_headers_cb,
  got_chunk_cb, run_call, run_calls, download_thread, call_events, thread_events,
}
use libgdata.Service.Errors.{Status}

-- What a call of libsoup keeps of the stream, and what it leaves in the buffer.
record Pushes (es : List Event) (b : Buffer) (d d' : Download) : Type 0 where
  has_buffer : d'.buffer ≡ some (run_events es b false).0
  uncancelled : (run_events es b false).1 ≡ false
  same_thread : d'.has_thread ≡ d.has_thread
  same_offset : d'.offset ≡ d.offset

-- The part of the content that a stream at an offset needs: all, or what stands from there on.
abbrev pub wanted : ℤ → Option ℤ
wanted (negsuc n) = none
wanted (pos n) = if n == 0 then none else some (pos n)

pub range-wanted : (offset : ℤ) → range offset ≡ wanted offset
unfolding range
range-wanted (negsuc n) = ground arith
range-wanted (pos n) = ground arith

module _ (is_successful : Status → Bool) where
  run_call-Pushes :
      (c : NetworkCall) (b : Buffer) (d : Download)
      → d.buffer ≡ some b
      → (d' : Download) × (run_call is_successful c d ≡ ok d')
        × Pushes (call_events is_successful c) b d d'
  unfolding run_call call_events got_headers_cb got_chunk_cb push_to run_events
  run_call-Pushes (got_headers status type size) b d h = elim (Bool-cases (is_successful status)) [
    | inl good ↦ (
      record d { content_type = type; content_length = size },
      rw good,
      record { has_buffer = h; uncancelled = refl; same_thread = refl; same_offset = refl },
    )
    | inr bad ↦ (
      d,
      rw bad,
      record { has_buffer = h; uncancelled = refl; same_thread = refl; same_offset = refl },
    )
  ]
  run_call-Pushes (got_chunk status t) b d h =
      elim (Bool-cases (not (is_successful status) || (length t == 0))) [
        | inl ignored ↦ (
          d,
          rw ignored,
          rw ignored (record {
            has_buffer = h;
            uncancelled = refl;
            same_thread = refl;
            same_offset = refl;
          }),
        )
        | inr taken ↦ (
          record d { buffer = some (push_data b (chunk t)).0 },
          rw taken (ap (λ o. push_to o (chunk t) d) h),
          rw taken (record {
            has_buffer = refl;
            uncancelled = refl;
            same_thread = refl;
            same_offset = refl;
          }),
        )
      ]

  -- The thread from its message on, with the range that it asks for.
  abbrev receive : Option ℤ → List NetworkCall → Download → Outcome (Option ℤ × Download)
  receive r cs d = run_calls is_successful cs d >>= λ d'.
      push_to d'.buffer eof_mark d' >>= λ d''. ok (r, record d'' { finished = true })

  receive_lem :
      (r : Option ℤ) (cs : List NetworkCall) (b : Buffer) (d : Download)
      → d.buffer ≡ some b
      → (d' : Download) × (receive r cs d ≡ ok (r, d'))
        × (d'.buffer ≡ some (run_events (thread_events is_successful cs) b false).0)
        × (d'.has_thread ≡ d.has_thread)
        × (d'.offset ≡ d.offset)
        × (d'.finished ≡ true)
  unfolding thread_events run_calls push_to run_events
  receive_lem r [] b d h = (
    record d { buffer = some (push_data b eof_mark).0; finished = true },
    ap (λ o. push_to o eof_mark d >>= λ d'. ok (r, record d' { finished = true })) h,
    refl,
    refl,
    refl,
    refl,
  )
  receive_lem r (c ∷ cs) b d h =
      let (d1, ran, p) = run_call-Pushes c b d h in
      let b1 = (run_events (call_events is_successful c) b false).0 in
      let (d2, received, held, same_thread, same_offset, over) =
        receive_lem r cs b1 d1 p.has_buffer in
      (
        d2,
        ap
              (λ m. (m >>= λ d'. run_calls is_successful cs d') >>= λ d'.
                push_to d'.buffer eof_mark d' >>= λ d''. ok (r, record d'' { finished = true }))
              ran
            ∙ received,
        held
            ∙ ap (λ t. some (run_events (thread_events is_successful cs) b1 t).0)
                (sym p.uncancelled)
            ∙ ap (λ (t : Buffer × Bool). some t.0)
                (sym (
                  run_events-append (call_events is_successful c) (thread_events is_successful cs) b
                    false)),
        same_thread ∙ p.same_thread,
        same_offset ∙ p.same_offset,
        over,
      )

  -- In a stream that has a buffer, and where nobody reads meanwhile, the network thread fails no
  -- assertion: it leaves in the buffer what a pop that saw its pushes would see, asks for the range
  -- from the stream's offset on if that is greater than 0, and for the whole otherwise, marks the stream
  -- as finished, and keeps the thread and the offset.
  pub download_thread-thread_events :
      (cs : List NetworkCall) (b : Buffer) (d : Download)
      → d.buffer ≡ some b
      → (d' : Download) × (download_thread is_successful cs d ≡ ok (wanted d.offset, d'))
        × (d'.buffer ≡ some (run_events (thread_events is_successful cs) b false).0)
        × (d'.has_thread ≡ d.has_thread)
        × (d'.offset ≡ d.offset)
        × (d'.finished ≡ true)
  unfolding download_thread
  download_thread-thread_events cs b d h =
      let (d', received, held, same_thread, same_offset, over) =
        receive_lem (range d.offset) cs b d h in
      (
        d',
        received ∙ ap (λ r. ok (r, d')) (range-wanted d.offset),
        held,
        same_thread,
        same_offset,
        over,
      )
