-- ===== src/Download/Places/Backward.antt =====
-- `gdata_download_stream_seek` of gdata/gdata-download-stream.c back to a place behind the stream, and
-- the seek as a whole.
use libgdata.Base.{
  ℕ, ◌≡◌, refl, ap, ◌∙◌, ◌⊎◌, inl, inr, Bool, true, false, not, ◌&&◌, ◌||◌, none, some, List, ◌++◌,
  Text, arith, Bool-cases, Option-cases, if◌then◌else◌,
}
use libgdata.Base.Int.{ℤ, pos, negsuc, le_ℤ}
use libgdata.Buffer.{ok, blocked, ◌>>=◌}
use libgdata.Buffer.Wait.{Event, run_events}
use libgdata.Buffer.Blocking.{concat_events}
use libgdata.Download.{Download, not_supported, pending}
use libgdata.Download.Closing.{Seen, await_thread, settle_close, tidy_up, close, close_running}
use libgdata.Download.Seeking.{
  SeekType, SeekContext, absolute, is_end, is_unknown, skip_forward, finish_back, seek_to, seek,
}
use libgdata.Download.Position.{Positioned}
use libgdata.Download.Places.{
  SeekResult, GoesOn, at_once, woken, back, back_cancelled, still_running, waiting_back,
  SeekResult-forward,
}

module _ (content : Text) (later : List Event) (o : ℕ) (x : SeekContext) (d : Download)
    (s : Positioned content (concat_events x.wakes ++ later) o d) where
  -- The close that a seek back makes; `last` is whether the thread has finished by its end.
  SeekResult-settled :
      (target : ℤ) (c : Seen) (last : Bool) (d' : Download)
      → x.closing.last ≡ last
      → le_ℤ (pos o) target ≡ false
      → GoesOn x.closing c
      → d'.offset ≡ pos o
      → d'.buffer ≡ some s.buffer
      → d'.has_thread ≡ true
      → SeekResult content later o x d s target
          (ok (finish_back target (settle_close last c d').0 (settle_close last c d').1))
  unfolding settle_close finish_back
  SeekResult-settled target c last d' same behind goes place held runs =
      elim (Bool-cases (not c.is_finished && c.is_cancelled)) [
        | inl stop ↦ rw stop (
            back_cancelled (record d' { finished = last }) c behind goes (ground arith)
              (ground arith) place held runs)
        | inr on ↦ rw on (tidied last same on)
      ]
    where
      tidied :
          (last : Bool)
          → x.closing.last ≡ last
          → (not c.is_finished && c.is_cancelled) ≡ false
          → SeekResult content later o x d s target (
              ok (
                record (tidy_up (record d' { finished = last })) {
                  offset = target;
                  finished = false;
                },
                none,
              ))
      tidied true same on =
          back
            (record (tidy_up (record d' { finished = true })) { offset = target; finished = false })
            c behind goes on same
            (record { no_thread = refl; no_buffer = refl; at_offset = refl; unfinished = refl })
      tidied false same on =
          still_running
            (record (tidy_up (record d' { finished = false })) {
              offset = target;
              finished = false;
            })
            c behind goes on same

  -- A close waits for ever where it is neither cancelled nor the thread finished, and nothing wakes it.
  await-cases :
      (((x.closing.first.is_finished || x.closing.first.is_cancelled) ≡ false)
        × (x.closing.wake ≡ none)
        × (await_thread x.closing ≡ blocked))
      ⊎ ((c : Seen) × GoesOn x.closing c × (await_thread x.closing ≡ ok c))
  unfolding await_thread
  await-cases = elim (Bool-cases (x.closing.first.is_finished || x.closing.first.is_cancelled)) [
    | inl now ↦ inr (x.closing.first, at_once now, rw now)
    | inr waits' ↦ elim (Option-cases x.closing.wake) [
      | inl never ↦ inl (waits', never, simp (waits', never))
      | inr (c, woke) ↦ inr (c, woken c waits' woke, simp (waits', woke))
    ]
  ]

  SeekResult-back :
      (target : ℤ)
      → le_ℤ (pos o) target ≡ false
      → SeekResult content later o x d s target
          (close_running x.closing d >>= λ r. ok (finish_back target r.0 r.1))
  unfolding close_running
  SeekResult-back target behind = elim await-cases [
    | inl (waits', never, stuck) ↦ rw stuck (waiting_back behind waits' never)
    | inr (c, goes, woke) ↦ rw woke (
        SeekResult-settled target c x.closing.last
          (record d { network_cancelled = d.network_cancelled || not x.closing.first.is_finished })
          refl behind goes s.at_offset s.has_buffer s.runs)
  ]

  close_is_running : close x.closing d ≡ close_running x.closing d
  unfolding close
  close_is_running =
      ap (λ t. if not t then ok (tidy_up d, none) else close_running x.closing d) s.runs

  seek_to_running :
      (target : ℤ)
      → seek_to x target d ≡ (
          if le_ℤ (pos o) target
          then skip_forward x target d.buffer d
          else (close_running x.closing d >>= λ r. ok (finish_back target r.0 r.1)))
  unfolding seek_to
  seek_to_running target =
      ap
        (λ t.
          if not t
          then ok (record d { offset = target }, none)
          else if le_ℤ d.offset target
          then skip_forward x target d.buffer d
          else (close x.closing d >>= λ r. ok (finish_back target r.0 r.1)))
        s.runs
      ∙ ap
          (λ t.
            if le_ℤ t target
            then skip_forward x target d.buffer d
            else (close x.closing d >>= λ r. ok (finish_back target r.0 r.1)))
          s.at_offset
      ∙ ap
          (λ m.
            if le_ℤ (pos o) target
            then skip_forward x target d.buffer d
            else (m >>= λ r. ok (finish_back target r.0 r.1)))
          close_is_running

  seek_free :
      (offset : ℤ) (type : SeekType)
      → (is_end type && is_unknown d.content_length) ≡ false
      → x.is_pending ≡ false
      → seek x offset type d ≡ seek_to x (absolute type offset d) d
  unfolding seek
  seek_free offset type known free =
      ap
        (λ t.
          if t
          then ok (d, some not_supported)
          else if x.is_pending
          then ok (d, some pending)
          else seek_to x (absolute type offset d) d)
        known
      ∙ ap (λ t. if t then ok (d, some pending) else seek_to x (absolute type offset d) d) free

  module _
      (told : (run_events (concat_events x.wakes) s.buffer x.cancelled_before).1 ≡ true
        → x.cancelled_after ≡ true) where
    SeekResult-to : (target : ℤ) → SeekResult content later o x d s target (seek_to x target d)
    SeekResult-to (pos t) = rw seek_to_running (elim (Bool-cases (le_ℤ (pos o) (pos t))) [
      | inl ahead ↦ rw ahead (SeekResult-forward content later o x d s told t (ground arith))
      | inr behind ↦ rw behind (SeekResult-back (pos t) behind)
    ])
    SeekResult-to (negsuc n) =
        let behind : le_ℤ (pos o) (negsuc n) ≡ false = ground arith in
        rw (seek_to_running (negsuc n), behind) (SeekResult-back (negsuc n) behind)

    -- In a stream whose thread runs, a seek that is not refused at once (its length being known where
    -- it goes from the end, and no other operation pending), and that is told of a cancellation, comes
    -- out in one of these ways. Forward, it stands at its target, with the rest of the content to
    -- come; or the content ends first, or it is cancelled: the seek then fails and the offset stays,
    -- though the bytes up to there are gone; or what it would pop, as much as there is up to its length,
    -- lay in the gap of the first chunk, and the buffer is no longer valid; or it waits, the end not
    -- being marked and fewer bytes being pushed than it has to skip. Back, even to a place before the
    -- start, it closes. If the close is not cancelled before it sees the thread finished, and the
    -- thread has finished by its end, the thread is gone and the offset is the target, where the next
    -- read starts a thread; if the thread has not, the seek is a success all the same. If the close is
    -- cancelled before that, the stream stands where it stood, with that error; and if it is not, the
    -- thread runs on and nothing wakes it, it waits.
    pub seek-SeekResult :
        (offset : ℤ) (type : SeekType)
        → (is_end type && is_unknown d.content_length) ≡ false
        → x.is_pending ≡ false
        → SeekResult content later o x d s (absolute type offset d) (seek x offset type d)
    seek-SeekResult offset type known free =
        rw (seek_free offset type known free) (SeekResult-to (absolute type offset d))
