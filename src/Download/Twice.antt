-- ===== src/Download/Twice.antt =====
-- `gdata_download_stream_close` of gdata/gdata-download-stream.c, called again.
use libgdata.Base.{
  ◌≡◌, sym, ap, ◌∙◌, Bool, true, false, not, ◌&&◌, ◌||◌, none, some, Bool-cases, inl, inr,
  if◌then◌else◌,
}
use libgdata.Buffer.{Outcome, ok, overrun, assertion, blocked, ◌>>=◌}
use libgdata.Download.{Download, cancelled}
use libgdata.Download.Closing.{
  Seen, CloseContext, tidy_up, settle_close, await_thread, close_running, close,
}

tidy_up_twice : (d : Download) → tidy_up (tidy_up d) ≡ tidy_up d
unfolding tidy_up
tidy_up_twice d = elim (Bool-cases d.finished) [ inl over ↦ simp over | inr on ↦ simp on ]

close_stopped :
    (x : CloseContext) (d : Download) → d.has_thread ≡ false → close x d ≡ ok (tidy_up d, none)
unfolding close
close_stopped x d h = ap (λ t. if not t then ok (tidy_up d, none) else close_running x d) h

close_started :
    (x : CloseContext) (d : Download) → d.has_thread ≡ true → close x d ≡ close_running x d
unfolding close
close_started x d h = ap (λ t. if not t then ok (tidy_up d, none) else close_running x d) h

settle_close-tidy_up :
    (last : Bool) (s : Seen) (d d1 : Download)
    → ok (settle_close last s d) ≡ ok (d1, none)
    → (e : Download) × (d1 ≡ tidy_up e)
unfolding settle_close
settle_close-tidy_up last s d d1 h = elim (Bool-cases (not s.is_finished && s.is_cancelled)) [
  | inl stop ↦
      let wrong : ok (record d { finished = last }, some cancelled) ≡ ok (d1, none) =
        rw stop at h in
      cc
  | inr on ↦
      let tidied : ok (tidy_up (record d { finished = last }), none) ≡ ok (d1, none) = rw on at h in
      (record d { finished = last }, cc)
]

awaited-tidy_up :
    (m : Outcome Seen) (last : Bool) (d d1 : Download)
    → (m >>= λ s. ok (settle_close last s d)) ≡ ok (d1, none)
    → (e : Download) × (d1 ≡ tidy_up e)
awaited-tidy_up (ok s) last d d1 h = settle_close-tidy_up last s d d1 h
awaited-tidy_up overrun last d d1 h = cc
awaited-tidy_up assertion last d d1 h = cc
awaited-tidy_up blocked last d d1 h = cc

close-tidy_up :
    (x : CloseContext) (d d1 : Download)
    → close x d ≡ ok (d1, none)
    → (e : Download) × (d1 ≡ tidy_up e)
unfolding close_running
close-tidy_up x d d1 h = elim (Bool-cases d.has_thread) [
  | inr nobody ↦ let tidied = sym (close_stopped x d nobody) ∙ h in (d, cc)
  | inl runs ↦
      awaited-tidy_up (await_thread x) x.last
        (record d { network_cancelled = d.network_cancelled || not x.first.is_finished }) d1
        (sym (close_started x d runs) ∙ h)
]

-- A close that returns with no error and leaves no thread can be called again, whatever happens
-- meanwhile: the second close returns with no error, and changes nothing.
close_twice :
    (x y : CloseContext) (d d1 : Download)
    → close x d ≡ ok (d1, none)
    → d1.has_thread ≡ false
    → close y d1 ≡ ok (d1, none)
close_twice x y d d1 h gone =
    let (e, tidied) = close-tidy_up x d d1 h in
    close_stopped y d1 gone
    ∙ ap (λ t. ok (t, none)) (ap tidy_up tidied ∙ tidy_up_twice e ∙ sym tidied)
