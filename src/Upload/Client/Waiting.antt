-- ===== src/Upload/Client/Waiting.antt =====
-- `gdata_upload_stream_write` of gdata/gdata-upload-stream.c: how its wait ends, and what it returns.
use libgdata.Base.{
  ℕ, ◌-◌, ◌^◌, ◌≤◌, ◌<◌, ◌≡◌, refl, ap, Bool, true, false, ◌&&◌, List, [], ◌∷◌, ◌++◌, min,
  Bool-cases, inl, inr, arith,
}
use libgdata.Base.Word.{u64, sub64}
use libgdata.Buffer.{Pushed, Outcome, ok, overrun, assertion, blocked, ◌>>=◌}
use libgdata.Upload.{Upload}
use libgdata.Upload.Client.{
  Snapshot, await, cancelled, failed, Answer, answer, error, start_write, is_writing, written,
  write, signed_ltb,
}

-- The snapshots of one call: the total does not fall below what it was when the call started.
abbrev pub AllFrom : ℕ → List Snapshot → Type 0
AllFrom old [] = Unit
AllFrom old (s ∷ later) =
    (old ≤ s.total_network_bytes_written)
    × (s.total_network_bytes_written < u64)
    × AllFrom old later

-- At each of the snapshots the wait goes on.
abbrev pub AllWait : (Snapshot → Bool) → List Snapshot → Type 0
AllWait waits [] = Unit
AllWait waits (s ∷ later) = (waits s ≡ true) × AllWait waits later

-- At each of the snapshots fewer than `count` bytes are written since, and the upload has not finished
-- and the call is not cancelled.
abbrev pub AllPending : ℕ → ℕ → List Snapshot → Type 0
AllPending count old [] = Unit
AllPending count old (s ∷ later) =
    (s.total_network_bytes_written - old < count)
    × (s.is_finished ≡ false)
    × (s.is_cancelled ≡ false)
    × AllPending count old later

-- The wait ends at the first snapshot at which it does not go on.
pub data Awaited (waits : Snapshot → Bool) (all : List Snapshot) : Outcome Snapshot → Type 0 where
  arrived :
      (before later : List Snapshot) (s : Snapshot)
      → all ≡ before ++ s ∷ later
      → AllWait waits before
      → waits s ≡ false
      → Awaited waits all (ok s)
  never : AllWait waits all → Awaited waits all blocked

await-Awaited :
    (waits : Snapshot → Bool) (now : Snapshot) (later : List Snapshot)
    → Awaited waits (now ∷ later) (await waits now later)
unfolding await
await-Awaited waits now [] = elim (Bool-cases (waits now)) [
  | inl on ↦ rw on (never (on, tt))
  | inr over ↦ rw over (arrived [] [] now refl tt over)
]
await-Awaited waits now (next ∷ later) = elim (Bool-cases (waits now)) [
  | inl on ↦ rw on (later_Awaited on (await-Awaited waits next later))
  | inr over ↦ rw over (arrived [] (next ∷ later) now refl tt over)
]
  where
    later_Awaited :
        waits now ≡ true
        → {x : Outcome Snapshot} → Awaited waits (next ∷ later) x
        → Awaited waits (now ∷ next ∷ later) x
    later_Awaited on (arrived before rest s split ons over) =
        arrived (now ∷ before) rest s (ap (λ l. now ∷ l) split) (on, ons) over
    later_Awaited on (never ons) = never (on, ons)

abbrev pub IsSeen : Snapshot → List Snapshot → Type 0
IsSeen s all = (before : List Snapshot) × (later : List Snapshot) × (all ≡ before ++ s ∷ later)

AllFrom-seen :
    (old : ℕ) (before later : List Snapshot) (s : Snapshot)
    → AllFrom old (before ++ s ∷ later)
    → (old ≤ s.total_network_bytes_written) × (s.total_network_bytes_written < u64)
AllFrom-seen old [] later s (from, fits, rest) = (from, fits)
AllFrom-seen old (t ∷ before) later s (from, fits, rest) = AllFrom-seen old before later s rest

module _ (count old : ℕ) where
  -- How a write comes out that has begun to wait.
  pub data WriteOutcome (all : List Snapshot) : Outcome Answer → Type 0 where
    wrote :
        (s : Snapshot) (n : ℕ)
        → IsSeen s all
        → 0 < n
        → n ≤ count
        → n ≤ s.total_network_bytes_written - old
        → (n < count → s.is_cancelled ≡ true)
        → WriteOutcome all (ok (answer n))
    was_cancelled :
        (s : Snapshot)
        → IsSeen s all
        → s.is_cancelled ≡ true
        → s.total_network_bytes_written ≡ old
        → WriteOutcome all (ok (error cancelled))
    has_failed :
        (s : Snapshot)
        → IsSeen s all
        → s.is_finished ≡ true
        → s.total_network_bytes_written - old < count
        → WriteOutcome all (ok (error failed))
    waits_on : AllPending count old all → WriteOutcome all blocked

  is_writing-pending :
      (s : Snapshot)
      → old ≤ s.total_network_bytes_written
      → s.total_network_bytes_written < u64
      → is_writing count old s ≡ true
      → (s.total_network_bytes_written - old < count)
        × (s.is_finished ≡ false)
        × (s.is_cancelled ≡ false)
  unfolding is_writing
  is_writing-pending s from fits on = (ground arith, ground arith, ground arith)

  AllWait-AllPending :
      (all : List Snapshot)
      → AllFrom old all
      → AllWait (is_writing count old) all
      → AllPending count old all
  AllWait-AllPending [] from ons = tt
  AllWait-AllPending (s ∷ later) (from, fits, rest) (on, ons) =
      let (few, unfinished, live) = is_writing-pending s from fits on in
      (few, unfinished, live, AllWait-AllPending later rest ons)

  written-WriteOutcome :
      (all : List Snapshot) (s : Snapshot)
      → IsSeen s all
      → 0 < count
      → count < 2 ^ 63
      → old ≤ s.total_network_bytes_written
      → s.total_network_bytes_written < u64
      → is_writing count old s ≡ false
      → WriteOutcome all (written count old s)
  unfolding written is_writing
  written-WriteOutcome all s seen some_bytes small from fits over =
      let n = min count (sub64 s.total_network_bytes_written old) in
      elim (Bool-cases (s.is_cancelled && signed_ltb n 1)) [
        | inl none_yet ↦ rw none_yet (was_cancelled s seen (ground arith) (ground arith))
        | inr more ↦ elim (Bool-cases (s.is_finished && signed_ltb n count)) [
          | inl short ↦ rw (more, short) (has_failed s seen (ground arith) (ground arith))
          | inr enough ↦
              let something : signed_ltb n 1 ≡ false = ground arith in
              rw (more, enough, something)
                (wrote s n seen (ground arith) (omega arith) (omega arith) (λ few. ground arith))
        ]
      ]

  Awaited-WriteOutcome :
      (all : List Snapshot)
      → 0 < count
      → count < 2 ^ 63
      → AllFrom old all
      → {x : Outcome Snapshot} → Awaited (is_writing count old) all x
      → WriteOutcome all (x >>= written count old)
  Awaited-WriteOutcome all some_bytes small from (arrived before later s split ons over) =
      let (here, fits) = AllFrom-seen old before later s (rw split at from) in
      written-WriteOutcome all s (before, later, split) some_bytes small here fits over
  Awaited-WriteOutcome all some_bytes small from (never ons) =
      waits_on (AllWait-AllPending all from ons)

bind-answer :
    (u : Upload) (f : Snapshot → Outcome Answer) (x : Outcome Snapshot)
    → ((x >>= λ s. f s >>= λ a. ok (u, a)) >>= λ (r : Upload × Answer). ok r.1) ≡ (x >>= f)
bind-answer u f (ok s) = bind-ok (f s)
  where
    bind-ok :
        (m : Outcome Answer) → ((m >>= λ a. ok (u, a)) >>= λ (r : Upload × Answer). ok r.1) ≡ m
    bind-ok (ok a) = refl
    bind-ok overrun = refl
    bind-ok assertion = refl
    bind-ok blocked = refl
bind-answer u f overrun = refl
bind-answer u f assertion = refl
bind-answer u f blocked = refl

-- A write of some bytes that is not cancelled from the start and has its thread comes out in one of
-- these ways, the total never falling meanwhile. It returns a number of bytes, at least 1 and at most
-- what was asked for or what has been written since, and less than was asked for only if it is
-- cancelled; it fails as cancelled, when nothing has been written; it fails where the upload has
-- finished with fewer bytes written; or it waits for ever, at each snapshot neither finished nor
-- cancelled and with bytes left. No assertion fails.
pub write-WriteOutcome :
    (u : Upload) (p : Pushed) (now : Snapshot) (later : List Snapshot)
    → 0 < p.size
    → p.size < 2 ^ 63
    → AllFrom u.total_network_bytes_written (now ∷ later)
    → WriteOutcome p.size u.total_network_bytes_written
        (now ∷ later)
        (write false true u p now later >>= λ r. ok r.1)
unfolding write
write-WriteOutcome u p now later some_bytes small from =
    rw
      (bind-answer (start_write u p) (written p.size u.total_network_bytes_written)
        (await (is_writing p.size u.total_network_bytes_written) now later))
      (Awaited-WriteOutcome p.size u.total_network_bytes_written (now ∷ later) some_bytes small from
        (await-Awaited (is_writing p.size u.total_network_bytes_written) now later))
