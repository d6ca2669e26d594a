-- ===== src/Buffer/Drain.antt =====
-- The loop of `gdata_buffer_pop_data` in gdata/gdata-buffer.c, with the code behind it: what it
-- copies out, and what it leaves.
use libgdata.Base.{
  ℕ, zero, suc, ◌+◌, ◌-◌, ◌≤◌, ◌<◌, ◌≡◌, refl, sym, ap, ◌∙◌, ◌⊎◌, inl, inr, Bool, true, false, List,
  [], ◌∷◌, ◌++◌, append_assoc, append-nil, Text, leb, length, take, drop, length-append,
  length-drop, take_all, take-append_le, take-append_ge, drop-append_le, drop-append_ge, drop-drop,
  le→leb, gt→leb, leb→le, leb→gt, lt→ltb, Bool-cases, arith, if◌then◌else◌,
}
use libgdata.Base.Word.{u64, sub64_exact}
use libgdata.Buffer.{Outcome, ok, overrun, copy, finish, drain}
use libgdata.Buffer.Contents.{concat, unread, OffsetFits}

-- What stands at `data` after a copy of `t`; nothing is copied to a NULL `data`.
abbrev pub copied : Bool → Text → Text → Text
copied true out t = out ++ t
copied false out t = out

copied-nil : (w : Bool) (out : Text) → out ≡ copied w out []
copied-nil true out = sym (append-nil out)
copied-nil false out = refl

copied-append : (w : Bool) (out s t : Text) → copied w (copied w out s) t ≡ copied w out (s ++ t)
copied-append true out s t = append_assoc out s t
copied-append false out s t = refl

-- The loop took `r` of `bytes`: they stand behind `out`, and the rest is still unread.
pub data Drained (w : Bool) (bytes : Text) (r : ℕ) (out : Text)
    : Outcome (List Text × ℕ × Text) → Type 0 where
  drained :
      (cs : List Text) (o : ℕ) (out' : Text)
      → out' ≡ copied w out (take r bytes)
      → unread cs o ≡ drop r bytes
      → OffsetFits cs o
      → Drained w bytes r out (ok (cs, o, out'))

-- A copy that stays inside its chunk.
copy_inside :
    (w : Bool) (c : Text) (o n : ℕ) (out : Text)
    → o + n ≤ length c
    → copy w c o n out ≡ ok (copied w out (take n (drop o c)))
unfolding copy
copy_inside true c o n out h = rw (le→leb _ _ h)
copy_inside false c o n out h = refl

-- The bytes of the chunk come before the bytes of the chunks behind it.
Drained-append :
    (w : Bool) (p bytes : Text) (r : ℕ) (out : Text) {x : Outcome (List Text × ℕ × Text)}
    → length p ≤ r
    → Drained w bytes (r - length p) (copied w out p) x
    → Drained w (p ++ bytes) r out x
Drained-append w p bytes r out h (drained cs o out' eq rest fits) =
    drained cs o out'
      (eq
        ∙ copied-append w out p (take (r - length p) bytes)
        ∙ ap (copied w out) (sym (take-append_ge r p bytes h)))
      (rest ∙ sym (drop-append_ge r p bytes h)) fits

-- A request that ends inside the chunk.
finish-Drained :
    (w : Bool) (c : Text) (cs : List Text) (o r : ℕ) (out : Text)
    → o + r ≤ length c
    → Drained w (drop o c ++ concat cs) r out (finish w (c ∷ cs) o r out)
unfolding finish
finish-Drained w c cs o zero out h = drained (c ∷ cs) o out (copied-nil w out) refl (omega arith)
finish-Drained w c cs o (suc r) out h =
    let short : suc r ≤ length (drop o c) = omega (arith, length-drop o c) in
    rw (copy_inside w c o (suc r) out h, lt→ltb 0 (suc r) (omega arith))
      (drained (c ∷ cs) (o + suc r) (copied w out (take (suc r) (drop o c)))
        (ap (copied w out) (sym (take-append_le (suc r) (drop o c) (concat cs) short)))
        (sym (
          drop-append_le (suc r) (drop o c) (concat cs) short
          ∙ ap (λ t. t ++ concat cs) (drop-drop (suc r) o c)))
        h)

-- The loop takes what is left of a chunk, if the request covers the chunk's whole length.
drain-whole :
    (w : Bool) (c : Text) (cs : List Text) (o r : ℕ) (out : Text)
    → o ≤ length c
    → length (drop o c ++ concat cs) < u64
    → r ≤ length (drop o c ++ concat cs)
    → length c ≤ r
    → ((r' : ℕ) (out' : Text)
        → r' ≤ length (concat cs)
        → Drained w (concat cs) r' out' (drain w cs 0 r' out'))
    → Drained w (drop o c ++ concat cs) r out (drain w (c ∷ cs) o r out)
unfolding drain
drain-whole w c cs o r out within small enough over later =
    let left = length-drop o c in
    let total = length-append (drop o c) (concat cs) in
    let all : take (length c - o) (drop o c) ≡ drop o c = rw (← left) (take_all (drop o c)) in
    rw
      (
        le→leb (length c) r over,
        sub64_exact (length c) o within (omega (arith, left, total)),
        copy_inside w c o (length c - o) out (omega arith),
        all,
        sub64_exact r (length c - o) (omega arith) (omega arith),
      )
      (Drained-append w (drop o c) (concat cs) r out (omega (arith, left)) (
        rw left
          (later (r - (length c - o)) (copied w out (drop o c)) (omega (arith, left, total)))))

drain-step :
    (w : Bool) (c : Text) (cs : List Text) (o r : ℕ) (out : Text)
    → o ≤ length c
    → length (drop o c ++ concat cs) < u64
    → r ≤ length (drop o c ++ concat cs)
    → (length c ≤ r) ⊎ (o + r ≤ length c)
    → ((r' : ℕ) (out' : Text)
        → r' ≤ length (concat cs)
        → Drained w (concat cs) r' out' (drain w cs 0 r' out'))
    → Drained w (drop o c ++ concat cs) r out (drain w (c ∷ cs) o r out)
unfolding drain
drain-step w c cs o r out within small enough (inl over) later =
    drain-whole w c cs o r out within small enough over later
drain-step w c cs o r out within small enough (inr inside) later =
    elim (Bool-cases (leb (length c) r)) [
      | inl whole ↦ drain-whole w c cs o r out within small enough (leb→le _ _ whole) later
      | inr part ↦ rw part (finish-Drained w c cs o r out inside)
    ]

le_or_inside : (m r : ℕ) → (m ≤ r) ⊎ (0 + r ≤ m)
le_or_inside m r = elim (Bool-cases (leb m r)) [
  | inl h ↦ inl (leb→le m r h)
  | inr h ↦ inr (omega (arith, leb→gt m r h))
]

pub drain-fresh :
    (w : Bool) (cs : List Text) (r : ℕ) (out : Text)
    → length (concat cs) < u64
    → r ≤ length (concat cs)
    → Drained w (concat cs) r out (drain w cs 0 r out)
unfolding drain finish
drain-fresh w [] zero out small h = drained [] 0 out (copied-nil w out) refl refl
drain-fresh w [] (suc r) out small h = elim h [ ]
drain-fresh w (c ∷ cs) r out small h =
    let counted = length-append c (concat cs) in
    drain-step w c cs 0 r out (omega arith) small h (le_or_inside (length c) r)
      (λ r' out' h'. drain-fresh w cs r' out' (omega (arith, counted)) h')

-- The requests at which the loop goes wrong: what is left of the first chunk is not enough, and yet
-- the loop does not take the chunk, since the request is below the chunk's whole length.
abbrev pub InGap : List Text → ℕ → ℕ → Type 0
InGap [] offset n = ⊥
InGap (c ∷ cs) offset n = (length c < offset + n) × (n < length c)

outside_gap : (l o n : ℕ) → ¬ ((l < o + n) × (n < l)) → (l ≤ n) ⊎ (o + n ≤ l)
outside_gap l o n h = elim (Bool-cases (leb l n)) [
  | inl e ↦ inl (leb→le l n e)
  | inr e ↦ elim (Bool-cases (leb (o + n) l)) [
    | inl f ↦ inr (leb→le (o + n) l f)
    | inr f ↦ absurd (h (leb→gt (o + n) l f, leb→gt l n e))
  ]
]

pub drain-Drained :
    (w : Bool) (cs : List Text) (o r : ℕ) (out : Text)
    → OffsetFits cs o
    → length (unread cs o) < u64
    → r ≤ length (unread cs o)
    → ¬ (InGap cs o r)
    → Drained w (unread cs o) r out (drain w cs o r out)
drain-Drained w [] o r out fits small h safe = rw fits (drain-fresh w [] r out small h)
drain-Drained w (c ∷ cs) o r out fits small h safe =
    let counted = length-append (drop o c) (concat cs) in
    drain-step w c cs o r out fits small h (outside_gap (length c) o r safe)
      (λ r' out' h'. drain-fresh w cs r' out' (omega (arith, counted)) h')

-- In the gap the last copy starts inside the chunk and ends behind it.
pub drain-InGap :
    (w : Bool) (c : Text) (cs : List Text) (o r : ℕ) (out : Text)
    → InGap (c ∷ cs) o r
    → o ≤ length c
    → drain w (c ∷ cs) o r out ≡ (if w then overrun else ok (c ∷ cs, o + r, out))
unfolding drain finish copy
drain-InGap true c cs o r out (over, below) within =
    rw (gt→leb (length c) r below, lt→ltb 0 r (omega arith), gt→leb (o + r) (length c) over)
drain-InGap false c cs o r out (over, below) within =
    rw (gt→leb (length c) r below, lt→ltb 0 r (omega arith))
