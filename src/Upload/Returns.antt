-- ===== src/Upload/Returns.antt =====
-- What holds of the value that a step of gdata/gdata-upload-stream.c returns.
use libgdata.Buffer.{Outcome, ok, overrun, assertion, blocked, ◌>>=◌}

-- What a step returns, if it returns, satisfies `P`.
abbrev pub Returns : {A : Type 0} → (A → Type 0) → Outcome A → Type 0
Returns P (ok a) = P a
Returns P overrun = Unit
Returns P assertion = Unit
Returns P blocked = Unit

pub Returns-bind :
    {A B : Type 0} (P : A → Type 0) (Q : B → Type 0) (m : Outcome A) (f : A → Outcome B)
    → Returns P m
    → ((a : A) → P a → Returns Q (f a))
    → Returns Q (m >>= f)
Returns-bind P Q (ok a) f h g = g a h
Returns-bind P Q overrun f h g = tt
Returns-bind P Q assertion f h g = tt
Returns-bind P Q blocked f h g = tt

pub Returns-both :
    {A : Type 0} (P Q : A → Type 0) (m : Outcome A)
    → Returns P m
    → Returns Q m
    → Returns (λ a. P a × Q a) m
Returns-both P Q (ok a) h k = (h, k)
Returns-both P Q overrun h k = tt
Returns-both P Q assertion h k = tt
Returns-both P Q blocked h k = tt

pub Returns-any : {A : Type 0} (m : Outcome A) → Returns (λ (a : A). Unit) m
Returns-any (ok a) = tt
Returns-any overrun = tt
Returns-any assertion = tt
Returns-any blocked = tt

pub Returns-weaken :
    {A : Type 0} (P Q : A → Type 0) (m : Outcome A)
    → Returns P m
    → ((a : A) → P a → Q a)
    → Returns Q m
Returns-weaken P Q (ok a) h g = g a h
Returns-weaken P Q overrun h g = tt
Returns-weaken P Q assertion h g = tt
Returns-weaken P Q blocked h g = tt
