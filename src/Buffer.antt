-- ===== src/Buffer.antt =====
-- gdata/gdata-buffer.c: the byte queue between the network thread, which pushes, and the one
-- thread that reads. A `GDataBuffer` holds a linked list of chunks, how far the first chunk has
-- been read, a cached total, and the EOF flag. The list is modelled as the list of the chunks'
-- bytes. `tail` says whether the tail pointer is set; where it is, it points at the last chunk's
-- `next`, as every assignment in the file makes it do. The mutex and the condition variable are
-- not stored: `Buffer/Wait.antt` has what other threads do while a pop waits.
pub mod Wait
pub mod Contents
pub mod Push
pub mod Drain
pub mod Pop
pub mod Blocking
pub mod Fifo
pub mod Limited
pub mod Skip
use libgdata.Base.{
  ℕ, ◌+◌, ◌≡◌, Bool, true, false, ◌&&◌, Option, none, some, List, [], ◌∷◌, ◌++◌, Text, leb, ltb,
  ◌==◌, if◌then◌else◌, length, take, drop,
}
use libgdata.Base.Word.{add64, sub64}

pub record Buffer : Type 0 where
  pub head : List Text
  pub head_read_offset : ℕ
  pub total_length : ℕ
  pub reached_eof : Bool
  pub tail : Bool

-- `g_slice_new0` zeroes every field.
unfoldable pub new : Buffer
new = record {
  head = [];
  head_read_offset = 0;
  total_length = 0;
  reached_eof = false;
  tail = false;
}

-- A call's arguments `data` and `length`; `memory` is what the freshly allocated chunk holds, which
-- stays there where `data` is NULL.
pub record Pushed : Type 0 where
  pub bytes : Option Text
  pub size : ℕ
  pub memory : Text

abbrev pub is_null : Option Text → Bool
is_null none = true
is_null (some t) = false

-- `memcpy (chunk->data, data, length)`
abbrev pub block : Option Text → Text → ℕ → Text
block none memory size = take size memory
block (some t) memory size = take size t

-- `*(self->tail) = chunk` where the tail pointer is set, and `self->head = chunk` where not.
abbrev pub link : Bool → List Text → Text → List Text
link true head c = head ++ c ∷ []
link false head c = c ∷ []

unfoldable pub push_data : Buffer → Pushed → Buffer × Bool
push_data b p =
    if b.reached_eof
    then (b, false)
    else if is_null p.bytes && (p.size == 0)
    then (record b { reached_eof = true }, false)
    else (
      record b {
        head = link b.tail b.head (block p.bytes p.memory p.size);
        tail = true;
        total_length = add64 b.total_length p.size;
      },
      true,
    )

-- What a pop comes to: a value, a read past the end of a chunk, a failed `g_assert`, or a wait that
-- nothing ends.
pub data Outcome {ℓ} (A : Type ℓ) : Type ℓ where
  ok : A → Outcome A
  overrun : Outcome A
  assertion : Outcome A
  blocked : Outcome A

infixl 5 ◌>>=◌
abbrev pub ◌>>=◌ {ℓ κ} : {A : Type ℓ} {B : Type κ} → Outcome A → (A → Outcome B) → Outcome B
ok a >>= f = f a
overrun >>= f = overrun
assertion >>= f = assertion
blocked >>= f = blocked

-- `if (data != NULL) memcpy (data, chunk->data + offset, n)`, appended to what was copied before.
unfoldable pub copy : Bool → Text → ℕ → ℕ → Text → Outcome Text
copy wanted c offset n out =
    if wanted
    then if leb (offset + n) (length c) then ok (out ++ take n (drop offset c)) else overrun
    else ok out

-- The code behind the loop: the rest of the request comes out of the first chunk that is left.
unfoldable pub finish : Bool → List Text → ℕ → ℕ → Text → Outcome (List Text × ℕ × Text)
finish wanted [] offset remaining out = if ltb 0 remaining then assertion else ok ([], offset, out)
finish wanted (c ∷ cs) offset remaining out =
    if ltb 0 remaining
    then (copy wanted c offset remaining out >>= λ out'. ok (c ∷ cs, offset + remaining, out'))
    else ok (c ∷ cs, offset, out)

-- The `while` loop over the chunks, and the code behind it.
unfoldable pub drain : Bool → List Text → ℕ → ℕ → Text → Outcome (List Text × ℕ × Text)
drain wanted [] offset remaining out = finish wanted [] offset remaining out
drain wanted (c ∷ cs) offset remaining out =
    let part = sub64 (length c) offset in
    let next =
      (copy wanted c offset part out >>= λ out'. drain wanted cs 0 (sub64 remaining part) out') in
    if leb (length c) remaining then next else finish wanted (c ∷ cs) offset remaining out

abbrev pub is_nil : List Text → Bool
is_nil [] = true
is_nil (c ∷ cs) = false

-- `gdata_buffer_pop_data` once `return_length` is known.
unfoldable pub take_out : Bool → ℕ → Buffer → Outcome (Text × Buffer)
take_out wanted n b = if n == 0 then ok ([], b) else do
  (cs, offset, out) ← drain wanted b.head b.head_read_offset n []
  ok (
    out,
    record b {
      head = cs;
      head_read_offset = offset;
      tail = if is_nil cs then false else b.tail;
      total_length = sub64 b.total_length n;
    },
  )
