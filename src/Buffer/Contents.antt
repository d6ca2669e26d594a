-- ===== src/Buffer/Contents.antt =====
-- What a buffer of gdata/gdata-buffer.c holds: the bytes that no pop has returned yet, and the
-- invariant on its fields.
use libgdata.Base.{
  ℕ, ◌≤◌, ◌<◌, ◌≡◌, refl, not, List, [], ◌∷◌, ◌++◌, append_assoc, append-nil, Text, length, drop,
}
use libgdata.Base.Word.{u64}
use libgdata.Buffer.{Buffer, is_nil}

abbrev pub concat : List Text → Text
concat [] = []
concat (c ∷ cs) = c ++ concat cs

-- The chunks' bytes, without the part of the first chunk that has been read.
abbrev pub unread : List Text → ℕ → Text
unread [] offset = []
unread (c ∷ cs) offset = drop offset c ++ concat cs

abbrev pub contents : Buffer → Text
contents b = unread b.head b.head_read_offset

-- The offset lies in the first chunk; it is 0 where there is none.
abbrev pub OffsetFits : List Text → ℕ → Type 0
OffsetFits [] offset = offset ≡ 0
OffsetFits (c ∷ cs) offset = offset ≤ length c

pub record IsValid (b : Buffer) : Type 0 where
  pub within : OffsetFits b.head b.head_read_offset
  pub counted : b.total_length ≡ length (contents b)
  pub tailed : b.tail ≡ not (is_nil b.head)
  pub fits : b.total_length < u64

pub concat-append : (cs ds : List Text) → concat (cs ++ ds) ≡ concat cs ++ concat ds
concat-append [] ds = refl
concat-append (c ∷ cs) ds = simp (concat-append cs ds, append_assoc)

-- A chunk at the end adds its bytes.
pub unread-append :
    (c : Text) (cs : List Text) (offset : ℕ) (d : Text)
    → unread ((c ∷ cs) ++ d ∷ []) offset ≡ unread (c ∷ cs) offset ++ d
unread-append c cs offset d = simp (concat-append, append-nil, append_assoc)
