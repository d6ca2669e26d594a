-- ===== src/Tests/Glib.antt =====
-- A concrete instance of what GLib writes into a URI, with the laws of `IsDocumented`.
use libgdata.Base.{
  ◌≡◌, refl, false, ◌&&◌, [], ◌∷◌, Text, codes, leb, if◌then◌else◌, Lacks, arith, Bool-cases, inl,
  inr, ℕ,
}
use libgdata.Query.Uri.{Glib, IsDocumented}

-- Only the lower-case letters are left.
unfoldable pub letters : Text → Text
letters [] = []
letters (c ∷ s) = let rest = letters s in if leb b'a' c && leb c b'z' then c ∷ rest else rest

pub letters-Lacks :
    (sep : ℕ) (s : Text) → (leb b'a' sep && leb sep b'z') ≡ false → Lacks sep (letters s)
unfolding letters
letters-Lacks sep [] h = tt
letters-Lacks sep (c ∷ s) h = elim (Bool-cases (leb b'a' c && leb c b'z')) [
  | inl kept ↦ rw kept ((λ e. ground arith), letters-Lacks sep s h)
  | inr cut ↦ rw cut (letters-Lacks sep s h)
]

abbrev pub letters_only : Glib
letters_only = record {
  uri_escaped = λ t reserved. letters t;
  iso8601 = λ t. codes "1970-01-01T00:00:00Z";
}

pub letters_only-IsDocumented : IsDocumented letters_only
letters_only-IsDocumented = record {
  escaped_amp = λ t. letters-Lacks b'&' t refl;
  escaped_question = λ t. letters-Lacks b'?' t refl;
  escaped_path = λ t. letters-Lacks b'?' t refl;
  iso8601_amp = λ t. omega arith;
  iso8601_question = λ t. omega arith;
}
