-- ===== src/Query/Split.antt =====
-- The other side of the URIs of gdata/gdata-query.c: a server cuts the part behind the first `?` at
-- each `&`. It finds the parameters that the library put in.
use libgdata.Base.{
  ℕ, zero, suc, String, ◌+◌, ◌%◌, ◌/◌, ◌≡◌, refl, sym, ap, Bool, true, false, Option, none, some,
  List, [], ◌∷◌, ◌++◌, append_assoc, append-nil, Text, codes, ltb, ◌==◌, if◌then◌else◌, Bool-cases,
  inl, inr, All, All-append, Lacks, ne→==, arith,
}
use libgdata.Base.Int.{ℤ, is_minus_one}
use libgdata.Base.Printf.{print_decimal, decimal_digits}
use libgdata.Query.{Query}
use libgdata.Query.Uri.{
  Uri, Glib, IsDocumented, append, append_params, append_params-render, escaped_param, time_param,
  count_param, flag_param, choice_param, render,
}
use libgdata.Query.Build.{append_categories, has_question, get_query_uri, query_uri}
use libgdata.Query.Rendering.{base_params, category_path, get_query_uri_lem}

-- What stands behind the first `?`.
pub behind_question : Text → Option Text
behind_question [] = none
behind_question (c ∷ s) = if c == b'?' then some s else behind_question s

abbrev pub cons_first : ℕ → List Text → List Text
cons_first c [] = (c ∷ []) ∷ []
cons_first c (p ∷ ps) = (c ∷ p) ∷ ps

-- A text cut at each `&`.
pub cut_amp : Text → List Text
cut_amp [] = [] ∷ []
cut_amp (c ∷ s) = if c == b'&' then [] ∷ cut_amp s else cons_first c (cut_amp s)

abbrev pub cut_all : Option Text → List Text
cut_all none = []
cut_all (some s) = cut_amp s

pub params_of : Text → List Text
params_of uri = cut_all (behind_question uri)

behind_question-append : (s t : Text) → Lacks b'?' s → behind_question (s ++ t) ≡ behind_question t
unfolding behind_question
behind_question-append [] t h = refl
behind_question-append (c ∷ s) t (n, h) = rw (ne→== c b'?' n) (behind_question-append s t h)

pub has_question-Lacks : (s : Text) → Lacks b'?' s → has_question s ≡ false
unfolding has_question
has_question-Lacks [] h = refl
has_question-Lacks (c ∷ s) (n, h) = rw (ne→== c b'?' n) (has_question-Lacks s h)

cut_amp-render :
    (p : Text) (ps : List Text)
    → Lacks b'&' p
    → All (Lacks b'&') ps
    → cut_amp (p ++ render true ps) ≡ p ∷ ps
unfolding cut_amp render
cut_amp-render [] [] h k = refl
cut_amp-render [] (q ∷ qs) h (k, ks) = ap (λ t. [] ∷ t) (cut_amp-render q qs k ks)
cut_amp-render (c ∷ p) ps (n, h) k = rw (ne→== c b'&' n) (rw (cut_amp-render p ps h k) refl)

pub params_of-render :
    (before : Text) (ps : List Text)
    → Lacks b'?' before
    → All (Lacks b'&') ps
    → params_of (before ++ render false ps) ≡ ps
unfolding params_of behind_question render
params_of-render before [] h k = rw (behind_question-append before [] h)
params_of-render before (p ∷ ps) h (k, ks) =
    rw (behind_question-append before (b'?' ∷ (p ++ render true ps)) h) (cut_amp-render p ps k ks)

decimal_digits-Lacks :
    (fuel v : ℕ) (out : Text) → Lacks b'&' out → Lacks b'&' (decimal_digits fuel v out)
unfolding decimal_digits
decimal_digits-Lacks zero v out h = h
decimal_digits-Lacks (suc fuel) v out h = elim (Bool-cases (ltb v 10)) [
  | inl e ↦ rw e (omega arith, h)
  | inr e ↦ rw e (decimal_digits-Lacks fuel (v / 10) ((b'0' + v % 10) ∷ out) (omega arith, h))
]

pub print_decimal-Lacks : (v : ℕ) → Lacks b'&' (print_decimal v)
unfolding print_decimal
print_decimal-Lacks v = decimal_digits-Lacks 10 v [] tt

-- A name without `&` makes parameters without `&`.
module _ (name : String) (clean : Lacks b'&' (codes name)) where
  pub count_param-Lacks : (n : ℕ) → All (Lacks b'&') (count_param name n)
  count_param-Lacks n = elim (Bool-cases (ltb 0 n)) [
    | inl e ↦ rw e (All-append _ (codes name) (print_decimal n) clean (print_decimal-Lacks n), tt)
    | inr e ↦ rw e tt
  ]

  pub flag_param-Lacks : (b : Bool) → All (Lacks b'&') (flag_param name b)
  flag_param-Lacks true = (clean, tt)
  flag_param-Lacks false = tt

  module _ (glib : Glib) (documented : IsDocumented glib) where
    pub escaped_param-Lacks : (o : Option Text) → All (Lacks b'&') (escaped_param glib name o)
    escaped_param-Lacks none = tt
    escaped_param-Lacks (some t) =
        (All-append _ (codes name) (glib.uri_escaped t none) clean (documented.escaped_amp t), tt)

    pub time_param-Lacks : (t : ℤ) → All (Lacks b'&') (time_param glib name t)
    time_param-Lacks t = elim (Bool-cases (is_minus_one t)) [
      | inl e ↦ rw e tt
      | inr e ↦
          rw e (All-append _ (codes name) (glib.iso8601 t) clean (documented.iso8601_amp t), tt)
    ]

pub choice_param-Lacks :
    (on off : String)
    → Lacks b'&' (codes on)
    → Lacks b'&' (codes off)
    → (b : Bool) → All (Lacks b'&') (choice_param on off b)
choice_param-Lacks on off h k true = (h, tt)
choice_param-Lacks on off h k false = (k, tt)

-- Whatever path was appended before its parameters, a URI gives its parameters back.
pub params_of-append_params :
    (before : Text) (u : Uri) (ps : List Text)
    → u ≡ record { text = before; started = false }
    → Lacks b'?' before
    → All (Lacks b'&') ps
    → params_of (append_params u ps).text ≡ ps
params_of-append_params before u ps e h k =
    rw (e, append_params-render) (params_of-render before ps h k)

module _ (glib : Glib) (documented : IsDocumented glib) where
  pub base_params-Lacks : (self : Query) → All (Lacks b'&') (base_params glib self)
  unfolding base_params
  base_params-Lacks self =
      All-append _ _ _ (escaped_param-Lacks "q=" (omega arith) glib documented self.q) (
        All-append _ _ _ (escaped_param-Lacks "author=" (omega arith) glib documented self.author) (
          All-append _ _ _
            (time_param-Lacks "updated-min=" (omega arith) glib documented self.updated_min)
            (All-append _ _ _
              (time_param-Lacks "updated-max=" (omega arith) glib documented self.updated_max)
              (All-append _ _ _
                (time_param-Lacks "published-min=" (omega arith) glib documented self.published_min)
                (All-append _ _ _
                  (time_param-Lacks "published-max=" (omega arith) glib documented
                    self.published_max)
                  (All-append _ _ _
                    (count_param-Lacks "start-index=" (omega arith) self.start_index)
                    (All-append _ _ _ (flag_param-Lacks "strict=true" (omega arith) self.is_strict)
                      (count_param-Lacks "max-results=" (omega arith) self.max_results))))))))

  pub category_path-Lacks : (o : Option Text) → Lacks b'?' (category_path glib o)
  category_path-Lacks none = tt
  category_path-Lacks (some t) =
      All-append _ (codes "/-/") (glib.uri_escaped t (some (codes "/"))) (omega arith)
        (documented.escaped_path t)

  pub append_categories_lem :
      (feed : Text) (o : Option Text)
      → append_categories glib (record { text = feed; started = false }) o
        ≡ record { text = feed ++ category_path glib o; started = false }
  unfolding append_categories append
  append_categories_lem feed none = λ i. record { text = sym (append-nil feed) i; started = false }
  append_categories_lem feed (some t) = λ i. record {
    text = append_assoc feed (codes "/-/") (glib.uri_escaped t (some (codes "/"))) i;
    started = false;
  }

  -- For a feed URI with no `?`, the URI of a query that is at no page of a feed, cut at `?` and `&`,
  -- gives exactly the query's parameters, each once and in order, whatever its texts hold.
  pub query_uri-params :
      (self : Query) (feed : Text)
      → self.use_next_uri ≡ false
      → self.use_previous_uri ≡ false
      → Lacks b'?' feed
      → (uri : Text) × (query_uri self (get_query_uri glib self) feed ≡ some uri)
        × (params_of uri ≡ base_params glib self)
  unfolding query_uri
  query_uri-params self feed no_next no_previous plain =
      let started = has_question-Lacks feed plain in
      let u : Uri = record { text = feed; started = has_question feed } in
      (
        (get_query_uri glib self u).text,
        rw (no_next, no_previous) refl,
        rw (get_query_uri_lem glib self, started, append_categories_lem feed self.categories)
            (params_of-append_params (feed ++ category_path glib self.categories) _
              (base_params glib self) refl
              (All-append _ feed _ plain (category_path-Lacks self.categories))
              (base_params-Lacks self)),
      )
