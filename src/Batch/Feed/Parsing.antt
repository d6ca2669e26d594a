-- ===== src/Batch/Feed/Parsing.antt =====
-- The parse of gdata/gdata-batch-feed.c: what it leaves of the calls of the operations' callbacks.
use libgdata.Base.{
  ℕ, ◌≡◌, refl, ap, ◌∙◌, not, Option, none, some, List, [], ◌∷◌, codes, text_eq, ◌==◌, ltb, ◌⊎◌,
  inl, inr, Bool-cases,
}
use libgdata.Service.Errors.{ServiceError}
use libgdata.Batch.{Operation, Batch, get_operation}
use libgdata.Batch.Total.{IsKeyed, Keeps, Keeps-refl, Keeps-trans, run_callback-Keeps}
use libgdata.Batch.Feed.{
  Library, Node, Found, Parse, parsed, refused, crashed, read_children, nothing_found, run_success,
  run_failure, take_entry, check_found, parse_other, parse_xml, parse_nodes, then_check,
  parse_answer, passed_as, parse_batch_error, or_null, is_deletion,
}

module _ {E K : Type 0} (library : Library E K) where
  -- What a parse leaves, where the program does not fail.
  abbrev pub ParseKeeps : Batch E K → Parse (Batch E K) → Type 0
  ParseKeeps self (parsed self') = Keeps self self'
  ParseKeeps self (refused self' error) = Keeps self self'
  ParseKeeps self crashed = Unit

  get_operation-there :
      (self : Batch E K) (id : ℕ) (op : Operation E K)
      → IsKeyed self
      → get_operation self id ≡ some op
      → self.operations op.id ≡ some op
  unfolding get_operation
  get_operation-there self id op keyed found = elim (Bool-cases (ltb 0 id)) [
    | inl positive ↦
        let there : self.operations id ≡ some op = rw positive at found in
        ap self.operations (keyed id op there) ∙ there
    | inr zero ↦ let nothing : none ≡ some op = rw zero at found in cc
  ]

  run_failure-Keeps :
      (op : Operation E K) (error : Option ServiceError) (self : Batch E K)
      → self.operations op.id ≡ some op
      → IsKeyed self
      → ParseKeeps self (run_failure library op error self)
  unfolding run_failure
  run_failure-Keeps op none self there keyed = tt
  run_failure-Keeps op (some error) self there keyed =
      run_callback-Keeps self op none (some error) there keyed

  run_success-Keeps :
      (op : Operation E K) (entry : E ⊎ ServiceError) (self : Batch E K)
      → self.operations op.id ≡ some op
      → IsKeyed self
      → ParseKeeps self (run_success library op entry self)
  unfolding run_success
  run_success-Keeps op (inl e) self there keyed =
      run_callback-Keeps self op (some e) none there keyed
  run_success-Keeps op (inr error) self there keyed = Keeps-refl self keyed

  take_entry-Keeps :
      (o : Option (Operation E K)) (f : Found) (node : Node) (self : Batch E K) (id : ℕ)
      → get_operation self id ≡ o
      → IsKeyed self
      → ParseKeeps self (take_entry library o f node self)
  unfolding take_entry
  take_entry-Keeps none f node self id found keyed = tt
  take_entry-Keeps (some op) f node self id found keyed =
      let there = get_operation-there self id op keyed found in
      elim (Bool-cases (not (library.is_successful (library.status_of f.status_code)))) [
        | inl bad ↦ rw bad (
            run_failure-Keeps op
              (parse_batch_error (passed_as op.type) f.status_code (library.status_of f.status_code)
                (or_null f.status_reason) (some f.status_response))
              self there keyed)
        | inr good ↦ elim (Bool-cases (is_deletion library op.type)) [
          | inl deleted ↦ rw (good, deleted) (run_callback-Keeps self op none none there keyed)
          | inr kept ↦
              rw (good, kept) (run_success-Keeps op (library.read_entry op node) self there keyed)
        ]
      ]

  check_found-Keeps :
      (f : Option Found) (node : Node) (self : Batch E K)
      → IsKeyed self
      → ParseKeeps self (check_found library f node self)
  unfolding check_found
  check_found-Keeps none node self keyed = tt
  check_found-Keeps (some f) node self keyed = elim (Bool-cases (f.id == 0)) [
    | inl no_id ↦ rw no_id (Keeps-refl self keyed)
    | inr an_id ↦ elim (Bool-cases (f.status_code == 0)) [
      | inl no_status ↦ rw (an_id, no_status) (Keeps-refl self keyed)
      | inr a_status ↦
          rw (an_id, a_status)
            (take_entry-Keeps (get_operation self f.id) f node self f.id refl keyed)
    ]
  ]

  parse_other-Keeps :
      (e : Option ServiceError) (self : Batch E K)
      → IsKeyed self
      → ParseKeeps self (parse_other library e self)
  unfolding parse_other
  parse_other-Keeps none self keyed = Keeps-refl self keyed
  parse_other-Keeps (some e) self keyed = Keeps-refl self keyed

  parse_xml-Keeps :
      (node : Node) (self : Batch E K)
      → IsKeyed self
      → ParseKeeps self (parse_xml library node self)
  unfolding parse_xml
  parse_xml-Keeps node self keyed = elim (Bool-cases (text_eq node.element.name (codes "entry"))) [
    | inl entry ↦
        rw entry
          (check_found-Keeps (read_children library node.children nothing_found) node self keyed)
    | inr other ↦ rw other (parse_other-Keeps (library.parse_feed_node node) self keyed)
  ]

  ParseKeeps-later :
      (a b : Batch E K) (p : Parse (Batch E K)) → Keeps a b → ParseKeeps b p → ParseKeeps a p
  ParseKeeps-later a b (parsed c) h k = Keeps-trans a b c h k
  ParseKeeps-later a b (refused c error) h k = Keeps-trans a b c h k
  ParseKeeps-later a b crashed h k = tt

  parse_nodes-Keeps :
      (nodes : List Node) (self : Batch E K)
      → IsKeyed self
      → ParseKeeps self (parse_nodes library nodes self)
  unfolding parse_nodes
  parse_nodes-Keeps [] self keyed = Keeps-refl self keyed
  parse_nodes-Keeps (node ∷ nodes) self keyed =
      go_on (parse_nodes-Keeps nodes) (parse_xml library node self)
        (parse_xml-Keeps node self keyed)
    where
      go_on :
          ((b : Batch E K) → IsKeyed b → ParseKeeps b (parse_nodes library nodes b))
          → (p : Parse (Batch E K)) → ParseKeeps self p
          → ParseKeeps self (elim p [
            | parsed self' ↦ parse_nodes library nodes self'
            | refused self' error ↦ refused self' error
            | crashed ↦ crashed
          ])
      go_on ih (parsed self') h =
          ParseKeeps-later self self' (parse_nodes library nodes self') h (ih self' h.keyed)
      go_on ih (refused self' error) h = h
      go_on ih crashed h = tt

  then_check-Keeps :
      (e : Option ServiceError) (self : Batch E K) (p : Parse (Batch E K))
      → ParseKeeps self p
      → ParseKeeps self (then_check library e p)
  then_check-Keeps none self p h = h
  then_check-Keeps (some e) self (parsed self') h = h
  then_check-Keeps (some e) self (refused self' error) h = h
  then_check-Keeps (some e) self crashed h = tt

  pub parse_answer-Keeps :
      (answer : List Node ⊎ ServiceError) (self : Batch E K)
      → IsKeyed self
      → ParseKeeps self (parse_answer library answer self)
  unfolding parse_answer
  parse_answer-Keeps (inl nodes) self keyed =
      then_check-Keeps (library.post_parse nodes) self (parse_nodes library nodes self)
        (parse_nodes-Keeps nodes self keyed)
  parse_answer-Keeps (inr error) self keyed = Keeps-refl self keyed
