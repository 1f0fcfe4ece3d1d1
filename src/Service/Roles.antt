-- ===== src/Service/Roles.antt =====
-- src/service.cc, `FindMessageForRole`: the search with the iterators of src/json/json.h, and the
-- recursion over the elements that the handler is modelled with.
use gabby.Base.{
  ℕ, zero, suc, ◌+◌, ◌^◌, ◌<◌, Bool, true, false, ◌++◌, Bytes, codes, bytes_eq, if◌then◌else◌, ◌≡◌,
  refl, ap, ◌∙◌, arith,
}
use gabby.Outcome.{Outcome, ok, throws, aborts, out_of_fuel, bind, bad_request}
use gabby.Json.Value.{Value, Items, no_items, item, items_size}
use gabby.Json.Iterator.{
  Arrays, Iterator, begin, end, deref, same, find_if, skip, skip-nth, at_index, deref-at_index,
  before-end, same-end, find_if-end, find_if-next,
}
use gabby.Service.{Message, text_at, message_of, find_message_for_role}

-- the test that `std::find_if` is given
unfoldable pub has_role : Bytes → Value → Outcome Bool
unfolding text_at
has_role role v = bind (text_at (codes "role") v) λ r. ok (bytes_eq r role)

-- what follows the search
abbrev pub message_at : Arrays → Bytes → ℕ → Iterator → Outcome Message
message_at arrays role a it =
    if same it (end arrays a)
    then throws (bad_request (codes "role " ++ (role ++ codes " not found")))
    else bind (deref arrays it) message_of

-- `FindMessageForRole`, with fuel for `std::find_if`
unfoldable pub search_for_role : Arrays → ℕ → Bytes → ℕ → Outcome Message
unfolding has_role find_if begin end same deref message_of
search_for_role arrays fuel role a =
    bind (find_if arrays (has_role role) fuel (begin a) (end arrays a)) (message_at arrays role a)

module _ (arrays : Arrays) (a : ℕ) (role : Bytes) (short : items_size (arrays a) < 2 ^ 31) where
  found-here :
      (i : ℕ) {v : Value} {rest : Items}
      → skip i (arrays a) ≡ item v rest
      → message_at arrays role a (at_index a i) ≡ message_of v
  found-here i h =
      let (_, (_, below)) = skip-nth i (arrays a) h in
      rw (before-end arrays a short i below, deref-at_index arrays a short i h) refl

  -- Both sides of the search test one element alike.
  one_round :
      (r : Outcome Bytes) (here next : Outcome Iterator) (v : Value) (rest : Outcome Message)
      → bind here (message_at arrays role a) ≡ message_of v
      → bind next (message_at arrays role a) ≡ rest
      → bind
          (bind (bind r (λ t. ok (bytes_eq t role))) (λ b. if b then here else next))
          (message_at arrays role a)
        ≡ bind r (λ t. if bytes_eq t role then message_of v else rest)
  one_round (ok t) here next v rest p q =
      elim (bytes_eq t role)
        as (λ b.
          bind (if b then here else next) (message_at arrays role a)
          ≡ (if b then message_of v else rest)) [ true ↦ p | false ↦ q ]
  one_round (throws e) here next v rest p q = refl
  one_round aborts here next v rest p q = refl
  one_round out_of_fuel here next v rest p q = refl

  search-from :
      (rest : Items) (fuel i : ℕ)
      → skip i (arrays a) ≡ rest
      → i + items_size rest ≡ items_size (arrays a)
      → items_size rest < fuel
      → bind
          (find_if arrays (has_role role) fuel (at_index a i) (end arrays a))
          (message_at arrays role a)
        ≡ find_message_for_role role rest
  unfolding find_message_for_role items_size has_role
  search-from rest zero i h e f = absurd (omega arith)
  search-from no_items (suc fuel) i h e f =
      rw
        (
          find_if-end arrays a short (has_role role) fuel i (omega arith),
          same-end arrays a short i (omega arith),
        )
        refl
  search-from (item v rest) (suc fuel) i h e f =
      let (_, (next, _)) = skip-nth i (arrays a) h in
      ap (λ o. bind o (message_at arrays role a))
        (find_if-next arrays a short (has_role role) fuel i h)
      ∙ one_round (text_at (codes "role") v) (ok (at_index a i))
          (find_if arrays (has_role role) fuel (at_index a (suc i)) (end arrays a)) v
          (find_message_for_role role rest) (found-here i h)
          (search-from rest fuel (suc i) next (omega arith) (omega arith))

  -- In an array of fewer than 2^31 elements, and with more rounds than it has elements, the search by
  -- iterators ends: it gives the message of the first element with the role, the exception of the first
  -- element without a text under `role` that stands before it, or, where no element has the role, the
  -- exception that says so.
  pub search_for_role-find_message_for_role :
      (fuel : ℕ)
      → items_size (arrays a) < fuel
      → search_for_role arrays fuel role a ≡ find_message_for_role role (arrays a)
  unfolding search_for_role begin
  search_for_role-find_message_for_role fuel f = search-from (arrays a) fuel 0 refl (omega arith) f
