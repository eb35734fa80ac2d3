-- ===== src/Rest/Diff.antt =====
-- What the difference of two versions says (internal/api/history.go).
use mercury_relay.Prelude.{
  String, str_eq, ◌≡◌, sym, ◌∙◌, Bool, true, false, not, ◌&&◌, Option, none, some, List, [], ◌∷◌,
  ◌++◌, append-nil, append_assoc, filter, arith, ap,
}
use mercury_relay.Prelude.Json.{Json, Fields, get}
use mercury_relay.Rest.History.{
  Diff, empty_diff, compare_field, compare_fields, calculate_event_diff,
}

abbrev pub is_some : {A : Type 0} → Option A → Bool
is_some none = false
is_some (some a) = true

module _ {F : Type 0} (sprint : Json F → String) (from to : Fields F) where
  -- The field is only in the second version, only in the first, or in both and printed differently.
  abbrev pub only_in_to : String → Bool
  only_in_to name = not (is_some (get name from)) && is_some (get name to)

  abbrev pub only_in_from : String → Bool
  only_in_from name = is_some (get name from) && not (is_some (get name to))

  abbrev pub differ : Option (Json F) → Option (Json F) → Bool
  differ (some a) (some b) = not (str_eq (sprint a) (sprint b))
  differ _ _ = false

  -- The lists of a difference after those of another.
  pub record IsDiff (names : List String) (old new : Diff F) : Type 0 where
    pub added : new.added ≡ old.added ++ filter only_in_to names
    pub removed : new.removed ≡ old.removed ++ filter only_in_from names
    pub modified :
        new.modified ≡ old.modified ++ filter (λ name. differ (get name from) (get name to)) names

  step :
      (name : String) (d : Diff F)
      → IsDiff (name ∷ []) d (compare_field sprint name (get name from) (get name to) d)
  unfolding compare_field
  step name d = record {
    added = ground (arith, append-nil d.added);
    removed = ground (arith, append-nil d.removed);
    modified = ground (arith, append-nil d.modified);
  }

  split :
      (p : String → Bool) (name : String) (names : List String)
      → filter p (name ∷ []) ++ filter p names ≡ filter p (name ∷ names)
  split p name names = ground arith

  -- One name after another.
  chain :
      (p : String → Bool) (name : String) (names old mid new : List String)
      → mid ≡ old ++ filter p (name ∷ [])
      → new ≡ mid ++ filter p names
      → new ≡ old ++ filter p (name ∷ names)
  chain p name names old mid new first rest =
      rest
      ∙ ap (λ l. l ++ filter p names) first
      ∙ append_assoc old (filter p (name ∷ [])) (filter p names)
      ∙ ap (λ l. old ++ l) (split p name names)

  all_steps :
      (names : List String) (d : Diff F) → IsDiff names d (compare_fields sprint names from to d)
  unfolding compare_fields
  all_steps [] d = record {
    added = sym (append-nil d.added);
    removed = sym (append-nil d.removed);
    modified = sym (append-nil d.modified);
  }
  all_steps (name ∷ names) d =
      let d' = compare_field sprint name (get name from) (get name to) d in
      let new = compare_fields sprint names from to d' in
      let one = step name d in
      let rest = all_steps names d' in
      record {
        added = chain only_in_to name names d.added d'.added new.added one.added rest.added;
        removed =
            chain only_in_from name names d.removed d'.removed new.removed one.removed rest.removed;
        modified =
            chain (λ n. differ (get n from) (get n to)) name names d.modified d'.modified
              new.modified one.modified rest.modified;
      }

  -- Of the fields event_id, created_at and hash, a difference lists as added those that the second
  -- version alone has, as removed those that the first alone has, and as modified those of both
  -- that are printed differently, in this order.
  pub calculate_event_diff-IsDiff :
      IsDiff
        ("event_id" ∷ "created_at" ∷ "hash" ∷ [])
        empty_diff
        (calculate_event_diff sprint from to)
  unfolding calculate_event_diff
  calculate_event_diff-IsDiff = all_steps ("event_id" ∷ "created_at" ∷ "hash" ∷ []) empty_diff
