-- ===== src/Relay/Matching/Criteria.antt =====
-- What `eventMatchesFilter` (internal/relay/relay.go) asks of an event.
use mercury_relay.Prelude.{
  String, eq_iff, ◌≡◌, ◌↔◌, refl, true, false, Option, none, some, List, [], ◌∷◌, ℤ, elem, elem_ℤ,
  arith, Any, eq_ℤ_iff,
}
use mercury_relay.Models.Event.{Event}
use mercury_relay.Models.Filter.{Filter, IsSince, IsUntil}
use mercury_relay.Relay.Matching.{
  author_matches, kind_matches, before_since, after_until, event_matches_filter,
}

-- A list that asks for nothing, or for one of its elements.
abbrev pub IsAsked : {A : Type 0} → A → List A → Type 0
IsAsked a [] = Unit
IsAsked a (x ∷ xs) = Any (λ y. a ≡ y) (x ∷ xs)

elem_iff : (s : String) (ts : List String) → (elem s ts ≡ true) ↔ Any (λ t. s ≡ t) ts
elem_iff s [] = ground arith
elem_iff s (t ∷ ts) = ground (arith, eq_iff s t, elem_iff s ts)

elem_ℤ_iff : (k : ℤ) (ks : List ℤ) → (elem_ℤ k ks ≡ true) ↔ Any (λ j. k ≡ j) ks
elem_ℤ_iff k [] = ground arith
elem_ℤ_iff k (j ∷ ks) = ground (arith, eq_ℤ_iff k j, elem_ℤ_iff k ks)

author_matches_iff :
    (authors : List String) (pubkey : String)
    → (author_matches authors pubkey ≡ true) ↔ IsAsked pubkey authors
unfolding author_matches
author_matches_iff [] pubkey = ground arith
author_matches_iff (a ∷ authors) pubkey = elem_iff pubkey (a ∷ authors)

kind_matches_iff :
    (kinds : List ℤ) (kind : ℤ) → (kind_matches kinds kind ≡ true) ↔ IsAsked kind kinds
unfolding kind_matches
kind_matches_iff [] kind = ground arith
kind_matches_iff (k ∷ kinds) kind = elem_ℤ_iff kind (k ∷ kinds)

before_since_iff : (since : Option ℤ) (t : ℤ) → (before_since since t ≡ false) ↔ IsSince since t
unfolding before_since
before_since_iff none t = ground arith
before_since_iff (some since) t = ground arith

after_until_iff : (until : Option ℤ) (t : ℤ) → (after_until until t ≡ false) ↔ IsUntil until t
unfolding after_until
after_until_iff none t = ground arith
after_until_iff (some until) t = ground arith

pub record IsMatch {F : Type 0} (e : Event F) (filter : Filter) : Type 0 where
  pub author : IsAsked e.pub_key filter.authors
  pub kind : IsAsked e.kind filter.kinds
  pub since : IsSince filter.since e.created_at
  pub until : IsUntil filter.until e.created_at

-- An event matches a filter exactly when its author is listed or no author is, its kind likewise,
-- and its time is within those of the bounds that are given and positive.
pub event_matches_filter_iff :
    {F : Type 0} (e : Event F) (filter : Filter)
    → (event_matches_filter e filter ≡ true) ↔ IsMatch e filter
unfolding event_matches_filter
event_matches_filter_iff e filter =
    let author_iff = author_matches_iff filter.authors e.pub_key in
    let kind_iff = kind_matches_iff filter.kinds e.kind in
    let since_iff = before_since_iff filter.since e.created_at in
    let until_iff = after_until_iff filter.until e.created_at in
    (
      λ h. record {
        author = author_iff.0 (ground arith);
        kind = kind_iff.0 (ground arith);
        since = since_iff.0 (ground arith);
        until = until_iff.0 (ground arith);
      },
      λ m.
          rw (author_iff.1 m.author, kind_iff.1 m.kind, since_iff.1 m.since, until_iff.1 m.until)
            refl,
    )
