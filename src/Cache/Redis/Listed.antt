-- ===== src/Cache/Redis/Listed.antt =====
-- Which identifiers a query of the cache looks at (internal/cache/redis.go).
use mathlib.Core.Path.{subst}
use mercury_relay.Prelude.{
  String, ◌<>◌, ◌≡◌, ◌↔◌, ◌⊎◌, refl, sym, List, [], ◌∷◌, inl, inr, Any, IsIn, Any-append, arith, ℤ,
  map, Sum-cases,
}
use mercury_relay.Prelude.Decimal.{itoa}
use mercury_relay.Models.Filter.{Filter}
use mercury_relay.Models.Codec.{Codec}
use mercury_relay.Cache.Redis.{
  Client, Versions, event_ids, members, author_keys, kind_keys, after_prefix,
}

module _ (C : Client) {F : Type 0} (codec : Codec F) (versions : Versions) (st : C.State) where
  -- An identifier in the set under a key.
  abbrev pub IsMember : String → String → Type 0
  IsMember key id = (ids : List String) × ((C.smembers key st ≡ inr ids) × IsIn id ids)

  abbrev pub IsListed : List String → List ℤ → String → Type 0
  IsListed (author ∷ authors) kinds id = Any (λ a. IsMember ("author:" <> a) id) (author ∷ authors)
  IsListed [] (kind ∷ kinds) id = Any (λ k. IsMember ("kind:" <> itoa k) id) (kind ∷ kinds)
  IsListed [] [] id =
      (keys : List String) × ((C.keys "event:*" st ≡ inr keys)
        × Any (λ key. after_prefix key ≡ id) keys)

  same_members : (ids js : List String) → Path (C.Error ⊎ List String) (inr ids) (inr js) → js ≡ ids
  same_members ids js e = ground arith

  -- The sets under a list of keys.
  members_iff :
      (keys : List String) (id : String)
      → IsIn id (members C codec versions keys st) ↔ Any (λ key. IsMember key id) keys
  unfolding members
  members_iff [] id = (λ h. h, λ h. h)
  members_iff (key ∷ keys) id =
      let more = members_iff keys id in
      elim (Sum-cases (C.smembers key st)) [
        | inl (err, g) ↦
            rw (members, g)
              (
                λ h. inr (more.0 h),
                λ h. elim h [ inl (ids, (e, i)) ↦ absurd (ground arith) | inr k ↦ more.1 k ],
              )
        | inr (ids, g) ↦
            let split = Any-append (λ x. x ≡ id) ids (members C codec versions keys st) in
            rw (members, g)
              (
                λ h. elim (split.0 h) [ inl i ↦ inl (ids, (refl, i)) | inr k ↦ inr (more.0 k) ],
                λ h. elim h [
                  | inl (js, (e, i)) ↦
                      split.1 (inl (subst (λ xs. IsIn id xs) (same_members ids js e) i))
                  | inr k ↦ split.1 (inr (more.1 k))
                ],
              )
      ]

  author_keys_iff :
      (authors : List String) (id : String)
      → Any (λ key. IsMember key id) (author_keys C codec versions authors)
        ↔ Any (λ a. IsMember ("author:" <> a) id) authors
  unfolding author_keys
  author_keys_iff [] id = (λ h. h, λ h. h)
  author_keys_iff (author ∷ authors) id =
      let more = author_keys_iff authors id in
      (
        λ h. elim h [ inl i ↦ inl i | inr k ↦ inr (more.0 k) ],
        λ h. elim h [ inl i ↦ inl i | inr k ↦ inr (more.1 k) ],
      )

  kind_keys_iff :
      (kinds : List ℤ) (id : String)
      → Any (λ key. IsMember key id) (kind_keys C codec versions kinds)
        ↔ Any (λ k. IsMember ("kind:" <> itoa k) id) kinds
  unfolding kind_keys
  kind_keys_iff [] id = (λ h. h, λ h. h)
  kind_keys_iff (kind ∷ kinds) id =
      let more = kind_keys_iff kinds id in
      (
        λ h. elim h [ inl i ↦ inl i | inr k ↦ inr (more.0 k) ],
        λ h. elim h [ inl i ↦ inl i | inr k ↦ inr (more.1 k) ],
      )

  after_prefix_iff :
      (keys : List String) (id : String)
      → IsIn id (map after_prefix keys) ↔ Any (λ key. after_prefix key ≡ id) keys
  after_prefix_iff [] id = (λ h. h, λ h. h)
  after_prefix_iff (key ∷ keys) id =
      let more = after_prefix_iff keys id in
      (
        λ h. elim h [ inl i ↦ inl i | inr k ↦ inr (more.0 k) ],
        λ h. elim h [ inl i ↦ inl i | inr k ↦ inr (more.1 k) ],
      )

  under_keys :
      (keys ids : List String) (id : String)
      → Path (C.Error ⊎ List String) (inr (members C codec versions keys st)) (inr ids)
      → IsIn id ids ↔ Any (λ key. IsMember key id) keys
  under_keys keys ids id h =
      subst (λ xs. IsIn id xs ↔ Any (λ key. IsMember key id) keys)
        (sym (same_members (members C codec versions keys st) ids h)) (members_iff keys id)

  pub event_ids_iff :
      (filter : Filter) (authors : List String) (kinds : List ℤ) (ids : List String) (id : String)
      → event_ids C codec versions (record filter { authors = authors; kinds = kinds }) st ≡ inr ids
      → IsIn id ids ↔ IsListed authors kinds id
  unfolding event_ids
  event_ids_iff filter (author ∷ authors) kinds ids id h =
      let under = under_keys (author_keys C codec versions (author ∷ authors)) ids id h in
      let by_author = author_keys_iff (author ∷ authors) id in
      (λ i. by_author.0 (under.0 i), λ l. under.1 (by_author.1 l))
  event_ids_iff filter [] (kind ∷ kinds) ids id h =
      let under = under_keys (kind_keys C codec versions (kind ∷ kinds)) ids id h in
      let by_kind = kind_keys_iff (kind ∷ kinds) id in
      (λ i. by_kind.0 (under.0 i), λ l. under.1 (by_kind.1 l))
  event_ids_iff filter [] [] ids id h = elim (Sum-cases (C.keys "event:*" st)) [
    | inl (err, g) ↦ absurd (ground arith)
    | inr (keys, g) ↦
        let same = same_members (map after_prefix keys) ids (rw (event_ids, g) at h) in
        (
          λ i. (keys, (g, (after_prefix_iff keys id).0 (subst (λ xs. IsIn id xs) same i))),
          λ (others, (g', l)).
              let same' = same_members (map after_prefix others) ids (rw (event_ids, g') at h) in
              subst (λ xs. IsIn id xs) (sym same') ((after_prefix_iff others id).1 l),
        )
  ]
