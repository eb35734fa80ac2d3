-- ===== src/Cache/Redis/Kept.antt =====
-- Storing removes no key (internal/cache/redis.go).
use mercury_relay.Prelude.{
  ℕ, ◌+◌, String, ◌≡◌, Bool, true, none, List, [], pos, ◌≤ℤ◌, ◌∷◌, ◌<>◌, ltb, inl, inr, All, arith,
  length, Option-cases, Bool-cases, Sum-cases, if◌then◌else◌,
}
use mercury_relay.Prelude.Decimal.{itoa}
use mercury_relay.Models.Event.{Event, Tags}
use mercury_relay.Models.Codec.{Codec}
use mercury_relay.Cache.Redis.{
  Client, Versions, Step, run_steps, index, index_tags, key_of, version_of, is_replaceable_event,
  add_version, store_replaceable_event, later_steps,
}

-- Unless it fails, `Exists` finds the key.
abbrev pub holds : (C : Client) → String → C.State → Bool
holds C key st = elim (C.exists key st) [ inl err ↦ true | inr n ↦ ltb 0 n ]

-- What Redis documents of the existence of keys, as long as no time to live runs out: a key that was
-- set is there, and setting, adding to a set, pushing, and giving a positive time to live remove
-- none. Whether a call gets an answer is not promised.
pub record IsRedis (C : Client) : Type 0 where
  pub set_holds :
      (key value : String) (st : C.State)
      → (C.set key value st).1 ≡ none
      → holds C key (C.set key value st).0 ≡ true
  pub set_keeps :
      (j key value : String) (st : C.State)
      → holds C j st ≡ true
      → holds C j (C.set key value st).0 ≡ true
  pub sadd_keeps :
      (j key value : String) (st : C.State)
      → holds C j st ≡ true
      → holds C j (C.sadd key value st).0 ≡ true
  pub expire_keeps :
      (j key : String) (st : C.State)
      → pos 1 ≤ℤ C.ttl
      → holds C j st ≡ true
      → holds C j (C.expire key st) ≡ true
  pub lpush_keeps :
      (j key value : String) (st : C.State)
      → holds C j st ≡ true
      → holds C j (C.lpush key value st).0 ≡ true

module _ (C : Client) (laws : IsRedis C) (live : pos 1 ≤ℤ C.ttl) (j : String) where
  open C use {State}

  unfoldable pub Keeps : Step C → Type 0
  Keeps step = (st : State) → holds C j st ≡ true → holds C j (step st).0 ≡ true

  pub run_steps-Keeps : (steps : List (Step C)) → All Keeps steps → Keeps (run_steps C steps)
  unfolding run_steps Keeps
  run_steps-Keeps [] h st k = k
  run_steps-Keeps (step ∷ steps) h st k =
      ground (arith, run_steps-Keeps steps h.1 (step st).0, h.0 st k)

  index-Keeps : (key id : String) → Keeps (index C key id)
  unfolding index Keeps
  index-Keeps key id st k =
      ground
        (arith, laws.sadd_keeps j key id st k, laws.expire_keeps j key (C.sadd key id st).0 live)

  index_tags-Keeps : (id : String) (tags : Tags) → All Keeps (index_tags C id tags)
  unfolding index_tags
  index_tags-Keeps id [] = tt
  index_tags-Keeps id ([] ∷ tags) = index_tags-Keeps id tags
  index_tags-Keeps id ((t ∷ []) ∷ tags) = index_tags-Keeps id tags
  index_tags-Keeps id ((t ∷ v ∷ more) ∷ tags) =
      (index-Keeps ("tag:" <> t <> ":" <> v) id, index_tags-Keeps id tags)

  module _ {F : Type 0} (codec : Codec F) (versions : Versions) where
    add_version-Keeps : (e : Event F) (count : ℕ) → Keeps (add_version C codec versions e count)
    unfolding add_version Keeps
    add_version-Keeps e count st k =
        elim (Option-cases (versions.marshal_version (version_of C codec versions e (count + 1)))) [
          | inl m ↦ rw (add_version, m) k
          | inr (text, m) ↦
              let list = "replaceable:" <> key_of C codec versions e in
              let pushed = (C.lpush list text st).0 in
              rw (add_version, m)
                (ground (
                  arith,
                  laws.lpush_keeps j list text st k,
                  laws.expire_keeps j list pushed live,
                  laws.set_keeps j ("latest:" <> key_of C codec versions e) e.id
                      (C.expire list pushed),
                ))
        ]

    store_replaceable_event-Keeps :
        (e : Event F) → Keeps (store_replaceable_event C codec versions e)
    unfolding store_replaceable_event Keeps
    store_replaceable_event-Keeps e st k =
        elim (Sum-cases (C.lrange ("replaceable:" <> key_of C codec versions e) st)) [
          | inl (err, m) ↦ rw (store_replaceable_event, m) k
          | inr (existing, m) ↦
              rw (store_replaceable_event, m) (add_version-Keeps e (length existing) st k)
        ]

    version_step-Keeps :
        (e : Event F)
        → Keeps (
            if is_replaceable_event e.kind
            then store_replaceable_event C codec versions e
            else (λ st. (st, none)))
    unfolding Keeps
    version_step-Keeps e st k = elim (Bool-cases (is_replaceable_event e.kind)) [
      | inl r ↦ rw r (store_replaceable_event-Keeps e st k)
      | inr r ↦ rw r k
    ]

    pub later_steps-Keeps : (e : Event F) → All Keeps (later_steps C codec versions e)
    unfolding later_steps
    later_steps-Keeps e = (
      version_step-Keeps e,
      (
        index-Keeps ("author:" <> e.pub_key) e.id,
        (index-Keeps ("kind:" <> itoa e.kind) e.id, index_tags-Keeps e.id e.tags),
      ),
    )

  -- A first step that brings the key, and further ones that keep it.
  pub run_steps-holds :
      (first : Step C) (rest : List (Step C)) (st : State)
      → ((first st).1 ≡ none → holds C j (first st).0 ≡ true)
      → All Keeps rest
      → (run_steps C (first ∷ rest) st).1 ≡ none
      → holds C j (run_steps C (first ∷ rest) st).0 ≡ true
  unfolding run_steps Keeps
  run_steps-holds first rest st brings keeps h =
      ground (arith, run_steps-Keeps rest keeps (first st).0)
