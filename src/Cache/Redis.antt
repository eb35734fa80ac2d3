-- ===== src/Cache/Redis.antt =====
-- internal/cache/redis.go: the cache of events in Redis, over a client that is a parameter.
pub mod Kept
pub mod Once
pub mod Listed
pub mod Answers
use Prim.Native.String.{String}
use mercury_relay.Prelude.{
  ℕ, zero, suc, map, ◌+◌, ◌<>◌, str_eq, Bool, true, false, ◌&&◌, ◌⊎◌, inl, inr, Option, none, some,
  List, [], ◌∷◌, ◌++◌, ℤ, pos, ltb, ltb_ℤ, elem_ℤ, length, if◌then◌else◌,
}
use mercury_relay.Prelude.Decimal.{itoa}
use mercury_relay.Prelude.Json
use mercury_relay.Prelude.Json.{Stdlib, Fields}
use mercury_relay.Models.Event.{Event, Tags}
use mercury_relay.Models.Filter.{Filter}
use mercury_relay.Models.Codec.{Codec}
use mercury_relay.Cache.{Cache}

-- The calls of `go-redis`. An answer of reading is an error or a value; a missing key is an error
-- of `get`, and an empty list elsewhere.
pub record Client : Type 1 where
  pub State : Type 0
  pub Error : Type 0
  -- `config.TTL`, in nanoseconds, which every `Set` and `Expire` is given.
  pub ttl : ℤ
  pub exists : String → State → Error ⊎ ℕ
  pub set : String → String → State → State × Option Error
  pub get : String → State → Error ⊎ String
  pub del : String → State → State × Option Error
  pub sadd : String → String → State → State × Option Error
  pub smembers : String → State → Error ⊎ List String
  pub expire : String → State → State
  pub keys : String → State → Error ⊎ List String
  pub lrange : String → State → Error ⊎ List String
  pub lpush : String → String → State → State × Option Error

-- A version of a replaceable event.
pub record Version : Type 0 where
  pub event_id : String
  pub version : ℕ
  pub created_at : ℤ
  pub hash : String

-- The JSON of a version, and SHA-256 in hexadecimal: the libraries' work.
pub record Versions : Type 0 where
  pub marshal_version : Version → Option String
  pub sha256_hex : String → String

abbrev pub event_key : String → String
event_key id = "event:" <> id

abbrev pub replaceable_kinds : List ℤ
replaceable_kinds =
    pos 0
    ∷ pos 3
    ∷ pos 5
    ∷ pos 6
    ∷ pos 7
    ∷ pos 8
    ∷ pos 40
    ∷ pos 41
    ∷ pos 42
    ∷ pos 43
    ∷ pos 44
    ∷ pos 10002
    ∷ pos 30000
    ∷ pos 30001
    ∷ pos 30008
    ∷ pos 30009
    ∷ pos 30078
    ∷ []

unfoldable pub is_replaceable_event : ℤ → Bool
is_replaceable_event kind = elem_ℤ kind replaceable_kinds

-- The value of the first "d" tag, or the empty text.
unfoldable pub d_tag : Tags → String
d_tag [] = ""
d_tag ((t ∷ v ∷ more) ∷ tags) = let rest = d_tag tags in if str_eq t "d" then v else rest
d_tag (_ ∷ tags) = d_tag tags

abbrev pub version_key : ℤ → String → String → String
version_key kind pubkey d = itoa kind <> ":" <> pubkey <> ":" <> d

-- `eventMatchesFilter` of the cache, which reads the bounds of the time alone.
unfoldable pub in_bounds : Option ℤ → Option ℤ → ℤ → Bool
in_bounds since until created_at =
    if elim since [ none ↦ false | some s ↦ ltb_ℤ (pos 0) s && ltb_ℤ created_at s ]
    then false
    else if elim until [ none ↦ false | some u ↦ ltb_ℤ (pos 0) u && ltb_ℤ u created_at ]
    then false
    else true

-- `key[6:]`, on a key that starts with "event:".
unfoldable pub drop : ℕ → String → String
drop zero s = s
drop (suc n) String.[] = String.[]
drop (suc n) (String.◌∷◌ c s) = drop n s

unfoldable pub after_prefix : String → String
unfolding drop
after_prefix key = drop 6 key

pub data CacheError (E : Type 0) : Type 0 where
  exists_failed marshal_failed unmarshal_failed : CacheError E
  client_failed : E → CacheError E

module _ (C : Client) where
  open C use {State, Error}

  -- A step of `StoreEvent`, which ends at the first error.
  abbrev pub Step : Type 0
  Step = State → State × Option (CacheError Error)

  abbrev pub call : (State → State × Option Error) → Step
  call f st =
      let (st, failure) = f st in
      (st, elim failure [ none ↦ none | some err ↦ some (client_failed err) ])

  unfoldable pub run_steps : List Step → Step
  run_steps [] st = (st, none)
  run_steps (step ∷ steps) st =
      let (st, failure) = step st in
      elim failure [ none ↦ run_steps steps st | some err ↦ (st, some err) ]

  -- `SAdd` and the `Expire` after it.
  unfoldable pub index : String → String → Step
  index key id st =
      let (st, failure) = C.sadd key id st in
      elim failure [ none ↦ (C.expire key st, none) | some err ↦ (st, some (client_failed err)) ]

  unfoldable pub index_tags : String → Tags → List Step
  unfolding index
  index_tags id [] = []
  index_tags id ((t ∷ v ∷ more) ∷ tags) = index ("tag:" <> t <> ":" <> v) id ∷ index_tags id tags
  index_tags id (_ ∷ tags) = index_tags id tags

  module _ {F : Type 0} (codec : Codec F) (versions : Versions) where
    -- The key of `getReplaceableEventKey`.
    abbrev pub key_of : Event F → String
    key_of e = version_key e.kind e.pub_key (d_tag e.tags)

    unfoldable pub get_event_hash : Event F → String
    get_event_hash e =
        versions.sha256_hex (e.id <> ":" <> e.pub_key <> ":" <> itoa e.kind <> ":" <> e.content)

    abbrev pub version_of : Event F → ℕ → Version
    version_of e version = record {
      event_id = e.id;
      version = version;
      created_at = e.created_at;
      hash = get_event_hash e;
    }

    -- `storeReplaceableEvent` after the existing versions were counted.
    unfoldable pub add_version : Event F → ℕ → Step
    add_version e count st = elim (versions.marshal_version (version_of e (count + 1))) [
      | none ↦ (st, some marshal_failed)
      | some data_text ↦
          let (pushed, failure) = C.lpush ("replaceable:" <> key_of e) data_text st in
          elim failure [
            | some err ↦ (pushed, some (client_failed err))
            | none ↦
                call (C.set ("latest:" <> key_of e) e.id)
                  (C.expire ("replaceable:" <> key_of e) pushed)
          ]
    ]

    unfoldable pub store_replaceable_event : Event F → Step
    unfolding add_version
    store_replaceable_event e st = elim (C.lrange ("replaceable:" <> key_of e) st) [
      | inl err ↦ (st, some (client_failed err))
      | inr existing ↦ add_version e (length existing) st
    ]

    -- What `StoreEvent` does after the event is set: its version, and the indices.
    unfoldable pub later_steps : Event F → List Step
    unfolding index_tags store_replaceable_event
    later_steps e =
        (if is_replaceable_event e.kind then store_replaceable_event e else (λ st. (st, none)))
        ∷ index ("author:" <> e.pub_key) e.id
        ∷ index ("kind:" <> itoa e.kind) e.id
        ∷ index_tags e.id e.tags

    -- All of it for an event that is not there, once it is marshalled.
    unfoldable pub store_steps : Event F → String → List Step
    unfolding later_steps
    store_steps e body = call (C.set (event_key e.id) body) ∷ later_steps e

    unfoldable pub store_new : Event F → Step
    unfolding run_steps store_steps
    store_new e st = elim (codec.marshal e) [
      | none ↦ (st, some marshal_failed)
      | some body ↦ run_steps (store_steps e body) st
    ]

    unfoldable pub store_event : Event F → Step
    unfolding store_new
    store_event e st = elim (C.exists (event_key e.id) st) [
      | inl err ↦ (st, some exists_failed)
      | inr n ↦ if ltb 0 n then (st, none) else store_new e st
    ]

    unfoldable pub delete_event : String → Step
    delete_event id st = call (C.del (event_key id)) st

    -- The event under a key, or an error.
    unfoldable pub read_event : String → State → Option (Event F)
    read_event id st = elim (C.get (event_key id) st) [
      | inl err ↦ none
      | inr body ↦ codec.unmarshal body
    ]

    -- `GetLatestReplaceableEvent`; which of its errors it is does not matter to its callers here.
    unfoldable pub get_latest_replaceable_event : ℤ → String → String → State → Option (Event F)
    unfolding read_event
    get_latest_replaceable_event kind pubkey d st =
        elim (C.get ("latest:" <> version_key kind pubkey d) st) [
          | inl err ↦ none
          | inr id ↦ read_event id st
        ]

    -- The members of the sets under a list of keys; a key that fails is passed over.
    unfoldable pub members : List String → State → List String
    members [] st = []
    members (key ∷ keys) st =
        let rest = members keys st in
        elim (C.smembers key st) [ inl err ↦ rest | inr ids ↦ ids ++ rest ]

    unfoldable pub author_keys : List String → List String
    author_keys [] = []
    author_keys (author ∷ authors) = ("author:" <> author) ∷ author_keys authors

    unfoldable pub kind_keys : List ℤ → List String
    kind_keys [] = []
    kind_keys (kind ∷ kinds) = ("kind:" <> itoa kind) ∷ kind_keys kinds

    -- One identifier of the loop of `GetEvents`: the event that it adds, if any.
    unfoldable pub answer : Filter → String → State → Option (Event F)
    unfolding read_event get_latest_replaceable_event
    answer filter id st = elim (read_event id st) [
      | none ↦ none
      | some e ↦
          if in_bounds filter.since filter.until e.created_at
          then (if is_replaceable_event e.kind
              then get_latest_replaceable_event e.kind e.pub_key (d_tag e.tags) st
              else some e)
          else none
    ]

    unfoldable pub answers : Filter → List String → State → List (Event F)
    unfolding answer
    answers filter [] st = []
    answers filter (id ∷ ids) st =
        let rest = answers filter ids st in
        elim (answer filter id st) [ none ↦ rest | some e ↦ e ∷ rest ]

    -- The identifiers that `GetEvents` starts from.
    unfoldable pub event_ids : Filter → State → Error ⊎ List String
    unfolding members author_keys kind_keys after_prefix
    event_ids filter st = elim filter.authors [
      | author ∷ authors ↦ inr (members (author_keys (author ∷ authors)) st)
      | [] ↦ elim filter.kinds [
        | kind ∷ kinds ↦ inr (members (kind_keys (kind ∷ kinds)) st)
        | [] ↦ elim (C.keys "event:*" st) [
          | inl err ↦ inl err
          | inr keys ↦ inr (map after_prefix keys)
        ]
      ]
    ]

    unfoldable pub get_events : Filter → State → Error ⊎ List (Event F)
    unfolding event_ids answers
    get_events filter st = elim (event_ids filter st) [
      | inl err ↦ inl err
      | inr ids ↦ inr (answers filter ids st)
    ]

    module _ (lib : Stdlib F) where
      -- The loop over the versions; `null` decodes into the nil map, and what is no object is passed
      -- over.
      unfoldable pub decode_versions : List String → List (Fields F)
      decode_versions [] = []
      decode_versions (version_data ∷ more) =
          let rest = decode_versions more in
          elim (lib.decode version_data) [
            | some (Json.obj version) ↦ version ∷ rest
            | some Json.null ↦ Json.end ∷ rest
            | _ ↦ rest
          ]

      unfoldable pub get_replaceable_event_history :
          ℤ → String → String → State → Error ⊎ List (Fields F)
      unfolding decode_versions
      get_replaceable_event_history kind pubkey d st =
          elim (C.lrange ("replaceable:" <> version_key kind pubkey d) st) [
            | inl err ↦ inl err
            | inr versions ↦ inr (decode_versions versions)
          ]

      -- Redis as the cache of the other components.
      abbrev pub redis_cache : Cache F
      redis_cache = record {
        State = State;
        Error = CacheError Error;
        store_event = λ e st. store_event e st;
        delete_event = λ id st. delete_event id st;
        get_replaceable_event_history = λ kind pubkey d st.
            elim (get_replaceable_event_history kind pubkey d st) [
              | inl err ↦ inl (client_failed err)
              | inr history ↦ inr history
            ];
        get_latest_replaceable_event =
            λ kind pubkey d st. get_latest_replaceable_event kind pubkey d st;
        get_events = λ filter st. (
          st,
          elim (get_events filter st) [
            | inl err ↦ inl (client_failed err)
            | inr events ↦ inr events
          ],
        );
      }
