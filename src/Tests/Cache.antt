-- ===== src/Tests/Cache.antt =====
-- Examples for internal/cache.
use mercury_relay.Prelude.{
  ℕ, String, ◌⊎◌, inl, inr, Option, none, some, List, [], ◌∷◌, pos, Dict, lookup, insert, erase,
}
use mercury_relay.Models.Filter.{Filter}
use mercury_relay.Models.Codec.{Codec}
use mercury_relay.Cache.Redis.{Client, Versions}
use mercury_relay.Tests.Data.{note}

-- A client over one map, in which a set keeps its last member only.
abbrev count_of : Option String → ℕ
count_of none = 0
count_of (some value) = 1

abbrev value_of : Option String → String ⊎ String
value_of none = inl "nil"
value_of (some value) = inr value

abbrev list_of : Option String → String ⊎ List String
list_of none = inr []
list_of (some value) = inr (value ∷ [])

abbrev client : Client
client = record {
  State = Dict String;
  Error = String;
  ttl = pos 3600000000000;
  exists = λ key st. inr (count_of (lookup key st));
  set = λ key value st. (insert key value st, none);
  get = λ key st. value_of (lookup key st);
  del = λ key st. (erase key st, none);
  sadd = λ key value st. (insert key value st, none);
  smembers = λ key st. list_of (lookup key st);
  expire = λ key st. st;
  keys = λ pattern st. inr [];
  lrange = λ key st. inr [];
  lpush = λ key value st. (insert key value st, none);
}

abbrev pub codec : Codec ℕ
codec = record { marshal = λ e. some e.id; unmarshal = λ s. some (record note { id = s }) }

abbrev versions : Versions
versions = record { marshal_version = λ v. some v.event_id; sha256_hex = λ s. s }

abbrev by_alice : Filter
by_alice = record {
  ids = [];
  authors = "alice" ∷ [];
  kinds = [];
  since = some (pos 900);
  until = none;
  limit = pos 0;
}

abbrev state : Dict String
state = ("author:alice", "id") ∷ ("event:id", "id") ∷ []
