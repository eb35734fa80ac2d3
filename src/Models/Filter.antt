-- ===== src/Models/Filter.antt =====
-- The subscription filter, `nostr.Filter`, as far as the program reads and writes it.
use mercury_relay.Prelude.{String, Option, none, some, List, [], ◌⊎◌, ◌≤ℤ◌, ℤ, pos}

pub record Filter : Type 0 where
  pub ids : List String
  pub authors : List String
  pub kinds : List ℤ
  pub since : Option ℤ
  pub until : Option ℤ
  pub limit : ℤ

-- `nostr.Filter{}`
abbrev pub empty_filter : Filter
empty_filter = record {
  ids = [];
  authors = [];
  kinds = [];
  since = none;
  until = none;
  limit = pos 0;
}

-- The bounds of the time, of which one that is not positive asks for nothing.
abbrev pub IsSince : Option ℤ → ℤ → Type 0
IsSince none t = Unit
IsSince (some since) t = (since ≤ℤ pos 0) ⊎ (since ≤ℤ t)

abbrev pub IsUntil : Option ℤ → ℤ → Type 0
IsUntil none t = Unit
IsUntil (some until) t = (until ≤ℤ pos 0) ⊎ (t ≤ℤ until)
