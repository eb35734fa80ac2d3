-- ===== src/Prelude/Maps.antt =====
-- Go's `map[string]V` as an association list. Proofs elsewhere go by the laws.
-- The order in which Go iterates over a map is unspecified; here it is the list's.

use Prim.Native.String.{String}
use mathlib.Core.Path.{◌≡◌, refl}
use mathlib.Core.Bool.{Bool, true, false}
use mathlib.Core.Option.{Option, none, some}
use mathlib.Core.List.{List, [], ◌∷◌}
use native.Mathlib.Omega.{arith}
use text.Mathlib.Text.{◌==◌}
use text.Mathlib.TextEquality.{eq_iff}
use mercury_relay.Prelude.Tests.{if◌then◌else◌}
use mercury_relay.Prelude.Lists.{elem}

abbrev pub Dict {ℓ} : Type ℓ → Type ℓ
Dict V = List (String × V)

module _ {ℓ} {V : Type ℓ} where
  -- `v, ok := m[k]`
  unfoldable pub lookup : String → Dict V → Option V
  lookup key [] = none
  lookup key ((name, value) ∷ entries) = if name == key then some value else lookup key entries

  -- `m[k] = v`
  unfoldable pub insert : String → V → Dict V → Dict V
  insert key value [] = (key, value) ∷ []
  insert key value ((name, old) ∷ entries) =
      if name == key then (key, value) ∷ entries else (name, old) ∷ insert key value entries

  -- `delete(m, k)`
  unfoldable pub erase : String → Dict V → Dict V
  erase key [] = []
  erase key ((name, old) ∷ entries) =
      let rest = erase key entries in if name == key then rest else (name, old) ∷ rest

  unfoldable pub keys : Dict V → List String
  keys [] = []
  keys ((name, old) ∷ entries) = name ∷ keys entries

  -- The loop that deletes every entry whose value fails a test.
  unfoldable pub retain : (V → Bool) → Dict V → Dict V
  retain p [] = []
  retain p ((name, old) ∷ entries) =
      let rest = retain p entries in if p old then (name, old) ∷ rest else rest

  -- No key stands twice: what a Go map gives, and what its operations keep.
  abbrev pub NodupKeys : Dict V → Type ℓ
  NodupKeys [] = Unit
  NodupKeys ((name, _) ∷ entries) = (lookup name entries ≡ none) × NodupKeys entries

  pub lookup-nil : (key : String) → lookup key [] ≡ none
  unfolding lookup
  lookup-nil key = refl

  pub lookup-insert :
      (key name : String) (value : V) (entries : Dict V)
      → lookup name (insert key value entries)
        ≡ (if key == name then some value else lookup name entries)
  unfolding lookup insert
  lookup-insert key name value [] = refl
  lookup-insert key name value ((first, old) ∷ entries) = ground (
    arith,
    eq_iff key name,
    eq_iff first key,
    eq_iff first name,
    lookup-insert key name value entries,
  )

  pub lookup-erase :
      (key name : String) (entries : Dict V)
      → lookup name (erase key entries) ≡ (if key == name then none else lookup name entries)
  unfolding lookup erase
  lookup-erase key name [] = ground arith
  lookup-erase key name ((first, old) ∷ entries) =
      ground
        (arith, lookup-erase key name entries, eq_iff first key, eq_iff first name, eq_iff key name)

  pub elem-keys :
      (key : String) (entries : Dict V)
      → elem key (keys entries) ≡ elim (lookup key entries) [ none ↦ false | some _ ↦ true ]
  unfolding lookup keys
  elem-keys key [] = refl
  elem-keys key ((first, old) ∷ entries) =
      ground (arith, elem-keys key entries, eq_iff first key, eq_iff key first)

  pub lookup-retain :
      (p : V → Bool) (key : String) (entries : Dict V)
      → NodupKeys entries
      → lookup key (retain p entries) ≡ elim (lookup key entries) [
        | none ↦ none
        | some value ↦ if p value then some value else none
      ]
  unfolding lookup retain
  lookup-retain p key [] u = refl
  lookup-retain p key ((first, old) ∷ entries) (fresh, u) =
      ground (arith, eq_iff first key, lookup-retain p key entries u)

  pub insert-NodupKeys :
      (key : String) (value : V) (entries : Dict V)
      → NodupKeys entries
      → NodupKeys (insert key value entries)
  unfolding insert
  insert-NodupKeys key value [] u = (lookup-nil key, tt)
  insert-NodupKeys key value ((name, old) ∷ entries) (fresh, u) = ground (
    arith,
    eq_iff name key,
    eq_iff key name,
    insert-NodupKeys key value entries u,
    lookup-insert key name value entries,
  )

  pub erase-NodupKeys :
      (key : String) (entries : Dict V) → NodupKeys entries → NodupKeys (erase key entries)
  unfolding erase
  erase-NodupKeys key [] u = tt
  erase-NodupKeys key ((name, old) ∷ entries) (fresh, u) =
      ground (arith, erase-NodupKeys key entries u, lookup-erase key name entries)

  pub retain-NodupKeys :
      (p : V → Bool) (entries : Dict V) → NodupKeys entries → NodupKeys (retain p entries)
  unfolding retain
  retain-NodupKeys p [] u = tt
  retain-NodupKeys p ((name, old) ∷ entries) (fresh, u) =
      ground (arith, retain-NodupKeys p entries u, lookup-retain p name entries u)

pub ruleset dict_laws = (lookup-nil, lookup-insert, lookup-erase)

-- `m[k]` of a `map[string]bool`: false where the key is missing.
abbrev pub has : String → Dict Bool → Bool
has k m = elim (lookup k m) [ none ↦ false | some b ↦ b ]
