-- ===== src/Queue/Rabbit/Kinds.antt =====
-- internal/queue/rabbitmq.go: the kinds that have a queue, read from the names of the files in
-- configs/kinds.
use Prim.Native.String.{String}
use mercury_relay.Prelude.{
  str_eq, Bool, true, false, Option, none, some, List, [], ◌∷◌, ℤ, pos, if◌then◌else◌,
}
use mercury_relay.Prelude.Decimal.{atoi}

-- What `os.Stat` and `os.ReadDir` find, a file as its name and whether it is a directory.
pub data Directory : Type 0 where
  missing unreadable : Directory
  listing : List (String × Bool) → Directory

abbrev pub hardcoded_kinds : List ℤ
hardcoded_kinds = pos 0 ∷ pos 1 ∷ pos 3 ∷ pos 7 ∷ pos 10002 ∷ []

-- `strings.HasSuffix` and `strings.TrimSuffix` in one: the text before the suffix.
unfoldable pub trim_suffix : String → String → Option String
trim_suffix suffix String.[] = if str_eq suffix "" then some "" else none
trim_suffix suffix (String.◌∷◌ c s) =
    let rest = trim_suffix suffix s in
    if str_eq (String.◌∷◌ c s) suffix
    then some ""
    else elim rest [ none ↦ none | some front ↦ some (String.◌∷◌ c front) ]

-- The kind that a file is for.
unfoldable pub kind_of_file : String × Bool → Option ℤ
unfolding trim_suffix
kind_of_file (name, true) = none
kind_of_file (name, false) = elim (trim_suffix ".yml" name) [
  | none ↦ none
  | some kind_str ↦ atoi kind_str
]

unfoldable pub kinds_of_files : List (String × Bool) → List ℤ
unfolding kind_of_file
kinds_of_files [] = []
kinds_of_files (file ∷ files) =
    let rest = kinds_of_files files in
    elim (kind_of_file file) [ none ↦ rest | some kind ↦ kind ∷ rest ]

-- `loadKindsFromConfig("")`, which returns no error, and `getCommonKinds`.
unfoldable pub or_hardcoded : List ℤ → List ℤ
or_hardcoded [] = hardcoded_kinds
or_hardcoded (kind ∷ kinds) = kind ∷ kinds

unfoldable pub get_common_kinds : Directory → List ℤ
unfolding or_hardcoded kinds_of_files
get_common_kinds missing = hardcoded_kinds
get_common_kinds unreadable = hardcoded_kinds
get_common_kinds (listing files) = or_hardcoded (kinds_of_files files)
