-- ===== src/Queue/Rabbit/Files.antt =====
-- Which files of configs/kinds give a kind its queue (internal/queue/rabbitmq.go).
use Prim.Native.String.{String}
use text.Mathlib.TextLemmas.{append_cancel_right, cons-append, nil-append, cons-ne-nil}
use mercury_relay.Prelude.{
  ◌<>◌, str_eq, eq_iff, eq_refl, ◌≡◌, sym, ap, ◌∙◌, Bool, true, false, some, List, [], ◌∷◌, ℤ,
  arith, Any, elem_ℤ, inl, inr, Bool-cases,
}
use mercury_relay.Prelude.Decimal.{itoa, IsInt, atoi-itoa}
use mercury_relay.Queue.Rabbit.Kinds.{
  listing, trim_suffix, kind_of_file, kinds_of_files, or_hardcoded, get_common_kinds,
}

trim_suffix_self : (suffix : String) → trim_suffix suffix suffix ≡ some ""
unfolding trim_suffix
trim_suffix_self String.[] = ground (arith, eq_refl "")
trim_suffix_self (String.◌∷◌ c s) = ground (arith, eq_refl (String.◌∷◌ c s))

longer : (c : _) (s suffix : String) → str_eq (String.◌∷◌ c (s <> suffix)) suffix ≡ false
longer c s suffix = elim (Bool-cases (str_eq (String.◌∷◌ c (s <> suffix)) suffix)) [
  | inr e ↦ e
  | inl e ↦ absurd (
      cons-ne-nil c s (
        append_cancel_right (String.◌∷◌ c s) "" suffix (
          cons-append c s suffix
          ∙ (eq_iff (String.◌∷◌ c (s <> suffix)) suffix).0 e
          ∙ sym (nil-append suffix))))
]

pub trim_suffix-append : (suffix s : String) → trim_suffix suffix (s <> suffix) ≡ some s
unfolding trim_suffix
trim_suffix-append suffix String.[] = rw nil-append (trim_suffix_self suffix)
trim_suffix-append suffix (String.◌∷◌ c s) =
    rw cons-append (ground (arith, longer c s suffix, trim_suffix-append suffix s))

kind_of_file-itoa : (k : ℤ) → IsInt k → kind_of_file (itoa k <> ".yml", false) ≡ some k
unfolding kind_of_file
kind_of_file-itoa k h = rw (kind_of_file, trim_suffix-append ".yml" (itoa k)) (atoi-itoa k h)

-- A file of the directory, which is no directory itself.
abbrev pub IsFileOf : ℤ → String × Bool → Type 0
IsFileOf k file = file ≡ (itoa k <> ".yml", false)

elem_ℤ-kinds_of_files :
    (k : ℤ) (files : List (String × Bool))
    → IsInt k
    → Any (IsFileOf k) files
    → elem_ℤ k (kinds_of_files files) ≡ true
unfolding kinds_of_files
elem_ℤ-kinds_of_files k [] h a = elim a [ ]
elem_ℤ-kinds_of_files k (file ∷ files) h (inl e) =
    ground (arith, ap kind_of_file e, kind_of_file-itoa k h)
elem_ℤ-kinds_of_files k (file ∷ files) h (inr a) = ground (arith, elem_ℤ-kinds_of_files k files h a)

elem_ℤ-or_hardcoded :
    (k : ℤ) (kinds : List ℤ) → elem_ℤ k kinds ≡ true → elem_ℤ k (or_hardcoded kinds) ≡ true
unfolding or_hardcoded
elem_ℤ-or_hardcoded k [] h = ground arith
elem_ℤ-or_hardcoded k (kind ∷ kinds) h = h

-- A file that is named by a kind's decimal number and ".yml" makes the kind a known one, whatever
-- else is in the directory.
pub elem_ℤ-get_common_kinds :
    (k : ℤ) (files : List (String × Bool))
    → IsInt k
    → Any (IsFileOf k) files
    → elem_ℤ k (get_common_kinds (listing files)) ≡ true
unfolding get_common_kinds
elem_ℤ-get_common_kinds k files h a =
    elem_ℤ-or_hardcoded k (kinds_of_files files) (elem_ℤ-kinds_of_files k files h a)
