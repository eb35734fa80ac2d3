-- ===== src/Prelude/Decimal.antt =====
-- `strconv.Itoa`, `strconv.Atoi` and `%d`: decimal texts of integers.
use Prim.Native.Nat.{ℕ, zero, suc, ◌+◌, ◌-◌, ◌*◌, ◌/◌, ◌%◌, ◌^◌, ◌≤◌, ◌<◌}
use Prim.Native.Char.{code}
use Prim.Native.String.{String, ◌++◌}
use mathlib.Core.Path.{◌≡◌, refl}
use mathlib.Core.Bool.{◌&&◌}
use mathlib.Core.Option.{Option, none, some}
use mathlib.Core.Logic.{◌≢◌, inl, inr}
use native.Mathlib.Omega.{arith}
use text.Mathlib.TextLemmas.{nil-append, cons-append, append-ne-nil_of_right_ne-nil, cons-ne-nil}
use mercury_relay.Prelude.Tests.{Bool-cases, ltb, leb, ◌==◌, if◌then◌else◌}
use mercury_relay.Prelude.Int.{ℤ, pos, negsuc}

-- A digit below ten, as a text.
abbrev pub digit : ℕ → String
digit zero = "0"
digit (suc zero) = "1"
digit (suc (suc zero)) = "2"
digit (suc (suc (suc zero))) = "3"
digit (suc (suc (suc (suc zero)))) = "4"
digit (suc (suc (suc (suc (suc zero))))) = "5"
digit (suc (suc (suc (suc (suc (suc zero)))))) = "6"
digit (suc (suc (suc (suc (suc (suc (suc zero))))))) = "7"
digit (suc (suc (suc (suc (suc (suc (suc (suc zero)))))))) = "8"
digit (suc (suc (suc (suc (suc (suc (suc (suc (suc d))))))))) = "9"

-- The digits of a number. Fuel above the number is enough.
pub show_from : ℕ → ℕ → String
show_from zero n = ""
show_from (suc fuel) n =
    let front = show_from fuel (n / 10) in if ltb n 10 then digit n else front ++ digit (n % 10)

abbrev pub show_nat : ℕ → String
show_nat n = show_from (suc n) n

-- `strconv.Itoa`
unfoldable pub itoa : ℤ → String
unfolding show_from
itoa (pos n) = show_nat n
itoa (negsuc n) = "-" ++ show_nat (suc n)

-- The number that a text of digits stands for, after the digits read so far.
unfoldable pub read_digits : ℕ → String → Option ℕ
read_digits acc String.[] = some acc
read_digits acc (String.◌∷◌ c s) =
    if leb 48 (code c) && leb (code c) 57 then read_digits (acc * 10 + (code c - 48)) s else none

read_digits-digit : (acc d : ℕ) → d < 10 → read_digits acc (digit d) ≡ some (acc * 10 + d)
unfolding read_digits
read_digits-digit acc zero h = refl
read_digits-digit acc (suc zero) h = refl
read_digits-digit acc (suc (suc zero)) h = refl
read_digits-digit acc (suc (suc (suc zero))) h = refl
read_digits-digit acc (suc (suc (suc (suc zero)))) h = refl
read_digits-digit acc (suc (suc (suc (suc (suc zero))))) h = refl
read_digits-digit acc (suc (suc (suc (suc (suc (suc zero)))))) h = refl
read_digits-digit acc (suc (suc (suc (suc (suc (suc (suc zero))))))) h = refl
read_digits-digit acc (suc (suc (suc (suc (suc (suc (suc (suc zero)))))))) h = refl
read_digits-digit acc (suc (suc (suc (suc (suc (suc (suc (suc (suc zero))))))))) h = refl
read_digits-digit acc (suc (suc (suc (suc (suc (suc (suc (suc (suc (suc d)))))))))) h =
    absurd (omega arith)

read_digits-append :
    (acc : ℕ) (s t : String)
    → read_digits acc (s ++ t) ≡ elim (read_digits acc s) [ none ↦ none | some n ↦ read_digits n t ]
unfolding read_digits
read_digits-append acc String.[] t = rw nil-append
read_digits-append acc (String.◌∷◌ c s) t =
    rw cons-append (ground (arith, read_digits-append (acc * 10 + (code c - 48)) s t))

-- Reading what was shown gives the number back, with fuel above it.
pub read_digits-show_from : (fuel n : ℕ) → n < fuel → read_digits 0 (show_from fuel n) ≡ some n
unfolding show_from
read_digits-show_from zero n h = absurd (omega arith)
read_digits-show_from (suc fuel) n h = elim (Bool-cases (ltb n 10)) [
  | inl e ↦ rw e (rw (read_digits-digit 0 n (ground arith)) (ground arith))
  | inr e ↦
      rw (e, read_digits-append, read_digits-show_from fuel (n / 10) (ground arith))
        (rw (read_digits-digit (n / 10) (n % 10) (omega arith)) (ground arith))
]

digit-ne-nil : (d : ℕ) → digit d ≢ ""
digit-ne-nil zero e = cons-ne-nil _ _ e
digit-ne-nil (suc zero) e = cons-ne-nil _ _ e
digit-ne-nil (suc (suc zero)) e = cons-ne-nil _ _ e
digit-ne-nil (suc (suc (suc zero))) e = cons-ne-nil _ _ e
digit-ne-nil (suc (suc (suc (suc zero)))) e = cons-ne-nil _ _ e
digit-ne-nil (suc (suc (suc (suc (suc zero))))) e = cons-ne-nil _ _ e
digit-ne-nil (suc (suc (suc (suc (suc (suc zero)))))) e = cons-ne-nil _ _ e
digit-ne-nil (suc (suc (suc (suc (suc (suc (suc zero))))))) e = cons-ne-nil _ _ e
digit-ne-nil (suc (suc (suc (suc (suc (suc (suc (suc zero)))))))) e = cons-ne-nil _ _ e
digit-ne-nil (suc (suc (suc (suc (suc (suc (suc (suc (suc d))))))))) e = cons-ne-nil _ _ e

show_from-ne-nil : (fuel n : ℕ) → show_from (suc fuel) n ≢ ""
unfolding show_from
show_from-ne-nil fuel n = elim (Bool-cases (ltb n 10)) [
  | inl e ↦ rw e (digit-ne-nil n)
  | inr e ↦ rw e (append-ne-nil_of_right_ne-nil (show_from fuel (n / 10)) (digit-ne-nil (n % 10)))
]

-- `strconv.Atoi`: an optional sign, at least one digit, and a value that fits 64 bits.
abbrev pub max_int : ℕ
max_int = 2 ^ 63 - 1

read_number : String → Option ℕ
read_number String.[] = none
read_number (String.◌∷◌ c s) = read_digits 0 (String.◌∷◌ c s)

negate : ℕ → ℤ
negate zero = pos zero
negate (suc n) = negsuc n

positive : String → Option ℤ
positive s = elim (read_number s) [
  | none ↦ none
  | some n ↦ if leb n max_int then some (pos n) else none
]

negative : String → Option ℤ
negative s = elim (read_number s) [
  | none ↦ none
  | some n ↦ if leb n (max_int + 1) then some (negate n) else none
]

unfoldable pub atoi : String → Option ℤ
unfolding positive negative read_number negate
atoi String.[] = none
atoi (String.◌∷◌ c s) =
    if code c == 45
    then negative s
    else if code c == 43
    then positive s
    else positive (String.◌∷◌ c s)

-- A Go `int`.
abbrev pub IsInt : ℤ → Type 0
IsInt (pos n) = n ≤ max_int
IsInt (negsuc n) = n ≤ max_int

atoi-digits :
    (s : String) (n : ℕ) → read_digits 0 s ≡ some n → s ≢ "" → n ≤ max_int → atoi s ≡ some (pos n)
unfolding atoi read_digits
atoi-digits String.[] n h full le = absurd (full refl)
atoi-digits (String.◌∷◌ c s) n h full le = ground arith

atoi-minus :
    (s : String) (n : ℕ)
    → read_digits 0 s ≡ some (suc n)
    → n ≤ max_int
    → atoi ("-" ++ s) ≡ some (negsuc n)
unfolding atoi read_digits
atoi-minus String.[] n h le = ground arith
atoi-minus (String.◌∷◌ c s) n h le = rw (cons-append, nil-append) (ground arith)

-- `Atoi` reads back what `Itoa` writes, for every `int`.
pub atoi-itoa : (k : ℤ) → IsInt k → atoi (itoa k) ≡ some k
unfolding itoa
atoi-itoa (pos n) h =
    atoi-digits (show_nat n) n (read_digits-show_from (suc n) n (omega arith))
      (show_from-ne-nil n n) h
atoi-itoa (negsuc n) h =
    atoi-minus (show_nat (suc n)) n (read_digits-show_from (suc (suc n)) (suc n) (omega arith)) h
