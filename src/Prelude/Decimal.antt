-- ===== src/Prelude/Decimal.antt =====
-- Decimal numbers in texts. A std::string is the list of the codes of its characters.
use Prim.Native.Nat.{ℕ, zero, suc, ◌+◌, ◌-◌, ◌*◌, ◌/◌, ◌%◌, ◌^◌, ◌<◌}
use mathlib.Core.Path.{◌≡◌, ◌∙◌}
use mathlib.Core.Logic.{inl, inr}
use mathlib.Core.Bool.{Bool, true, ◌&&◌}
use mathlib.Core.Option.{Option, none, some}
use mathlib.Core.List.{List, [], ◌∷◌, ◌++◌}
use native.Mathlib.Omega.{arith}
use ardos.Prelude.Tests.{ltb, leb, if◌then◌else◌, if_ind, Bool-cases}
use ardos.Prelude.Lists.{length, length-append, All, All-append}

-- std::to_string of an unsigned number below 10 ^ digits.
abbrev pub decimal : ℕ → ℕ → List ℕ
decimal zero n = []
decimal (suc digits) n =
    let front = decimal digits (n / 10) in
    if ltb n 10 then (48 + n) ∷ [] else front ++ (48 + n % 10) ∷ []

-- A uint64_t has at most twenty digits.
unfoldable pub to_string : ℕ → List ℕ
to_string n = decimal 20 n

abbrev pub is_digit : ℕ → Bool
is_digit x = leb 48 x && leb x 57

-- The digits at the start of the text, behind those of `value`.
abbrev pub read_digits : List ℕ → ℕ → ℕ
read_digits [] value = value
read_digits (x ∷ xs) value =
    let rest = read_digits xs (value * 10 + (x - 48)) in if is_digit x then rest else value

-- std::stoull on a text without white space or a sign in front: it throws unless the text begins with
-- a digit and the number fits an unsigned long long.
abbrev pub stoull : List ℕ → Option ℕ
stoull [] = none
stoull (x ∷ xs) =
    let n = read_digits (x ∷ xs) 0 in if is_digit x && ltb n (2 ^ 64) then some n else none

abbrev pub IsDigit : ℕ → Type 0
IsDigit x = is_digit x ≡ true

pub decimal-IsDigit : (digits n : ℕ) → All IsDigit (decimal digits n)
decimal-IsDigit zero n = tt
decimal-IsDigit (suc digits) n = elim (Bool-cases (ltb n 10)) [
  | inl e ↦ rw e (ground arith, tt)
  | inr e ↦ rw e (
      All-append IsDigit (decimal digits (n / 10)) ((48 + n % 10) ∷ [])
        (decimal-IsDigit digits (n / 10)) (ground arith, tt))
]

read_digits-append :
    (xs : List ℕ) (value d : ℕ)
    → All IsDigit xs
    → d < 10
    → read_digits (xs ++ (48 + d) ∷ []) value ≡ read_digits xs value * 10 + d
read_digits-append [] value d h small = ground arith
read_digits-append (x ∷ xs) value d h small =
    rw h.0 (read_digits-append xs (value * 10 + (x - 48)) d h.1 small)

pub read_digits-decimal : (digits n : ℕ) → n < 10 ^ digits → read_digits (decimal digits n) 0 ≡ n
read_digits-decimal zero n h = omega (arith, h)
read_digits-decimal (suc digits) n h = elim (Bool-cases (ltb n 10)) [
  | inl e ↦ rw e (ground arith)
  | inr e ↦
      let front : n / 10 < 10 ^ digits = omega (arith, h) in
      rw e (
        read_digits-append (decimal digits (n / 10)) 0 (n % 10) (decimal-IsDigit digits (n / 10))
          (omega arith)
        ∙ rw (read_digits-decimal digits (n / 10) front) (omega arith))
]

stoull-some :
    (text : List ℕ) (n : ℕ)
    → All IsDigit text
    → 0 < length text
    → n < 2 ^ 64
    → read_digits text 0 ≡ n
    → stoull text ≡ some n
stoull-some [] n h long small e = absurd (omega (arith, long))
stoull-some (x ∷ xs) n h long small e = rw (e, h.0) (ground arith)

pub to_string-IsDigit : (n : ℕ) → All IsDigit (to_string n)
unfolding to_string
to_string-IsDigit n = decimal-IsDigit 20 n

pub decimal_long : (digits n : ℕ) → 0 < length (decimal (suc digits) n)
decimal_long digits n =
    if_ind (λ (xs : List ℕ). 0 < length xs) (ltb n 10) (λ _. omega arith)
      (λ _. omega (arith, length-append (decimal digits (n / 10)) ((48 + n % 10) ∷ [])))

pub stoull-to_string : (n : ℕ) → n < 2 ^ 64 → stoull (to_string n) ≡ some n
unfolding to_string
stoull-to_string n h =
    stoull-some (decimal 20 n) n (decimal-IsDigit 20 n) (decimal_long 19 n) h
      (read_digits-decimal 20 n (omega (arith, h)))
