-- ===== src/Base/Bytes/Decimal.antt =====
-- `fmt.Sprintf("%d", n)` and `strconv.Itoa`, with `strconv.Atoi` where its error is dropped.
use Prim.Native.Nat.{ℕ, zero, suc, ◌+◌, ◌-◌, ◌*◌, ◌/◌, ◌%◌, ◌^◌, ◌≤◌, ◌<◌}
use mathlib.Core.Path.{◌≡◌}
use mathlib.Core.Logic.{inl, inr}
use mathlib.Core.Bool.{Bool, true, false, ◌||◌}
use mathlib.Core.Option.{Option, none, some}
use mathlib.Core.List.{List, [], ◌∷◌}
use native.Mathlib.Omega.{arith}
use yoyichat.Base.Tests.{ltb, ◌==◌, if◌then◌else◌, Bool-cases}
use yoyichat.Base.Int.{ℤ, pos, negsuc}

-- The decimal digits of `n`, in front of `out`; the fuel `n + 1` is more than the number of digits.
pub digits : ℕ → ℕ → List ℕ → List ℕ
digits zero n out = out
digits (suc f) n out =
    let rest = digits f (n / 10) ((48 + n % 10) ∷ out) in if ltb n 10 then (48 + n) ∷ out else rest

unfoldable pub print : ℕ → List ℕ
unfolding digits
print n = digits (suc n) n []

unfoldable pub itoa : ℤ → List ℕ
unfolding print
itoa (pos n) = print n
itoa (negsuc n) = b'-' ∷ print (suc n)

-- the number that the digits spell behind `acc`; `none` at the first other byte
pub scan : List ℕ → ℕ → Option ℕ
scan [] acc = some acc
scan (c ∷ s) acc = if ltb c 48 || ltb 57 c then none else scan s (acc * 10 + (c - 48))

negated : Option ℕ → Option ℤ
negated none = none
negated (some zero) = some (pos 0)
negated (some (suc n)) = some (negsuc n)

positive : Option ℕ → Option ℤ
positive none = none
positive (some n) = some (pos n)

-- a text with no digit is no number
unsigned : List ℕ → Option ℕ
unfolding scan
unsigned [] = none
unsigned (c ∷ s) = scan (c ∷ s) 0

-- of a number within int64
unfoldable pub atoi : List ℕ → Option ℤ
unfolding negated positive unsigned
atoi [] = none
atoi (c ∷ s) =
    if c == b'-'
    then negated (unsigned s)
    else if c == b'+'
    then positive (unsigned s)
    else positive (unsigned (c ∷ s))

-- `strconv.Atoi` with its error dropped: a text that is no number gives 0, and one whose digits leave
-- uint64 or int64 gives the limit, whatever follows the digit at which they leave uint64
unfoldable pub scan_uint64 : List ℕ → ℕ → Option ℕ
scan_uint64 [] acc = some acc
scan_uint64 (c ∷ s) acc =
    let next = acc * 10 + (c - 48) in
    let rest = scan_uint64 s next in
    if ltb c 48 || ltb 57 c then none else if ltb next (2 ^ 64) then rest else some (2 ^ 64 - 1)

unfoldable pub int_value : (minus : Bool) → Option ℕ → ℤ
int_value minus none = pos 0
int_value false (some n) = if ltb n (2 ^ 63) then pos n else pos (2 ^ 63 - 1)
int_value true (some zero) = pos 0
int_value true (some (suc n)) = if ltb n (2 ^ 63) then negsuc n else negsuc (2 ^ 63 - 1)

unfoldable pub unsigned_value : (minus : Bool) → List ℕ → ℤ
unsigned_value minus [] = pos 0
unsigned_value minus (c ∷ s) = int_value minus (scan_uint64 (c ∷ s) 0)

unfoldable pub atoi_value : List ℕ → ℤ
atoi_value [] = pos 0
atoi_value (c ∷ s) =
    if c == b'-'
    then unsigned_value true s
    else if c == b'+'
    then unsigned_value false s
    else unsigned_value false (c ∷ s)

scan-digits : (f n : ℕ) (out : List ℕ) → n < f → scan (digits f n out) 0 ≡ scan out n
unfolding scan digits
scan-digits zero n out h = absurd (omega arith)
scan-digits (suc f) n out h = ground (arith, scan-digits f (n / 10) ((48 + n % 10) ∷ out))

-- the first byte of a print is a digit
abbrev HeadDigit : List ℕ → Type 0
HeadDigit [] = ⊥
HeadDigit (c ∷ s) = (48 ≤ c) × (c ≤ 57)

digits-HeadDigit : (f n : ℕ) (out : List ℕ) → n < f → HeadDigit (digits f n out)
unfolding digits
digits-HeadDigit zero n out h = absurd (omega arith)
digits-HeadDigit (suc f) n out h = elim (Bool-cases (ltb n 10)) [
  | inl small ↦ rw small (ground arith)
  | inr big ↦ rw big (digits-HeadDigit f (n / 10) ((48 + n % 10) ∷ out) (ground arith))
]

atoi-digit : (s : List ℕ) (n : ℕ) → HeadDigit s → scan s 0 ≡ some n → atoi s ≡ some (pos n)
unfolding atoi
atoi-digit [] n h e = elim h [ ]
atoi-digit (c ∷ s) n h e = ground arith

atoi-minus :
    (s : List ℕ) (n : ℕ) → HeadDigit s → scan s 0 ≡ some (suc n) → atoi (b'-' ∷ s) ≡ some (negsuc n)
unfolding atoi
atoi-minus [] n h e = elim h [ ]
atoi-minus (c ∷ s) n h e = rw e

-- Every integer is read back from its decimal print.
pub atoi-itoa : (a : ℤ) → atoi (itoa a) ≡ some a
unfolding itoa scan
atoi-itoa (pos n) =
    atoi-digit _ n (digits-HeadDigit (suc n) n [] (omega arith))
      (scan-digits (suc n) n [] (omega arith))
atoi-itoa (negsuc n) =
    atoi-minus _ n (digits-HeadDigit (suc (suc n)) (suc n) [] (omega arith))
      (scan-digits (suc (suc n)) (suc n) [] (omega arith))

-- a print starts with a digit or a minus sign
abbrev pub StartsNumber : List ℕ → Type 0
StartsNumber [] = ⊥
StartsNumber (c ∷ s) = c ≤ 57

HeadDigit-StartsNumber : (s : List ℕ) → HeadDigit s → StartsNumber s
HeadDigit-StartsNumber [] h = h
HeadDigit-StartsNumber (c ∷ s) h = h.1

pub itoa-StartsNumber : (a : ℤ) → StartsNumber (itoa a)
unfolding itoa
itoa-StartsNumber (pos n) = HeadDigit-StartsNumber _ (digits-HeadDigit (suc n) n [] (omega arith))
itoa-StartsNumber (negsuc n) = omega arith
