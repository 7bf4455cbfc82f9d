-- ===== src/Prelude/Digits.antt =====
-- Decimal digits: `str(n)` and `f"{n:04d}"`, with a reader that inverts them.
use Prim.Native.Nat.{ℕ, zero, suc, ◌+◌, ◌-◌, ◌*◌, ◌/◌, ◌%◌, ◌≤◌, ◌<◌}
use mathlib.Core.Path.{◌≡◌, refl, ap, ◌∙◌}
use mathlib.Core.List.{[], ◌∷◌, ◌++◌}
use native.Mathlib.Omega.{arith}
use green_garden_api.Prelude.Tests.{ltb, leb, if◌then◌else◌, Bool-cases}
use green_garden_api.Prelude.Lists.{All, All-append, length, length-append}
use mathlib.Core.Logic.{inl, inr}
use green_garden_api.Prelude.Texts.{Text}

-- The digits of `n`, most significant first, on fuel.
print_from : ℕ → ℕ → Text
print_from zero n = []
print_from (suc f) n =
    let more = print_from f (n / 10) ++ (48 + n % 10) ∷ [] in
    if ltb n 10 then (48 + n) ∷ [] else more

-- `str(n)`; a number has fewer digits than `n + 1`.
unfoldable pub print : ℕ → Text
unfolding print_from
print n = print_from (suc n) n

-- `f"{n:04d}"`
unfoldable pub print_padded : ℕ → Text
unfolding print
print_padded n =
    if leb 1000 n
    then print n
    else (48 + n / 1000 % 10) ∷ (48 + n / 100 % 10) ∷ (48 + n / 10 % 10) ∷ (48 + n % 10) ∷ []

read_from : ℕ → Text → ℕ
read_from acc [] = acc
read_from acc (c ∷ s) = read_from (acc * 10 + (c - 48)) s

-- The number that a run of digits denotes.
pub read : Text → ℕ
unfolding read_from
read s = read_from 0 s

read_from-append : (acc : ℕ) (s t : Text) → read_from acc (s ++ t) ≡ read_from (read_from acc s) t
unfolding read_from
read_from-append acc [] t = refl
read_from-append acc (c ∷ s) t = read_from-append (acc * 10 + (c - 48)) s t

read-print_from : (f n : ℕ) → n < f → read_from 0 (print_from f n) ≡ n
unfolding print_from read_from
read-print_from zero n h = elim h [ ]
read-print_from (suc f) n h = ground (
  arith,
  read_from-append 0 (print_from f (n / 10)) ((48 + n % 10) ∷ []),
  read-print_from f (n / 10),
)

print_from-step :
    (f n : ℕ) → 10 ≤ n → length (print_from (suc f) n) ≡ length (print_from f (n / 10)) + 1
unfolding print_from
print_from-step f n h = ground (arith, length-append (print_from f (n / 10)) ((48 + n % 10) ∷ []))

print_from-four :
    (f n : ℕ) → 1000 ≤ n → n ≤ 9999 → length (print_from (suc (suc (suc (suc f)))) n) ≡ 4
print_from-four f n h k =
    let last : length (print_from (suc f) (n / 10 / 10 / 10)) ≡ 1 =
      unfold print_from in ground arith in
    omega (
      arith,
      print_from-step (suc (suc (suc f))) n,
      print_from-step (suc (suc f)) (n / 10),
      print_from-step (suc f) (n / 10 / 10),
      last,
    )

-- Four digits up to 9999.
pub length-print_padded : (n : ℕ) → n ≤ 9999 → length (print_padded n) ≡ 4
unfolding print_padded print
length-print_padded n h = elim (Bool-cases (leb 1000 n)) [
  | inr short ↦ rw short refl
  | inl long ↦
      let more : n ≡ suc (suc (suc (n - 3))) = ground arith in
      rw long (
        ap (λ (k : ℕ). length (print_from (suc k) n)) more
        ∙ print_from-four (n - 3) n (ground arith) h)
]

pub read-print : (n : ℕ) → read (print n) ≡ n
unfolding read print
read-print n = read-print_from (suc n) n (omega arith)

pub read-print_padded : (n : ℕ) → read (print_padded n) ≡ n
unfolding print_padded read
read-print_padded n = ground (arith, read-print n)

abbrev pub IsDigit : ℕ → Type 0
IsDigit c = (48 ≤ c) × (c ≤ 57)

print_from-IsDigit : (f n : ℕ) → All IsDigit (print_from f n)
unfolding print_from
print_from-IsDigit zero n = tt
print_from-IsDigit (suc f) n = elim (Bool-cases (ltb n 10)) [
  | inl small ↦ rw small ((omega arith, ground arith), tt)
  | inr large ↦ rw large (
      All-append IsDigit (print_from f (n / 10)) ((48 + n % 10) ∷ [])
        (print_from-IsDigit f (n / 10)) ((omega arith, omega arith), tt))
]

pub print_padded-IsDigit : (n : ℕ) → All IsDigit (print_padded n)
unfolding print_padded
print_padded-IsDigit n = elim (Bool-cases (leb 1000 n)) [
  | inl long ↦ rw long (unfold print in print_from-IsDigit (suc n) n)
  | inr short ↦ rw short (digit (n / 1000), (digit (n / 100), (digit (n / 10), (digit n, tt))))
]
  where
    digit : (k : ℕ) → IsDigit (48 + k % 10)
    digit k = (omega arith, omega arith)
