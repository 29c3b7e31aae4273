-- ===== src/Text/Decimal.antt =====
-- Printing and reading a `u16` in decimal, as `Display` and `FromStr` do.
use nport.Prelude.{
  ℕ, zero, suc, ◌+◌, ◌-◌, ◌*◌, ◌/◌, ◌%◌, ◌^◌, ◌<◌, ◌≡◌, refl, sym, ap, ◌∙◌, inl, inr, true, false,
  Option, none, some, [], ◌∷◌, ◌++◌, arith, ltb, ◌==◌, if◌then◌else◌, Bool-cases, append_assoc,
  append-nil,
}
use native.Mathlib.Nat.{pow-suc}
use nport.Text.{Text, is_digit, is_empty}
use nport.Text.Split.{Lacks}

-- At most `fuel` digits.
unfoldable pub print : ℕ → ℕ → Text
print zero n = []
print (suc fuel) n =
    let rest = print fuel (n / 10) ++ (b'0' + n % 10) ∷ [] in
    if ltb n 10 then (b'0' + n) ∷ [] else rest

-- Five digits are enough for a `u16`.
abbrev pub print_u16 : ℕ → Text
print_u16 n = print 5 n

unfoldable pub read_digits : ℕ → Text → Option ℕ
read_digits acc [] = some acc
read_digits acc (b ∷ s) =
    let rest = read_digits (acc * 10 + (b - b'0')) s in if is_digit b then rest else none

abbrev pub check_u16 : Option ℕ → Option ℕ
check_u16 none = none
check_u16 (some n) = if ltb n 65536 then some n else none

abbrev pub skip_plus : Text → Text
skip_plus [] = []
skip_plus (b ∷ s) = if b == b'+' then s else b ∷ s

-- `u16::from_str`: an optional plus sign and at least one digit.
unfoldable pub parse_u16 : Text → Option ℕ
parse_u16 s = if is_empty (skip_plus s) then none else check_u16 (read_digits 0 (skip_plus s))

read_digits-append :
    (s : Text) (acc n b : ℕ)
    → read_digits acc s ≡ some n
    → is_digit b ≡ true
    → read_digits acc (s ++ b ∷ []) ≡ some (n * 10 + (b - b'0'))
unfolding read_digits
read_digits-append [] acc n b e d = ground arith
read_digits-append (c ∷ s) acc n b e d =
    ground (arith, read_digits-append s (acc * 10 + (c - b'0')) n b)

read_digit : (n : ℕ) → n < 10 → read_digits 0 ((b'0' + n) ∷ []) ≡ some n
unfolding read_digits
read_digit n h = ground arith

read_digits-print : (fuel n : ℕ) → n < 10 ^ suc fuel → read_digits 0 (print (suc fuel) n) ≡ some n
unfolding print
read_digits-print zero n h = let small : ltb n 10 ≡ true = ground arith in rw small (read_digit n h)
read_digits-print (suc fuel) n h = elim (Bool-cases (ltb n 10)) [
  | inl e ↦ rw e (read_digit n (ground arith))
  | inr e ↦ rw e (
      read_digits-append (print (suc fuel) (n / 10)) 0 (n / 10) (b'0' + n % 10)
        (read_digits-print fuel (n / 10) (omega (arith, pow-suc 10 (suc fuel)))) (ground arith)
      ∙ ap some (omega arith))
]

head_digit : (fuel n : ℕ) (s : Text) → skip_plus (print (suc fuel) n ++ s) ≡ print (suc fuel) n ++ s
unfolding print
head_digit zero n s = ground arith
head_digit (suc fuel) n s = elim (Bool-cases (ltb n 10)) [
  | inl e ↦ rw e (ground arith)
  | inr e ↦ rw (e, append_assoc, head_digit fuel (n / 10) ((b'0' + n % 10) ∷ s))
]

print-ne-nil : (fuel n : ℕ) → is_empty (print (suc fuel) n) ≡ false
unfolding print
print-ne-nil zero n = ground arith
print-ne-nil (suc fuel) n = elim (Bool-cases (ltb n 10)) [
  | inl e ↦ rw e
  | inr e ↦ rw e (is_empty-append (print (suc fuel) (n / 10)) _)
]
  where
    is_empty-append : (s : Text) (b : ℕ) → is_empty (s ++ b ∷ []) ≡ false
    is_empty-append [] b = refl
    is_empty-append (c ∷ s) b = refl

-- Printing a `u16` and reading it back gives the number.
pub parse_u16-print : (n : ℕ) → n < 65536 → parse_u16 (print_u16 n) ≡ some n
unfolding parse_u16
parse_u16-print n h =
    let plain : skip_plus (print_u16 n) ≡ print_u16 n =
      sym (ap skip_plus (append-nil (print_u16 n)))
      ∙ head_digit 4 n []
      ∙ append-nil (print_u16 n) in
    rw (plain, print-ne-nil 4 n, read_digits-print 4 n (omega arith)) (ground arith)

-- What is read is a `u16`.
pub parse_u16_bound : (s : Text) (n : ℕ) → parse_u16 s ≡ some n → n < 65536
unfolding parse_u16
parse_u16_bound s n e = ground arith

Lacks-append : (c : ℕ) (s t : Text) → Lacks c s → Lacks c t → Lacks c (s ++ t)
Lacks-append c [] t h k = k
Lacks-append c (b ∷ s) t h k = ground (arith, Lacks-append c s t)

pub print-Lacks : (fuel n : ℕ) → Lacks b':' (print fuel n)
unfolding print
print-Lacks zero n = refl
print-Lacks (suc fuel) n = elim (Bool-cases (ltb n 10)) [
  | inl e ↦ rw e (ground arith)
  | inr e ↦
      rw e (Lacks-append b':' (print fuel (n / 10)) _ (print-Lacks fuel (n / 10)) (ground arith))
]
