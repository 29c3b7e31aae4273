-- ===== src/Text/Lowercase.antt =====
-- `str::to_lowercase` follows the Unicode tables, which are not part of the repository. The model
-- takes the function as a parameter, with the two documented facts that the program relies on.
use nport.Prelude.{ℕ, ◌+◌, ◌<◌, ◌≡◌, refl, false, [], ◌∷◌, map, arith, if◌then◌else◌, All}
use nport.Text.{Text, is_upper}

-- `u8::to_ascii_lowercase`
abbrev pub to_ascii_lowercase : ℕ → ℕ
to_ascii_lowercase b = if is_upper b then b + 32 else b

abbrev pub IsAscii : Text → Type 0
IsAscii s = All (λ b. b < 128) s

abbrev pub HasNoUpper : Text → Type 0
HasNoUpper s = All (λ b. is_upper b ≡ false) s

pub record Lowercase : Type 0 where
  pub to_lowercase : Text → Text
  -- On ASCII text it is the bytewise mapping.
  pub ascii_lem : (s : Text) → IsAscii s → to_lowercase s ≡ map to_ascii_lowercase s
  -- No upper-case ASCII letter is left.
  pub no_upper : (s : Text) → HasNoUpper (to_lowercase s)

pub map_no_upper : (s : Text) → HasNoUpper (map to_ascii_lowercase s)
map_no_upper [] = tt
map_no_upper (b ∷ s) = (ground arith, map_no_upper s)

-- The bytewise mapping meets the two facts.
abbrev pub ascii_lowercase : Lowercase
ascii_lowercase = record {
  to_lowercase = map to_ascii_lowercase;
  ascii_lem = λ s h. refl;
  no_upper = map_no_upper;
}

pub map_lower_fixed : (s : Text) → HasNoUpper s → map to_ascii_lowercase s ≡ s
map_lower_fixed [] h = refl
map_lower_fixed (b ∷ s) h = ground (arith, map_lower_fixed s h.1)
