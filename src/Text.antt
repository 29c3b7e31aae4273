-- ===== src/Text.antt =====
-- Rust's `String` and `&str` as lists of UTF-8 bytes, with the operations of `str` that the program
-- calls: comparison, `contains`, `starts_with`, `ends_with`, `split`, `strip_suffix`, ASCII tests.
pub mod Laws
pub mod Split
pub mod Decimal
pub mod Lowercase
use Prim.Native.Char.{code}
use Prim.Native.String
use Prim.Native.String.{String}
use mathlib.Core.Option
use nport.Prelude.{
  ℕ, ◌+◌, Bool, true, false, ◌&&◌, ◌||◌, Option, none, some, List, [], ◌∷◌, leb, ◌==◌,
  if◌then◌else◌, any,
}

abbrev pub Text : Type 0
Text = List ℕ

-- A literal; the model writes ASCII literals only, whose code points are their bytes.
abbrev pub codes : String → Text
codes String.[] = []
codes (String.◌∷◌ c s) = code c ∷ codes s

unfoldable pub text_eq : Text → Text → Bool
text_eq [] [] = true
text_eq (a ∷ s) (b ∷ t) = (a == b) && text_eq s t
text_eq _ _ = false

abbrev pub is_empty : Text → Bool
is_empty [] = true
is_empty (_ ∷ _) = false

abbrev pub is_upper : ℕ → Bool
is_upper b = leb b'A' b && leb b b'Z'

abbrev pub is_lower : ℕ → Bool
is_lower b = leb b'a' b && leb b b'z'

abbrev pub is_digit : ℕ → Bool
is_digit b = leb b'0' b && leb b b'9'

-- `u8::is_ascii_alphanumeric`
abbrev pub is_ascii_alphanumeric : ℕ → Bool
is_ascii_alphanumeric b = is_upper b || is_lower b || is_digit b

abbrev pub contains : ℕ → Text → Bool
contains c s = any (λ b. b == c) s

abbrev pub starts_with : ℕ → Text → Bool
starts_with c [] = false
starts_with c (b ∷ _) = b == c

abbrev pub ends_with : ℕ → Text → Bool
ends_with c [] = false
ends_with c (b ∷ []) = b == c
ends_with c (_ ∷ b ∷ s) = ends_with c (b ∷ s)

abbrev pub cons_head : ℕ → List Text → List Text
cons_head b [] = (b ∷ []) ∷ []
cons_head b (part ∷ parts) = (b ∷ part) ∷ parts

-- `str::split` at a byte: the empty parts are kept, and the empty text has one part.
unfoldable pub split : ℕ → Text → List Text
split c [] = [] ∷ []
split c (b ∷ s) = let parts = split c s in if b == c then [] ∷ parts else cons_head b parts

unfoldable pub strip_suffix : Text → Text → Option Text
strip_suffix suffix [] = if text_eq [] suffix then some [] else none
strip_suffix suffix (b ∷ s) =
    if text_eq (b ∷ s) suffix then some [] else Option.map (◌∷◌ b) (strip_suffix suffix s)
