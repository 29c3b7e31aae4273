-- ===== src/Text/Laws.antt =====
-- Laws of the text operations: equality is decided, suffixes are stripped and put back.
use nport.Prelude.{
  ℕ, ◌≡◌, refl, ap, ◌↔◌, inl, inr, true, false, some, [], ◌∷◌, ◌++◌, arith, Bool-cases,
  Option-cases, length, length-append,
}
use nport.Text.{Text, text_eq, strip_suffix}

text_eq_sound : (s t : Text) → text_eq s t ≡ true → s ≡ t
unfolding text_eq
text_eq_sound [] [] h = refl
text_eq_sound [] (b ∷ t) h = cc
text_eq_sound (a ∷ s) [] h = cc
text_eq_sound (a ∷ s) (b ∷ t) h = ground (arith, text_eq_sound s t)

pub text_eq_refl : (s : Text) → text_eq s s ≡ true
unfolding text_eq
text_eq_refl [] = refl
text_eq_refl (a ∷ s) = ground (arith, text_eq_refl s)

pub text_eq_iff : (s t : Text) → (text_eq s t ≡ true) ↔ (s ≡ t)
text_eq_iff s t = (text_eq_sound s t, λ e. rw e (text_eq_refl t))

-- A text ends with a stripped suffix.
pub strip_suffix_sound : (suffix s p : Text) → strip_suffix suffix s ≡ some p → s ≡ p ++ suffix
unfolding strip_suffix
strip_suffix_sound suffix [] p h = ground (arith, text_eq_iff [] suffix)
strip_suffix_sound suffix (b ∷ s) p h = elim (Bool-cases (text_eq (b ∷ s) suffix)) [
  | inl same ↦ ground (arith, text_eq_iff (b ∷ s) suffix)
  | inr other ↦ elim (Option-cases (strip_suffix suffix s)) [
    | inl e ↦ ground arith
    | inr (q, e) ↦ ground (arith, strip_suffix_sound suffix s q e)
  ]
]

append_ne_self : (b : ℕ) (p s : Text) → text_eq (b ∷ (p ++ s)) s ≡ false
append_ne_self b p s = elim (Bool-cases (text_eq (b ∷ (p ++ s)) s)) [
  | inl e ↦ absurd (omega (arith, ap length (text_eq_sound _ _ e), length-append {0} p s))
  | inr e ↦ e
]

-- A suffix that a text ends with is stripped.
pub strip_suffix-append : (p suffix : Text) → strip_suffix suffix (p ++ suffix) ≡ some p
unfolding strip_suffix
strip_suffix-append [] [] = ground (arith, text_eq_refl [])
strip_suffix-append [] (b ∷ s) = ground (arith, text_eq_refl (b ∷ s))
strip_suffix-append (b ∷ p) s = rw (append_ne_self b p s, strip_suffix-append p s)
