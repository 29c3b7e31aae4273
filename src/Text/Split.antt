-- ===== src/Text/Split.antt =====
-- `split` at a byte and `[Text]::join` are inverse to one another.
use nport.Prelude.{
  ℕ, ◌≡◌, refl, ap, ◌∙◌, ◌≢◌, inl, inr, false, List, [], ◌∷◌, ◌++◌, arith, ◌==◌, Bool-cases, All,
}
use nport.Text.{Text, split, cons_head, contains}

-- `parts.join(c)`
unfoldable pub join : Text → List Text → Text
join c [] = []
join c (part ∷ []) = part
join c (part ∷ next ∷ parts) = part ++ (c ++ join c (next ∷ parts))

pub split-ne-nil : (c : ℕ) (s : Text) → split c s ≢ []
unfolding split
split-ne-nil c [] e = cc
split-ne-nil c (b ∷ s) e = ground (arith, split-ne-nil c s)

join-cons_head :
    (c : Text) (b : ℕ) (parts : List Text) → join c (cons_head b parts) ≡ b ∷ join c parts
unfolding join
join-cons_head c b [] = refl
join-cons_head c b (part ∷ []) = refl
join-cons_head c b (part ∷ next ∷ parts) = refl

join-nil_cons :
    (c : Text) (parts : List Text) → parts ≢ [] → join c ([] ∷ parts) ≡ c ++ join c parts
unfolding join
join-nil_cons c [] h = absurd (h refl)
join-nil_cons c (part ∷ parts) h = refl

-- Joining the parts of a split gives the text back.
pub join-split : (c : ℕ) (s : Text) → join (c ∷ []) (split c s) ≡ s
unfolding split
join-split c [] = unfold join in refl
join-split c (b ∷ s) = elim (Bool-cases (b == c)) [
  | inl e ↦
      rw (e, join-nil_cons (c ∷ []) (split c s) (split-ne-nil c s), join-split c s) (ground arith)
  | inr e ↦ rw (e, join-cons_head (c ∷ []) b (split c s), join-split c s)
]

abbrev pub Lacks : ℕ → Text → Type 0
Lacks c s = contains c s ≡ false

cons_head-Lacks :
    (c b : ℕ) (parts : List Text)
    → (b == c) ≡ false
    → All (Lacks c) parts
    → All (Lacks c) (cons_head b parts)
cons_head-Lacks c b [] h k = (ground arith, tt)
cons_head-Lacks c b (part ∷ parts) h k = (ground arith, k.1)

-- No part of a split holds the separator.
pub split-Lacks : (c : ℕ) (s : Text) → All (Lacks c) (split c s)
unfolding split
split-Lacks c [] = (refl, tt)
split-Lacks c (b ∷ s) = elim (Bool-cases (b == c)) [
  | inl e ↦ rw e (refl, split-Lacks c s)
  | inr e ↦ rw e (cons_head-Lacks c b (split c s) e (split-Lacks c s))
]

pub split_part : (c : ℕ) (s : Text) → Lacks c s → split c s ≡ s ∷ []
unfolding split
split_part c [] h = refl
split_part c (b ∷ s) h = ground (arith, split_part c s)

pub split-append : (c : ℕ) (p s : Text) → Lacks c p → split c (p ++ (c ∷ s)) ≡ p ∷ split c s
unfolding split
split-append c [] s h = ground arith
split-append c (b ∷ p) s h = ground (arith, split-append c p s)

-- Splitting joined parts gives the parts back, where none holds the separator.
pub split-join :
    (c : ℕ) (parts : List Text)
    → parts ≢ []
    → All (Lacks c) parts
    → split c (join (c ∷ []) parts) ≡ parts
unfolding join
split-join c [] n h = absurd (n refl)
split-join c (part ∷ []) n h = split_part c part h.0
split-join c (part ∷ next ∷ parts) n h =
    split-append c part (join (c ∷ []) (next ∷ parts)) h.0
    ∙ ap (◌∷◌ part) (split-join c (next ∷ parts) (λ e. cc) h.1)
