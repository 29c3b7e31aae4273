-- ===== src/Server/Registry/Invariant.antt =====
-- The invariant of the registry: the claimed names are those that the registered clients hold, and
-- no two registered clients hold the same one.
use nport.Prelude.{
  ℕ, suc, ◌+◌, ◌≤◌, ◌<◌, ◌≡◌, refl, sym, ap, ◌∙◌, ◌↔◌, inl, inr, true, false, none, some, List, [],
  ◌∷◌, ◌++◌, arith, ◌==◌, if◌then◌else◌, Bool-cases, Option-cases,
}
use mathlib.Core.Bool.{false≢true}
use nport.Text.{Text}
use nport.StringSet
use nport.Server.State.{World, count}
use nport.Server.Registry.{
  has_http_hostname, position, last_or, but_last, swap_remove, first_with, get_by_http_hostname,
}

abbrev pub IsRegistered : World → ℕ → Type 0
IsRegistered w c = 0 < count c w.registry.clients

-- A registered client holds the name.
abbrev pub Holds : World → ℕ → Text → Type 0
Holds w c h = IsRegistered w c × (has_http_hostname w c h ≡ true)

pub record Inv (w : World) : Type 0 where
  pub distinct : (c : ℕ) → count c w.registry.clients ≤ 1
  pub allocated : (c : ℕ) → IsRegistered w c → c < w.next
  pub held :
      (c : ℕ) (h : Text)
      → Holds w c h
      → StringSet.contains h w.registry.claimed_http_hostnames ≡ true
  pub owned :
      (h : Text)
      → StringSet.contains h w.registry.claimed_http_hostnames ≡ true
      → (c : ℕ) × Holds w c h
  pub unique : (c d : ℕ) (h : Text) → Holds w c h → Holds w d h → c ≡ d

pub count-append :
    (c d : ℕ) (xs : List ℕ) → count c (xs ++ d ∷ []) ≡ count c xs + (if d == c then 1 else 0)
count-append c d [] = omega arith
count-append c d (x ∷ xs) = omega (arith, count-append c d xs)

count-rotated : (c y : ℕ) (xs : List ℕ) → count c (last_or y xs ∷ but_last y xs) ≡ count c (y ∷ xs)
count-rotated c y [] = refl
count-rotated c y (x ∷ xs) = omega (arith, count-rotated c x xs)

position_head : (d x : ℕ) (xs : List ℕ) → position d (x ∷ xs) ≡ some 0 → x ≡ d
unfolding position
position_head d x xs e = elim (Option-cases (position d xs)) [
  | inl h ↦ ground arith
  | inr (i, h) ↦ ground arith
]

position_tail :
    (d x i : ℕ) (xs : List ℕ) → position d (x ∷ xs) ≡ some (suc i) → position d xs ≡ some i
unfolding position
position_tail d x i xs e = elim (Option-cases (position d xs)) [
  | inl h ↦ ground arith
  | inr (j, h) ↦ ground arith
]

-- `swap_remove` takes out one occurrence of the client that `position` found.
pub count-swap_remove :
    (c d i : ℕ) (xs : List ℕ)
    → position d xs ≡ some i
    → count c (swap_remove i xs) + (if d == c then 1 else 0) ≡ count c xs
unfolding swap_remove
count-swap_remove c d i [] e = unfold position in cc
count-swap_remove c d ℕ.zero (x ∷ []) e = ground (arith, position_head d x [] e)
count-swap_remove c d ℕ.zero (x ∷ y ∷ xs) e =
    let same = position_head d x (y ∷ xs) e in
    let rotated = count-rotated c y xs in rw same (omega arith)
count-swap_remove c d (suc i) (x ∷ xs) e =
    omega (arith, count-swap_remove c d i xs (position_tail d x i xs e))

pub position-none : (c : ℕ) (xs : List ℕ) → position c xs ≡ none → count c xs ≡ 0
unfolding position
position-none c [] e = refl
position-none c (x ∷ xs) e = ground (arith, position-none c xs)

first_with_sound :
    (w : World) (h : Text) (cs : List ℕ) (c : ℕ)
    → first_with w h cs ≡ some c
    → (0 < count c cs) × (has_http_hostname w c h ≡ true)
unfolding first_with
first_with_sound w h [] c e = cc
first_with_sound w h (x ∷ cs) c e = ground (arith, first_with_sound w h cs c)

first_with-none :
    (w : World) (h : Text) (cs : List ℕ) (c : ℕ)
    → first_with w h cs ≡ none
    → 0 < count c cs
    → has_http_hostname w c h ≡ false
unfolding first_with
first_with-none w h [] c e r = absurd (omega arith)
first_with-none w h (x ∷ cs) c e r = ground (arith, first_with-none w h cs c)

-- `get_by_http_hostname` finds exactly the registered client that holds the name.
pub get_by_iff :
    {w : World} → Inv w → (h : Text) (c : ℕ) → (get_by_http_hostname w h ≡ some c) ↔ Holds w c h
unfolding get_by_http_hostname
get_by_iff {w} v h c = (
  first_with_sound w h w.registry.clients c,
  λ p. elim (Option-cases (first_with w h w.registry.clients)) [
    | inl e ↦ absurd (false≢true (sym (first_with-none w h w.registry.clients c e p.0) ∙ p.1))
    | inr (d, e) ↦ e ∙ ap some (v.unique d c h (first_with_sound w h w.registry.clients d e) p)
  ],
)

pub get_by_none :
    {w : World}
    → Inv w
    → (h : Text)
    → (get_by_http_hostname w h ≡ none)
      ↔ (StringSet.contains h w.registry.claimed_http_hostnames ≡ false)
get_by_none {w} v h = (
  λ e. elim (Bool-cases (StringSet.contains h w.registry.claimed_http_hostnames)) [
    | inl k ↦ let (c, p) = v.owned h k in absurd (none≢some (sym e ∙ (get_by_iff v h c).1 p))
    | inr k ↦ k
  ],
  λ k. elim (Option-cases (get_by_http_hostname w h)) [
    | inl e ↦ e
    | inr (c, e) ↦ absurd (false≢true (sym k ∙ v.held c h ((get_by_iff v h c).0 e)))
  ],
)
  where
    none≢some : {c : ℕ} → none ≡ some c → ⊥
    none≢some e = cc
