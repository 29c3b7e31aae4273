-- ===== src/StringSet.antt =====
-- `HashSet<String>`, as a list of its entries. The laws below are all that its clients use.
use nport.Prelude.{
  ◌+◌, suc, length, Bool-cases, inl, inr, ◌≡◌, refl, Bool, true, false, not, ◌&&◌, ◌||◌, List, [],
  ◌∷◌, arith, if◌then◌else◌,
}
use nport.Text.{Text, text_eq}
use nport.Text.Laws.{text_eq_iff}

unfoldable pub contains : Text → List Text → Bool
contains k [] = false
contains k (x ∷ xs) = text_eq x k || contains k xs

-- The flag says that the entry is new.
unfoldable pub insert : Text → List Text → List Text × Bool
insert k xs = if contains k xs then (xs, false) else (k ∷ xs, true)

erase : Text → List Text → List Text
erase k [] = []
erase k (x ∷ xs) = if text_eq x k then erase k xs else x ∷ erase k xs

-- The flag says that the entry was there.
unfoldable pub remove : Text → List Text → List Text × Bool
unfolding erase
remove k xs = (erase k xs, contains k xs)

pub contains-nil : (k : Text) → contains k [] ≡ false
unfolding contains
contains-nil k = refl

pub contains-cons :
    (j k : Text) (xs : List Text) → contains j (k ∷ xs) ≡ (text_eq k j || contains j xs)
unfolding contains
contains-cons j k xs = refl

contains_eq : (j k : Text) (xs : List Text) → text_eq k j ≡ true → contains k xs ≡ contains j xs
contains_eq j k xs e = ground (arith, text_eq_iff k j)

pub contains-insert :
    (j k : Text) (xs : List Text) → contains j (insert k xs).0 ≡ (text_eq k j || contains j xs)
unfolding insert
contains-insert j k xs = ground (arith, contains_eq j k xs, contains-cons j k xs)

pub insert_new : (k : Text) (xs : List Text) → (insert k xs).1 ≡ not (contains k xs)
unfolding insert
insert_new k xs = ground arith

pub insert_present : (k : Text) (xs : List Text) → contains k xs ≡ true → (insert k xs).0 ≡ xs
unfolding insert
insert_present k xs e = ground arith

contains-erase :
    (j k : Text) (xs : List Text) → contains j (erase k xs) ≡ (not (text_eq k j) && contains j xs)
unfolding contains erase
contains-erase j k [] = ground arith
contains-erase j k (x ∷ xs) =
    ground (arith, contains-erase j k xs, text_eq_iff x k, text_eq_iff x j, text_eq_iff k j)

pub contains-remove :
    (j k : Text) (xs : List Text)
    → contains j (remove k xs).0 ≡ (not (text_eq k j) && contains j xs)
unfolding remove
contains-remove j k xs = contains-erase j k xs

pub remove_found : (k : Text) (xs : List Text) → (remove k xs).1 ≡ contains k xs
unfolding remove
remove_found k xs = refl

-- Each entry stands once.
abbrev pub Distinct : List Text → Type 0
Distinct [] = Unit {0}
Distinct (x ∷ xs) = (contains x xs ≡ false) × Distinct xs

pub Distinct-insert : (k : Text) (xs : List Text) → Distinct xs → Distinct (insert k xs).0
unfolding insert
Distinct-insert k xs d = elim (Bool-cases (contains k xs)) [ inl e ↦ rw e d | inr e ↦ rw e (e, d) ]

pub length-insert :
    (k : Text) (xs : List Text)
    → length (insert k xs).0 ≡ (if contains k xs then length xs else suc (length xs))
unfolding insert
length-insert k xs = ground arith

erase-absent : (k : Text) (xs : List Text) → contains k xs ≡ false → erase k xs ≡ xs
unfolding erase contains
erase-absent k [] e = refl
erase-absent k (x ∷ xs) e = ground (arith, e, erase-absent k xs)

Distinct-erase : (k : Text) (xs : List Text) → Distinct xs → Distinct (erase k xs)
unfolding erase
Distinct-erase k [] d = tt
Distinct-erase k (x ∷ xs) (n, d) = elim (Bool-cases (text_eq x k)) [
  | inl e ↦ rw e (Distinct-erase k xs d)
  | inr e ↦ rw e (ground (arith, n, contains-erase x k xs), Distinct-erase k xs d)
]

pub Distinct-remove : (k : Text) (xs : List Text) → Distinct xs → Distinct (remove k xs).0
unfolding remove
Distinct-remove k xs d = Distinct-erase k xs d

length-erase :
    (k : Text) (xs : List Text)
    → Distinct xs
    → length (erase k xs) + (if contains k xs then 1 else 0) ≡ length xs
unfolding erase contains
length-erase k [] d = omega arith
length-erase k (x ∷ xs) (n, d) = elim (Bool-cases (text_eq x k)) [
  | inl e ↦
      let same = (text_eq_iff x k).0 e in
      let gone = erase-absent k xs (rw same at n) in ground (arith, e, gone)
  | inr e ↦ ground (arith, e, length-erase k xs d)
]

pub length-remove :
    (k : Text) (xs : List Text)
    → Distinct xs
    → length (remove k xs).0 + (if contains k xs then 1 else 0) ≡ length xs
unfolding remove
length-remove k xs d = length-erase k xs d
