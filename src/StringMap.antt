-- ===== src/StringMap.antt =====
-- `HashMap<String, V>`, as a list of its entries. The laws below are all that its clients use.
use nport.Prelude.{◌≡◌, refl, Option, none, some, List, [], ◌∷◌, arith, if◌then◌else◌}
use nport.Text.{Text, text_eq}
use nport.Text.Laws.{text_eq_iff}

module _ {ℓ} {V : Type ℓ} where
  unfoldable pub get : Text → List (Text × V) → Option V
  get k [] = none
  get k ((j, v) ∷ m) = if text_eq j k then some v else get k m

  unfoldable pub remove : Text → List (Text × V) → List (Text × V)
  remove k [] = []
  remove k ((j, v) ∷ m) = if text_eq j k then remove k m else (j, v) ∷ remove k m

  unfoldable pub insert : Text → V → List (Text × V) → List (Text × V)
  insert k v m = (k, v) ∷ remove k m

  -- Entries put in one after the other, as `collect` does: the last entry of a key stays.
  unfoldable pub collect : List (Text × V) → List (Text × V) → List (Text × V)
  collect m [] = m
  collect m ((k, v) ∷ entries) = collect (insert k v m) entries

  pub get-nil : (k : Text) → get k [] ≡ none
  unfolding get
  get-nil k = refl

  pub get-remove :
      (j k : Text) (m : List (Text × V))
      → get j (remove k m) ≡ (if text_eq k j then none else get j m)
  unfolding get remove
  get-remove j k [] = ground arith
  get-remove j k ((i, v) ∷ m) =
      ground (arith, get-remove j k m, text_eq_iff i k, text_eq_iff i j, text_eq_iff k j)

  pub remove-absent : (k : Text) (m : List (Text × V)) → get k m ≡ none → remove k m ≡ m
  unfolding get remove
  remove-absent k [] e = refl
  remove-absent k ((j, v) ∷ m) e = ground (arith, e, remove-absent k m)

  pub get-insert :
      (j k : Text) (v : V) (m : List (Text × V))
      → get j (insert k v m) ≡ (if text_eq k j then some v else get j m)
  unfolding insert get
  get-insert j k v m = ground (arith, get-remove j k m)

  -- The value of the last entry of this key.
  abbrev pub last_value : Text → List (Text × V) → Option V
  last_value k [] = none
  last_value k ((j, v) ∷ entries) = elim (last_value k entries) [
    | some later ↦ some later
    | none ↦ if text_eq j k then some v else none
  ]

  abbrev or_get : Text → List (Text × V) → Option V → Option V
  or_get k m none = get k m
  or_get k m (some v) = some v

  get-collect_from :
      (k : Text) (m entries : List (Text × V))
      → get k (collect m entries) ≡ or_get k m (last_value k entries)
  unfolding collect
  get-collect_from k m [] = refl
  get-collect_from k m ((j, v) ∷ entries) =
      ground (arith, get-collect_from k (insert j v m) entries, get-insert k j v m)

  pub get-collect :
      (k : Text) (entries : List (Text × V)) → get k (collect [] entries) ≡ last_value k entries
  get-collect k entries = ground (arith, get-collect_from k [] entries, get-nil k)
