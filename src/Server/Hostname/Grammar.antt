-- ===== src/Server/Hostname/Grammar.antt =====
-- Host names as a grammar: labels of letters, digits and inner hyphens, joined by dots.
use nport.Prelude.{
  ℕ, ◌≤◌, ◌<◌, ◌≡◌, refl, sym, ◌≢◌, ◌↔◌, Bool, true, false, not, ◌||◌, List, [], ◌∷◌, ◌++◌, arith,
  ◌==◌, length, any, All,
}
use nport.Text.{Text, is_empty, is_ascii_alphanumeric, starts_with, ends_with, split}
use nport.Text.Split.{join, join-split, split-join, split-Lacks, split-ne-nil, Lacks}
use nport.Server.Hostname.{is_valid_char, is_bad_label, is_valid}

abbrev pub IsLabelChar : ℕ → Type 0
IsLabelChar b = (is_ascii_alphanumeric b || b == b'-') ≡ true

pub record IsLabel (label : Text) : Type 0 where
  pub some_byte : 0 < length label
  pub short : length label ≤ 63
  pub chars : All IsLabelChar label
  pub first : starts_with b'-' label ≡ false
  pub last : ends_with b'-' label ≡ false

pub record IsHostname (hostname : Text) : Type 0 where
  pub labels : List Text
  pub some_label : labels ≢ []
  pub each : All IsLabel labels
  pub joined : hostname ≡ join (b'.' ∷ []) labels
  pub short : length hostname ≤ 253

abbrev all_valid : Text → Bool
all_valid s = not (any (λ byte. not (is_valid_char byte)) s)

all_valid-append :
    (s t : Text) → all_valid s ≡ true → all_valid t ≡ true → all_valid (s ++ t) ≡ true
all_valid-append [] t h k = k
all_valid-append (b ∷ s) t h k = ground (arith, all_valid-append s t)

all_valid_left : (s t : Text) → all_valid (s ++ t) ≡ true → all_valid s ≡ true
all_valid_left [] t h = refl
all_valid_left (b ∷ s) t h = ground (arith, all_valid_left s t)

all_valid_right : (s t : Text) → all_valid (s ++ t) ≡ true → all_valid t ≡ true
all_valid_right [] t h = h
all_valid_right (b ∷ s) t h = ground (arith, all_valid_right s t)

chars_of_all_valid : (s : Text) → all_valid s ≡ true → Lacks b'.' s → All IsLabelChar s
chars_of_all_valid [] h k = tt
chars_of_all_valid (b ∷ s) h k = (ground arith, chars_of_all_valid s (ground arith) (ground arith))

all_valid_of_chars : (s : Text) → All IsLabelChar s → all_valid s ≡ true
all_valid_of_chars [] h = refl
all_valid_of_chars (b ∷ s) h = ground (arith, all_valid_of_chars s h.1)

pub Lacks-of_chars : (s : Text) → All IsLabelChar s → Lacks b'.' s
Lacks-of_chars [] h = refl
Lacks-of_chars (b ∷ s) h = ground (arith, Lacks-of_chars s h.1)

good_label_iff :
    (s : Text)
    → (is_bad_label s ≡ false) ↔ (
        (0 < length s)
        × (length s ≤ 63)
        × (starts_with b'-' s ≡ false)
        × (ends_with b'-' s ≡ false))
good_label_iff [] = ground arith
good_label_iff (b ∷ s) = ground arith

IsLabel-of_good :
    (s : Text) → all_valid s ≡ true → is_bad_label s ≡ false → Lacks b'.' s → IsLabel s
IsLabel-of_good s v h k =
    let (some_byte, short, first, last) = (good_label_iff s).0 h in
    record {
      some_byte = some_byte;
      short = short;
      chars = chars_of_all_valid s v k;
      first = first;
      last = last;
    }

or_left : (a b : Bool) → (a || b) ≡ false → a ≡ false
or_left a b h = ground arith

or_right : (a b : Bool) → (a || b) ≡ false → b ≡ false
or_right a b h = ground arith

good_label :
    (s : Text)
    → IsLabel s
    → (0 < length s) × (length s ≤ 63) × (starts_with b'-' s ≡ false) × (ends_with b'-' s ≡ false)
good_label s h = (h.some_byte, h.short, h.first, h.last)

labels_sound :
    (parts : List Text)
    → all_valid (join (b'.' ∷ []) parts) ≡ true
    → any is_bad_label parts ≡ false
    → All (Lacks b'.') parts
    → All IsLabel parts
unfolding join
labels_sound [] v h k = tt
labels_sound (s ∷ []) v h k = (IsLabel-of_good s v (ground arith) k.0, tt)
labels_sound (s ∷ t ∷ parts) v h k = (
  IsLabel-of_good s (all_valid_left s _ v) (or_left _ _ h) k.0,
  labels_sound (t ∷ parts)
      (all_valid_right (b'.' ∷ []) (join (b'.' ∷ []) (t ∷ parts)) (all_valid_right s _ v))
      (or_right _ _ h) k.1,
)

labels_complete :
    (parts : List Text)
    → All IsLabel parts
    → (any is_bad_label parts ≡ false)
      × (all_valid (join (b'.' ∷ []) parts) ≡ true)
      × All (Lacks b'.') parts
unfolding join
labels_complete [] h = (refl, refl, tt)
labels_complete (s ∷ []) h = (
  rw ((good_label_iff s).1 (good_label s h.0)),
  all_valid_of_chars s h.0.chars,
  (Lacks-of_chars s h.0.chars, tt),
)
labels_complete (s ∷ t ∷ parts) h =
    let (good, valid, lacks) = labels_complete (t ∷ parts) h.1 in
    (
      rw ((good_label_iff s).1 (good_label s h.0)) good,
      all_valid-append s _ (all_valid_of_chars s h.0.chars)
          (all_valid-append (b'.' ∷ []) (join (b'.' ∷ []) (t ∷ parts)) refl valid),
      (Lacks-of_chars s h.0.chars, lacks),
    )

is_valid-parts :
    (s : Text)
    → (is_valid s ≡ true) ↔ (
        (all_valid s ≡ true)
        × (any is_bad_label (split b'.' s) ≡ false)
        × (is_empty s ≡ false)
        × (length s ≤ 253))
unfolding is_valid
is_valid-parts s = ground arith

join-ne-nil :
    (parts : List Text) → parts ≢ [] → All IsLabel parts → is_empty (join (b'.' ∷ []) parts) ≡ false
unfolding join
join-ne-nil [] n h = absurd (n refl)
join-ne-nil ([] ∷ parts) n h = absurd (omega (arith, h.0.some_byte))
join-ne-nil ((b ∷ s) ∷ []) n h = refl
join-ne-nil ((b ∷ s) ∷ t ∷ parts) n h = refl

-- `is_valid` accepts exactly the host names of the grammar: one or more labels of 1 to 63 letters,
-- digits and hyphens that neither start nor end with a hyphen, joined by dots, at most 253 bytes.
pub is_valid_iff : (hostname : Text) → (is_valid hostname ≡ true) ↔ IsHostname hostname
is_valid_iff s = (sound, complete)
  where
    sound : is_valid s ≡ true → IsHostname s
    sound h =
        let (valid, good, _, short) = (is_valid-parts s).0 h in
        record {
          labels = split b'.' s;
          some_label = split-ne-nil b'.' s;
          each =
              labels_sound (split b'.' s) (rw (join-split b'.' s) valid) good (split-Lacks b'.' s);
          joined = sym (join-split b'.' s);
          short = short;
        }

    complete : IsHostname s → is_valid s ≡ true
    complete h =
        let (good, valid, lacks) = labels_complete h.labels h.each in
        (is_valid-parts s).1 (
          rw h.joined valid,
          rw (h.joined, split-join b'.' h.labels h.some_label lacks) good,
          rw h.joined (join-ne-nil h.labels h.some_label h.each),
          h.short,
        )
