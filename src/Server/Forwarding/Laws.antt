-- ===== src/Server/Forwarding/Laws.antt =====
-- What a subdomain that passed validation is, and how a requested name is normalised.
use nport.Prelude.{◌≡◌, refl, ap, inl, inr, false, [], ◌∷◌, ◌++◌, map, arith, Option-cases, subst}
use nport.Text.{Text, codes, strip_suffix}
use nport.Text.Laws.{strip_suffix_sound, strip_suffix-append}
use nport.Text.Split.{join}
use nport.Text.Lowercase.{Lowercase, IsAscii, HasNoUpper, to_ascii_lowercase, map_lower_fixed}
use nport.Server.Hostname.Grammar.{IsLabel, IsHostname}
use nport.Server.Hostnames.{Hostnames, is_subdomain_used, is_subdomain_blocked}
use nport.Server.Forwarding.{normalized_client_subdomain}

HasNoUpper-right : (s t : Text) → HasNoUpper (s ++ t) → HasNoUpper t
HasNoUpper-right [] t h = h
HasNoUpper-right (b ∷ s) t h = HasNoUpper-right s t h.1

IsAscii-append : (s t : Text) → IsAscii s → IsAscii t → IsAscii (s ++ t)
IsAscii-append [] t h k = k
IsAscii-append (b ∷ s) t h k = (h.0, IsAscii-append s t h.1 k)

map_lower-append :
    (s t : Text)
    → map to_ascii_lowercase (s ++ t) ≡ map to_ascii_lowercase s ++ map to_ascii_lowercase t
map_lower-append [] t = refl
map_lower-append (b ∷ s) t = ap (◌∷◌ (to_ascii_lowercase b)) (map_lower-append s t)

pub IsHostname-of_label : (s : Text) → IsLabel s → IsHostname s
unfolding join
IsHostname-of_label s l = record {
  labels = s ∷ [];
  some_label = λ e. cc;
  each = (l, tt);
  joined = refl;
  short = omega (arith, l.short);
}

module _ (lower : Lowercase) (hostnames : Hostnames) where
  -- The conditions under which a subdomain may be claimed.
  pub record IsClaimable (subdomain : Text) : Type 0 where
    pub label : IsLabel subdomain
    pub lowered : HasNoUpper subdomain
    pub free : is_subdomain_used lower hostnames subdomain ≡ false
    pub allowed : is_subdomain_blocked lower hostnames subdomain ≡ false

  -- For an ASCII label and an ASCII domain without upper-case letters, the qualified name
  -- `label.domain` has the same normal form as the label: the label in lower case.
  pub normalized-qualified :
      (s : Text)
      → IsAscii s
      → IsAscii hostnames.domain
      → HasNoUpper hostnames.domain
      → normalized_client_subdomain lower hostnames (s ++ (codes "." ++ hostnames.domain))
        ≡ map to_ascii_lowercase s
  unfolding normalized_client_subdomain
  normalized-qualified s a d u = rw (
    lower.ascii_lem (s ++ (codes "." ++ hostnames.domain))
        (IsAscii-append s (codes "." ++ hostnames.domain) a (omega arith, d)),
    map_lower-append s (codes "." ++ hostnames.domain),
    map_lower_fixed hostnames.domain u,
    strip_suffix-append (map to_ascii_lowercase s) (codes "." ++ hostnames.domain),
  )

  -- Where the configured domain has an upper-case letter the domain is never stripped: the normal
  -- form of every name is the whole name in lower case.
  pub normalized_upper_domain :
      (s : Text)
      → ¬ HasNoUpper hostnames.domain
      → normalized_client_subdomain lower hostnames s ≡ lower.to_lowercase s
  unfolding normalized_client_subdomain
  normalized_upper_domain s h =
      elim (Option-cases (strip_suffix (b'.' ∷ hostnames.domain) (lower.to_lowercase s))) [
        | inl e ↦ rw e
        | inr (p, e) ↦ absurd (
            h
              (HasNoUpper-right p _
                (subst HasNoUpper (strip_suffix_sound _ _ p e) (lower.no_upper s))).1)
      ]
