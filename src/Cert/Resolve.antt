-- ===== src/Cert/Resolve.antt =====
-- nport-server/src/cert/store.rs: which certificate a TLS client gets.
use nport.Prelude.{◌≡◌, ◌↔◌, ap, ◌∙◌, none, some, ◌++◌, arith}
use nport.Text.{Text, codes}
use nport.Text.Split.{Lacks, join, join-split, split-append}
use nport.StringMap
use nport.Cert.{Certs, wildcard_domain, top_level, drop_first, resolve}

top_level-label :
    (label domain : Text)
    → Lacks b'.' label
    → top_level (label ++ (codes "." ++ domain)) ≡ wildcard_domain domain
unfolding top_level
top_level-label label domain l =
    ap (λ parts. codes "*." ++ join (codes ".") (drop_first parts))
      (split-append b'.' label domain l)
    ∙ ap (λ s. codes "*." ++ s) (join-split b'.' domain)

-- A client that asks for a host name with one label below the domain gets the wildcard
-- certificate, if there is one. Without it the client gets the certificate of the very host name,
-- and without that the one of the domain; only a store with none of the three has no answer.
pub resolve_label :
    (certs : Certs) (domain label : Text)
    → Lacks b'.' label
    → let host = label ++ (codes "." ++ domain) in
      let answer = resolve certs domain (some host) in
      ((cert : Text × Text)
        → StringMap.get (wildcard_domain domain) certs ≡ some cert
        → answer ≡ some cert)
      × (StringMap.get (wildcard_domain domain) certs ≡ none
          → (cert : Text × Text) → StringMap.get host certs ≡ some cert
          → answer ≡ some cert)
      × ((answer ≡ none) ↔ (
          (StringMap.get (wildcard_domain domain) certs ≡ none)
          × (StringMap.get host certs ≡ none)
          × (StringMap.get domain certs ≡ none)))
unfolding resolve
resolve_label certs domain label l =
    let e = top_level-label label domain l in
    (
      λ cert w. ground (arith, e, w),
      λ n cert w. ground (arith, e, n, w),
      (λ a. ground (arith, e, a), λ (a, b, c). ground (arith, e, a, b, c)),
    )
