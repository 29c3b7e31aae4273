-- ===== src/Cert/Files.antt =====
-- nport-server/src/cert/store.rs: the files of the certificates. The file system and the JSON
-- library are parameters.
pub mod RoundTrip
use nport.Prelude.{
  ◌≡◌, Option, none, some, List, [], ◌∷◌, ◌++◌, Result, ok, err, ◌==◌, if◌then◌else◌, map,
}
use nport.Text.{Text, codes}
use nport.Text.Lowercase.{Lowercase}
use nport.StringMap
use nport.Cert.{X509, StoredCert, Certs}
use nport.Cert.Renewal.{Outside, add}

-- The directory: what each file holds, by its name.
abbrev pub Files : Type 0
Files = List (Text × Text)

-- `fs`: whether the directory is there or can be made, whether a file can be written, and what a
-- write that fails leaves behind.
pub record Disk : Type 0 where
  pub create_dir_all : Result Text (Unit {0})
  pub write : Text → Text → Result Text (Unit {0})
  pub left : Text → Text → Files → Files

-- `serde_json`, for `StoredCert`: what is written is read back.
pub record Json : Type 0 where
  pub to_string : StoredCert → Text
  pub from_str : Text → Result Text StoredCert
  pub from_str-to_string : (cert : StoredCert) → from_str (to_string cert) ≡ ok cert

-- `str::replace('*', "STAR")`
abbrev pub replace_star : Text → Text
replace_star [] = []
replace_star (b ∷ s) = if b == b'*' then codes "STAR" ++ replace_star s else b ∷ replace_star s

module _ (x509 : X509) (lower : Lowercase) (disk : Disk) (json : Json) (o : Outside) where
  unfoldable pub cert_filename : Text → Text
  cert_filename domain = replace_star (lower.to_lowercase domain)

  -- `Store`, with the files of its directory.
  pub record Store : Type 0 where
    pub certs : Certs
    pub files : Files

  unfoldable pub store_cert : Files → Text → Text → Text → Files × Result Text (Unit {0})
  store_cert files domain private_key_der certificate_der =
      let stored : StoredCert = record {
        domain = domain;
        private_key_der = private_key_der;
        certificate_der = certificate_der;
      } in
      let text = json.to_string stored in
      elim disk.create_dir_all [
        | err e ↦ (files, err e)
        | ok _ ↦ elim (disk.write (cert_filename domain) text) [
          | err e ↦ (disk.left (cert_filename domain) text files, err e)
          | ok _ ↦ (StringMap.insert (cert_filename domain) text files, ok tt)
        ]
      ]

  -- `none` is the panic of `add`. An error of `store_cert` is only logged.
  unfoldable pub update_cert : Store → Text → Text → Text → Option Store
  update_cert s domain private_key_der certificate_der =
      elim (add x509 o s.certs domain private_key_der certificate_der) [
        | none ↦ none
        | some certs ↦ some record {
          certs = certs;
          files = (store_cert s.files domain private_key_der certificate_der).0;
        }
      ]

  -- What `read_to_string` and `from_str` give for the files that `read_dir` lists.
  unfoldable pub contents : Files → List (Result Text StoredCert)
  contents files = map (λ (path, text). json.from_str text) files
