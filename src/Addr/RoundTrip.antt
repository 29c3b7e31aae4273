-- ===== src/Addr/RoundTrip.antt =====
-- Printing an address and parsing the text again.
use nport.Prelude.{
  ℕ, ◌<◌, ◌≡◌, ap, ◌∙◌, ◌⊎◌, inl, inr, true, false, Option, none, some, List, [], ◌∷◌, ◌++◌,
  if◌then◌else◌, arith,
}
use nport.Text.{Text, codes, text_eq, is_empty, contains, split}
use nport.Text.Split.{Lacks, split-append, split_part}
use nport.Text.Decimal.{print_u16, parse_u16, parse_u16-print, print-Lacks}
use nport.Addr.Sockets.{Net}
use nport.Addr.{
  Addr, default_addr_host, localhost, from_address, to_address, to_string, from_host_and_port,
  from_socket_addr, try_parse_socket_addr, try_parse_hostname, from_str,
}

-- What the constructors of the program give.
module _ (net : Net) where
  -- The host is a text that `from_host_and_port` keeps: not empty and not this machine.
  pub record IsRemote (host : Text) : Type 0 where
    pub some_text : is_empty host ≡ false
    pub not_localhost : text_eq host localhost ≡ false
    pub not_loopback : net.is_loopback host ≡ false

  -- The host is shown as an IP address is, or it is no IP address and has no colon.
  abbrev pub IsReadable : Text → Type 0
  IsReadable host = (net.is_shown host ≡ true) ⊎ ((net.is_ip host ≡ false) × Lacks b':' host)

  abbrev pub IsHost : Option Text → Type 0
  IsHost none = Unit {0}
  IsHost (some host) = IsRemote host × IsReadable host

  pub keeps_remote :
      (host : Text) (port : ℕ)
      → IsRemote host
      → from_host_and_port net host port ≡ record { host = some host; port = port }
  unfolding from_host_and_port
  keeps_remote host port r = rw (r.some_text, r.not_localhost, r.not_loopback)

  from_str_of_socket :
      (s ip : Text) (port : ℕ)
      → net.parse_socket_addr s ≡ some (ip, port)
      → from_str net s ≡ some (from_host_and_port net ip port)
  unfolding from_str try_parse_socket_addr from_socket_addr
  from_str_of_socket s ip port e = rw (e, from_str, try_parse_socket_addr)

  from_str_of_hostname :
      (s : Text) → net.parse_socket_addr s ≡ none → from_str net s ≡ try_parse_hostname net s
  unfolding from_str try_parse_socket_addr
  from_str_of_hostname s e = rw (e, from_str, try_parse_socket_addr)

  from_str_shown :
      (ip : Text) (port : ℕ)
      → net.is_shown ip ≡ true
      → port < 65536
      → from_str net (
          (if contains b':' ip then codes "[" ++ (ip ++ codes "]") else ip)
          ++ (codes ":" ++ print_u16 port))
        ≡ some (from_host_and_port net ip port)
  from_str_shown ip port s h = from_str_of_socket _ ip port (net.parse_shown ip port s h)

  try_parse_hostname_parts :
      (s host port : Text) (n : ℕ)
      → split b':' s ≡ host ∷ port ∷ []
      → parse_u16 port ≡ some n
      → try_parse_hostname net s ≡ some (from_host_and_port net host n)
  unfolding try_parse_hostname
  try_parse_hostname_parts s host port n e p = rw (e, try_parse_hostname, p)

  from_str_named :
      (host : Text) (port : ℕ)
      → net.is_ip host ≡ false
      → Lacks b':' host
      → port < 65536
      → from_str net (host ++ (codes ":" ++ print_u16 port))
        ≡ some (from_host_and_port net host port)
  from_str_named host port n l h =
      from_str_of_hostname _ (net.parse_host host (print_u16 port) n l (print-Lacks 5 port))
      ∙ try_parse_hostname_parts _ host (print_u16 port) port
          (split-append b':' host (print_u16 port) l
            ∙ ap (λ (parts : List Text). host ∷ parts)
                (split_part b':' (print_u16 port) (print-Lacks 5 port)))
          (parse_u16-print port h)

  read_parts :
      (host : Option Text) (port : ℕ)
      → port < 65536
      → IsHost host
      → from_str net (to_string (record { host = host; port = port }))
        ≡ some (record { host = host; port = port })
  unfolding to_string text_eq
  read_parts none port h k =
      from_str_shown default_addr_host port net.default_shown h
      ∙ ap some (unfold from_host_and_port in rw net.default_loopback)
  read_parts (some host) port h (r, inl shown) =
      from_str_shown host port shown h ∙ ap some (keeps_remote host port r)
  read_parts (some host) port h (r, inr (n, l)) =
      rw l (from_str_named host port n l h ∙ ap some (keeps_remote host port r))

  -- Parsing the text of an address gives the address back, for every `u16` port, where the host is
  -- none, an IP address as it is shown, or a name that is not an IP address and has no colon, in the
  -- last two cases neither empty nor this machine.
  pub from_str-to_string :
      (a : Addr) → a.port < 65536 → IsHost a.host → from_str net (to_string a) ≡ some a
  from_str-to_string a h k = read_parts a.host a.port h k

-- An address of the program survives the wire: a `u16` port is not truncated.
pub from_address-to_address : (a : Addr) → a.port < 65536 → from_address (some (to_address a)) ≡ a
unfolding from_address to_address
from_address-to_address a h = ground arith
