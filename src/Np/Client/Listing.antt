-- ===== src/Np/Client/Listing.antt =====
-- np/src/client.rs: the forwardings as a user interface lists them, in the order of the maps.
use nport.Prelude.{ℕ, ◌<◌, ◌≡◌, refl, Option, none, some, List, [], ◌∷◌, ok, err, arith, map}
use nport.Text.{Text, text_eq}
use nport.StringMap
use nport.Addr.{Addr, host_or_default, from_address, from_host_and_port}
use nport.Addr.Sockets.{Net}
use nport.Addr.Origin.{port_origin, port_origin_from_raw}
use nport.Addr.RoundTrip.{IsHost, keeps_remote}
use nport.Addr.Split.{UrlParser, IsUrlHost, split_origin, split_origin-port_origin}
use nport.Messages.{PortProtocol, tcp}
use nport.Messages.Server.{PortOpened}
use nport.Np.Client.{Client, insert_vacant, port_register}

pub record HttpForwarding : Type 0 where
  pub hostname : Text
  pub local_addr : Addr

pub record PortForwarding : Type 0 where
  pub protocol : PortProtocol
  pub remote_addr : Addr
  pub local_addr : Addr

abbrev pub http_entry : Text × Addr → HttpForwarding
http_entry (hostname, local_addr) = record { hostname = hostname; local_addr = local_addr }

unfoldable pub http_forwardings : Client → List HttpForwarding
http_forwardings client = map http_entry client.http_forwardings

module _ (urls : UrlParser) (net : Net) where
  -- One entry; `none` is the panic of `unwrap` on a name that `split_origin` refuses.
  unfoldable pub port_entry : Text × Addr → Option PortForwarding
  port_entry (origin, local_addr) = elim (split_origin urls origin) [
    | err e ↦ none
    | ok (protocol, hostname, port) ↦ some (record {
      protocol = protocol;
      remote_addr = from_host_and_port net hostname port;
      local_addr = local_addr;
    })
  ]

  abbrev pub both {ℓ} : {A : Type ℓ} → Option A → Option (List A) → Option (List A)
  both (some x) (some xs) = some (x ∷ xs)
  both _ _ = none

  unfoldable pub port_entries : List (Text × Addr) → Option (List PortForwarding)
  port_entries [] = some []
  port_entries (entry ∷ entries) = both (port_entry entry) (port_entries entries)

  unfoldable pub port_forwardings : Client → Option (List PortForwarding)
  port_forwardings client = port_entries client.port_forwardings

  -- A remote address that survives being put into a name and taken out of it.
  abbrev pub IsListable : Addr → Type 0
  IsListable a = (a.port < 65536) × IsHost net a.host × IsUrlHost urls a.host

  listed_addr :
      (host : Option Text) (port : ℕ)
      → IsHost net host
      → from_host_and_port net (host_or_default host) port ≡ record { host = host; port = port }
  unfolding from_host_and_port text_eq
  listed_addr none port h = rw (net.default_loopback) refl
  listed_addr (some host) port h = keeps_remote net host port h.0

  port_entry-port_origin :
      (a local_addr : Addr)
      → IsListable a
      → port_entry (port_origin tcp a, local_addr)
        ≡ some (record { protocol = tcp; remote_addr = a; local_addr = local_addr })
  unfolding port_entry
  port_entry-port_origin a local_addr (p, h, u) =
      let split = split_origin-port_origin urls a p u in
      rw (port_entry, split, listed_addr a.host a.port h) refl

  -- When np learns that a port was opened, where it has no forwarding of that name: it registers the
  -- port, and what it lists then is the protocol, the remote and the local address of the message,
  -- before all that it listed so far. The remote host is none, or a name or an IPv4 address in its
  -- normal form.
  pub port_forwardings-port_register :
      (client : Client) (opened : PortOpened) (listed : List PortForwarding)
      → opened.error ≡ none
      → opened.protocol ≡ 0
      → IsListable (from_address opened.remote_address)
      → StringMap.get (port_origin tcp (from_address opened.remote_address)) client.port_forwardings
        ≡ none
      → port_forwardings client ≡ some listed
      → (client' : Client) × (port_register client opened ≡ some (client', ok tt))
        × (port_forwardings client'
            ≡ some (
                record {
                  protocol = tcp;
                  remote_addr = from_address opened.remote_address;
                  local_addr = from_address opened.local_address;
                }
                ∷ listed))
  unfolding port_register port_origin_from_raw insert_vacant port_forwardings port_entries
      StringMap.insert
  port_forwardings-port_register client opened listed e k i n l =
      let remote = from_address opened.remote_address in
      let local = from_address opened.local_address in
      let origin = port_origin tcp remote in
      let first = port_entry-port_origin remote local i in
      let rest = StringMap.remove-absent origin client.port_forwardings n in
      (
        record client { port_forwardings = StringMap.insert origin local client.port_forwardings },
        ground (arith, e, k, n),
        rw (first, rest, l) refl,
      )
