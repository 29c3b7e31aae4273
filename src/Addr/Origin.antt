-- ===== src/Addr/Origin.antt =====
-- libnp/src/lib.rs: `port_origin` names a port forwarding.
use nport.Prelude.{ℕ, Option, ◌++◌}
use mathlib.Core.Option
use nport.Text.{Text, codes}
use nport.Messages.{Address, PortProtocol, tcp, protocol_of_raw}
use nport.Addr.{Addr, from_address, to_string}

abbrev pub scheme : PortProtocol → Text
scheme tcp = codes "tcp"

unfoldable pub port_origin : PortProtocol → Addr → Text
port_origin protocol addr = scheme protocol ++ (codes "://" ++ to_string addr)

-- `none` is the panic of `unwrap` on an unknown protocol.
unfoldable pub port_origin_from_raw : ℕ → Option Address → Option Text
port_origin_from_raw protocol address =
    Option.map (λ p. port_origin p (from_address address)) (protocol_of_raw protocol)
