-- ===== src/Np/Run/Start.antt =====
-- np/src/lib.rs: from the command line to what the first connection asks of the server.
use nport.Prelude.{
  ◌≡◌, refl, ap, ◌∙◌, true, not, Option, none, some, List, [], ◌∷◌, ◌++◌, ok, arith, rev_append,
  map, Option-cases, inl, inr,
}
use nport.Text.{Text}
use nport.Addr.{from_port, from_host_and_port, to_address}
use nport.Addr.Sockets.{Net}
use nport.Messages.{tcp, protocol_raw}
use nport.Messages.Client.{Message, http_open, port_open}
use nport.Np.Env.{Env}
use nport.Np.Client.{server_url}
use nport.Np.Run.{State, Tunnel, http, tcp, or_empty, round}
use nport.Np.Run.Command.{
  Command, http_command, tcp_command, version, Arguments, Settings, Library, new_settings, runs,
  remote_addr, or_nothing, add_command, or_false, start, unwrap_or_default,
}
use nport.Np.Run.Reconnect.{request_of, online, round-connects}

-- The host that `-H` names for a port, where that is not this machine.
abbrev pub named_host : Net → Option Text → Option Text
named_host net none = none
named_host net (some hostname) = (from_host_and_port net hostname 0).host

-- What the command line asks of the server: `-H` is the name that is wanted, or the host of the
-- port, and `-R` the port, which is of no use for HTTP.
abbrev pub asked_for : Net → Arguments → Command → Option Message
asked_for net args version = none
asked_for net args (http_command local_port) = some (
    http_open (record {
      hostname = some (or_empty args.hostname);
      local_address = some (record { host = none; port = local_port });
    }))
asked_for net args (tcp_command local_port) = some (
    port_open (record {
      protocol = protocol_raw tcp;
      remote_address = some (record {
        host = named_host net args.hostname;
        port = unwrap_or_default net args.remote_port;
      });
      local_address = some (record { host = none; port = local_port });
    }))

rev_append-snoc :
    {A : Type 0} (xs : List A) (x : A) (ys : List A)
    → rev_append (xs ++ x ∷ []) ys ≡ x ∷ rev_append xs ys
rev_append-snoc [] x ys = refl
rev_append-snoc (y ∷ xs) x ys = rev_append-snoc xs x (y ∷ ys)

map-snoc :
    (xs : List Tunnel) (x : Tunnel)
    → map request_of (xs ++ x ∷ []) ≡ map request_of xs ++ request_of x ∷ []
map-snoc [] x = refl
map-snoc (y ∷ xs) x = ap (◌∷◌ (request_of y)) (map-snoc xs x)

module _ (net : Net) (args : Arguments) where
  -- The command adds one tunnel, which asks for what it should.
  command-adds :
      (command : Command) (m : Message) (tunnels : List Tunnel)
      → args.command ≡ some command
      → asked_for net args command ≡ some m
      → (tunnel : Tunnel) × (add_command net args tunnels ≡ some (tunnels ++ tunnel ∷ []))
        × (request_of tunnel ≡ m)
  unfolding add_command remote_addr to_address from_host_and_port
  command-adds (http_command p) m tunnels c e =
      (http args.hostname (from_port p), ground (arith, c), ground (arith, e))
  command-adds (tcp_command p) m tunnels c e = (
    tcp (remote_addr net args) (from_port p),
    ground (arith, c),
    elim (Option-cases args.hostname) [
      | inl h ↦ elim (Option-cases args.remote_port) [
        | inl r ↦ ground (arith, h, r, e)
        | inr (port, r) ↦ ground (arith, h, r, e)
      ]
      | inr (hostname, h) ↦ ground (arith, h, e)
    ],
  )
  command-adds version m tunnels c e = cc

  snoc-runs :
      (library : Library) (s : Settings) (tunnels : List Tunnel) (tunnel : Tunnel)
      → new_settings library (not (or_false net args.no_config_file)) ≡ ok s
      → add_command net args (or_nothing net s.tunnels) ≡ some (tunnels ++ tunnel ∷ [])
      → start net library args ≡ runs s.server (tunnels ++ tunnel ∷ [])
  unfolding start
  snoc-runs library s [] tunnel o a = ground (arith, o, a)
  snoc-runs library s (x ∷ tunnels) tunnel o a = ground (arith, o, a)

  -- For every command but `version`, where the settings can be read, np runs. When it reaches the
  -- server that the settings name, and the websocket takes messages, it asks for the tunnels of the
  -- settings, in their order, and then for the one of the command line.
  pub start_asks :
      (library : Library) (s : Settings) (command : Command) (m : Message)
      → new_settings library (not (or_false net args.no_config_file)) ≡ ok s
      → args.command ≡ some command
      → asked_for net args command ≡ some m
      → (tunnels : List Tunnel) × (start net library args ≡ runs s.server tunnels)
        × ((env : Env) (os : Text) (t : State)
            → env.link ≡ ok tt
            → env.connect_async
                (server_url os t.client.version_info s.server.hostname s.server.secure)
              ≡ ok tt
            → round env os s.server.hostname s.server.secure tunnels t
              ≡ some (
                record t {
                  client =
                      online t.client
                        (m ∷ rev_append (map request_of (or_nothing net s.tunnels)) []);
                  retries = 0;
                },
                true,
              ))
  start_asks library s command m o c e =
      let configured = or_nothing net s.tunnels in
      let (tunnel, a, q) = command-adds command m configured c e in
      let asked : rev_append (map request_of (configured ++ tunnel ∷ [])) []
          ≡ m ∷ rev_append (map request_of configured) [] =
        ap (λ ms. rev_append ms []) (map-snoc configured tunnel)
        ∙ rev_append-snoc (map request_of configured) (request_of tunnel) []
        ∙ ap (λ m. m ∷ rev_append (map request_of configured) []) q in
      (
        configured ++ tunnel ∷ [],
        snoc-runs library s configured tunnel o a,
        λ env os t l r.
            round-connects env l os s.server.hostname s.server.secure _ t r
            ∙ ap (λ sent. some (record t { client = online t.client sent; retries = 0 }, true))
                asked,
      )
