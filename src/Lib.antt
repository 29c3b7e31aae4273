-- ===== src/Lib.antt =====
-- nport forwards HTTP host names and TCP ports of a public server to services behind a firewall.
-- The repository has three parts: the library of messages and addresses (libnp), the server
-- (nport-server) and the client that runs beside the services (np). np opens a websocket to the
-- server and asks for forwardings; the server answers, and from then on sends it each HTTP
-- request for its host names and the bytes of each connection to its ports.
--
-- Addr (libnp/src/lib.rs) is the address type with its text form, its parsers and its serde
-- forms; Addr/Split takes the name of a port forwarding apart. Messages (libnp/src/*.proto) are
-- the messages; an enum field holds its number, as the `i32` of the generated code does, and the
-- binary encoding is left to prost.
--
-- Server is nport-server/src/server. State is the shared memory: the clients of client.rs in a
-- store, named by address, the registry of registry.rs, the counters of stats.rs, and what was
-- put into channels. Registry and Client are the operations on it, Hostname (hostname.rs),
-- Hostnames and Config (config.rs) and Forwarding (msghandlers/common.rs) validate names and
-- settings, Config/Setup makes the server of its settings, Msghandlers (msghandlers/*.rs) are the
-- handlers of np's messages, Forward (the second half of handlers/websockets.rs) carries an HTTP
-- request to np and back, PortServer (port_server.rs) is the listener of a port and the task of
-- one connection, Routing (implementation.rs) chooses the router of a request, App leads the
-- request from there to its handler, Site (handlers/site.rs, templates.rs, error.rs) are the
-- pages, with Site/Replies for the status of a forwarded request, Telemetry (main.rs, opentelemetry.rs) reads the headers of the exporter, and Session
-- (handle_socket of handlers/websockets.rs) is the life of all connections of nps, as a relation
-- of steps.
--
-- Np is np/src. Client (client.rs) has the forwardings and the connection, Client/Listing the
-- forwardings as they are listed, Client/Port (client/port.rs) is the task of one connection,
-- Dispatch (dispatch/*.rs) handles the messages of the server, and Run (lib.rs, settings.rs) goes
-- from the command line to the tunnels (Run/Command), connects, retries and sets the tunnels up,
-- and reads messages (Run/Read). Tunnel and Client/Pipe put both sides together.
--
-- Cert is nport-server/src/cert: the store of certificates (store.rs) with its files
-- (Cert/Files), Cert/Generator (generator.rs) with the wait for a DNS challenge, and
-- Cert/Cloudflare (cloudflare.rs), which keeps the record of the challenge.
--
-- Stateful code takes the state and returns it with its result. What a call learns from outside
-- (whether the websocket takes a message, which port can be bound, what is read, how long a
-- lookup takes) is an argument: Server/Env, Np/Env, and the turns of the tasks and loops. A panic
-- is `none`, and so is a handler of np that waits without end for room in the channel of a
-- connection; a handler of the server that does is no step of Session. A handler runs in one piece: the locks within it are not split, but in
-- Np/Client/Lock, which is about one of them, and in Server/Registry/Locks, where the operations
-- of the registry run one lock at a time. The libraries are parameters with the behaviour that
-- the code relies on: Addr/Sockets for the parsers of std::net, Addr/Split for that of URLs,
-- Text/Lowercase for Unicode lower-casing, Config/Setup for trimming, Np/Dispatch/Http for hyper,
-- Server/Forward for the types of HTTP headers, Server/Site for the templates, Np/Run/Command for
-- the parsers of settings, Cert for X.509 and keys, Cert/Files for the file system and
-- serde_json, Cert/Generator for ACME and DNS, and Cert/Cloudflare for the service. Text is UTF-8 bytes.
--
-- A decimal port is printed with fuel 5, which is enough for a `u16`, and an error code with fuel
-- 10, enough for a positive `i32`. The loop that retries is run on fuel, in rounds: six are
-- enough for it to end. The fuel for a chain of certificates is its length in bytes and one more.
-- The loops over what the outside answers are recursion on the list of those answers: twenty
-- lookups are enough for the wait for DNS. All other recursion is structural. The wrap-around of
-- 64-bit counters is left out.
--
-- Not modelled are the calls that bind and serve sockets (axum, rustls) and with them how the
-- server stops, the set-up of the exporter of telemetry, the constants of the build and the files
-- of templates, and logging.
pub mod Prelude
pub mod Text
pub mod StringSet
pub mod StringMap
pub mod Messages
pub mod Addr
pub mod Server
pub mod Np
pub mod Cert
