-- ===== src/Np/Client/Pipe.antt =====
-- nport-server/src/server/port_server.rs with np/src/client/port.rs: the bytes of a connection on
-- their way from the socket of the server to the local service.
use nport.Prelude.{
  ℕ, ◌≡◌, refl, ap, ◌∙◌, true, false, Option, none, some, List, [], ◌∷◌, ok, arith, rev_append, All,
  map, ==_refl,
}
use nport.Text.{Text, is_empty}
use nport.StringMap
use nport.StringMap.{get-remove}
use nport.Text.Laws.{text_eq_refl}
use mathlib.Core.Option
use nport.Server.Msghandlers.Opening.{sent-send}
use nport.Messages.Server.{Message, port_receive, port_close}
use nport.Server.State.{World, PortMessage, bytes, close}
use nport.Server.Client
use nport.Server.Env as ServerEnv
use nport.Server.PortServer.Relay
use nport.Np.Env.{Env}
use nport.Np.Client as Np
use nport.Np.Client.Port as Port
use nport.Np.Dispatch.{message}
use nport.Np.Dispatch.Http.{Hyper}

-- What the server sends to np for the bytes that it read.
abbrev pub stream : Text → List Text → List Message
stream uuid [] = port_close (record { uuid = uuid }) ∷ []
stream uuid (chunk ∷ chunks) =
    port_receive (record { uuid = uuid; bytes = chunk }) ∷ stream uuid chunks

-- The server's socket: the bytes that are read one after the other, and then its end.
abbrev pub reads : ServerEnv.Env → List Text → List Relay.Turn
reads env [] = record { env = env; alive = true; event = Relay.read [] } ∷ []
reads env (chunk ∷ chunks) =
    record { env = env; alive = true; event = Relay.read chunk } ∷ reads env chunks

-- What np takes out of the channel of the connection.
abbrev pub channelled : List Text → List PortMessage
channelled [] = close ∷ []
channelled (chunk ∷ chunks) = bytes chunk ∷ channelled chunks

abbrev pub IsChunk : Text → Type 0
IsChunk chunk = is_empty chunk ≡ false

abbrev writer : World → ℕ → Text → Option ℕ
writer w c uuid = StringMap.get uuid (w.client c).port_writers

module _ (env : ServerEnv.Env) (c : ℕ) (uuid : Text) where
  run-reads :
      (chunks : List Text) (w : World) (written : List Text)
      → env.link ≡ true
      → All IsChunk chunks
      → let s =
          Relay.run c uuid
            (reads env chunks)
            (record { world = w; written = written; running = true }) in
        ((s.world.client c).sent ≡ rev_append (stream uuid chunks) (w.client c).sent)
        × (s.running ≡ false)
        × (writer s.world c uuid ≡ none)
        × (s.written ≡ written)
  unfolding Relay.run Client.port_writer_remove Client.send
  run-reads [] w written l a = (
    ground (arith, ==_refl c),
    refl,
    ground (arith, ==_refl c, get-remove uuid uuid (w.client c).port_writers, text_eq_refl uuid),
    refl,
  )
  run-reads (chunk ∷ chunks) w written l (a, more) =
      let message = port_receive (record { uuid = uuid; bytes = chunk }) in
      let (sent, stopped, gone, same) =
        run-reads chunks (Client.send env w c message).0 written l more in
      rw a (
        sent ∙ ap (rev_append (stream uuid chunks)) (sent-send env w c message l),
        stopped,
        gone,
        same,
      )

-- What np writes into the channel of the connection, over the messages in order; `none` where a
-- handler panics or writes nothing.
unfoldable pub deliver : Hyper → Env → Np.Client → List Message → Option (List (ℕ × PortMessage))
deliver hyper env client [] = some []
deliver hyper env client (m ∷ ms) = elim (message hyper env client m) [
  | none ↦ none
  | some h ↦ elim h.written [
    | none ↦ none
    | some item ↦ Option.map (◌∷◌ item) (deliver hyper env h.client ms)
  ]
]

-- What np's task takes out of the channel, each of it written to the local service.
abbrev pub takes : Env → List (ℕ × PortMessage) → List Port.Turn
takes env [] = []
takes env ((sender, m) ∷ items) =
    record { env = env; alive = true; event = Port.message (some m) true } ∷ takes env items

abbrev tagged : ℕ → List PortMessage → List (ℕ × PortMessage)
tagged sender ms = map (λ m. (sender, m)) ms

All-tagged : (sender : ℕ) (ms : List PortMessage) → All (λ item. item.0 ≡ sender) (tagged sender ms)
All-tagged sender [] = tt
All-tagged sender (m ∷ ms) = (refl, All-tagged sender ms)

module _ (hyper : Hyper) (env : Env) (client : Np.Client) (uuid : Text) where
  handle_receive :
      (sender : ℕ) (chunk : Text)
      → StringMap.get uuid client.port_writers ≡ some sender
      → env.is_open sender ≡ true
      → env.has_room sender ≡ true
      → message hyper env client (port_receive (record { uuid = uuid; bytes = chunk }))
        ≡ some (record { client = client; written = some (sender, bytes chunk); result = ok tt })
  unfolding message Np.port_receive Np.port_message
  handle_receive sender chunk e o r = ground (arith, e, o, r)

  handle_close :
      (sender : ℕ)
      → StringMap.get uuid client.port_writers ≡ some sender
      → env.is_open sender ≡ true
      → env.has_room sender ≡ true
      → message hyper env client (port_close (record { uuid = uuid }))
        ≡ some (record { client = client; written = some (sender, close); result = ok tt })
  unfolding message Np.port_close Np.port_message
  handle_close sender e o r = ground (arith, e, o, r)

  deliver-stream :
      (sender : ℕ) (chunks : List Text)
      → StringMap.get uuid client.port_writers ≡ some sender
      → env.is_open sender ≡ true
      → env.has_room sender ≡ true
      → deliver hyper env client (stream uuid chunks) ≡ some (tagged sender (channelled chunks))
  unfolding deliver
  deliver-stream sender [] e o r = rw (deliver, handle_close sender e o r) refl
  deliver-stream sender (chunk ∷ chunks) e o r =
      rw (deliver, handle_receive sender chunk e o r, deliver-stream sender chunks e o r) refl

  run-takes :
      (sender : ℕ) (chunks written : List Text)
      → let s =
          Port.run uuid
            (takes env (tagged sender (channelled chunks)))
            (record { client = client; written = written; running = true }) in
        (s.written ≡ rev_append chunks written)
        × (s.running ≡ false)
        × (StringMap.get uuid s.client.port_writers ≡ none)
  unfolding Port.run Np.port_writer_remove
  run-takes sender [] written =
      (refl, refl, get-remove uuid uuid client.port_writers ∙ rw (text_eq_refl uuid) refl)
  run-takes sender (chunk ∷ chunks) written = run-takes sender chunks (chunk ∷ written)

-- The pipe of one connection, with working links and a channel that takes its messages: what the server reads from its socket up to the
-- end, in any pieces, it sends to np; np puts it in the channel of the connection, and np's task
-- writes exactly those pieces to the local service, in their order. Then both tasks have stopped
-- and neither side has the connection's writer any more.
pub port_pipe :
    (hyper : Hyper) (server_env : ServerEnv.Env) (env : Env) (w : World) (c sender : ℕ)
    (client : Np.Client) (uuid : Text) (chunks : List Text)
    → server_env.link ≡ true
    → All IsChunk chunks
    → StringMap.get uuid client.port_writers ≡ some sender
    → env.is_open sender ≡ true
    → env.has_room sender ≡ true
    → let s =
        Relay.run c uuid
          (reads server_env chunks)
          (record { world = w; written = []; running = true }) in
      (messages : List Message) × (items : List (ℕ × PortMessage)) × ((s.world.client c).sent
        ≡ rev_append messages (w.client c).sent)
      × (s.running ≡ false)
      × (writer s.world c uuid ≡ none)
      × (deliver hyper env client messages ≡ some items)
      × (All (λ item. item.0 ≡ sender) items)
      × (let t =
            Port.run uuid
              (takes env items)
              (record { client = client; written = []; running = true }) in
          (t.written ≡ rev_append chunks [])
          × (t.running ≡ false)
          × (StringMap.get uuid t.client.port_writers ≡ none))
port_pipe hyper server_env env w c sender client uuid chunks l a e o r =
    let (sent, stopped, gone, same) = run-reads server_env c uuid chunks w [] l a in
    (
      stream uuid chunks,
      tagged sender (channelled chunks),
      sent,
      stopped,
      gone,
      deliver-stream hyper env client uuid sender chunks e o r,
      All-tagged sender (channelled chunks),
      run-takes hyper env client uuid sender chunks [],
    )
