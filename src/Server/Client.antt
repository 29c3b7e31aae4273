-- ===== src/Server/Client.antt =====
-- nport-server/src/server/client.rs: what the server keeps of one connected np.
pub mod Laws
use nport.Prelude.{
  ℕ, Bool, true, false, Option, none, some, List, [], ◌∷◌, Result, ok, err, ok_or, ◌>>=◌, ◌>>◌,
  if◌then◌else◌,
}
use nport.Text.{Text}
use nport.StringMap
use nport.Messages.Client.{HttpResponse, PortConnected, PortReceive, PortClose}
use nport.Messages.Server.{Message}
use nport.Server.State.{Client, World, PortMessage, bytes, close, update_client}
use nport.Server.Env.{Env}

-- `send_failed` is the error of the websocket, `bind_failed` that of the listener.
pub data Error : Type 0 where
  disconnected unexpected_message_type no_request client_not_found send_failed : Error
  port_id_already_registered port_id_not_registered : Text → Error

module _ (env : Env) (w : World) (c : ℕ) where
  -- `Client::send`
  unfoldable pub send : Message → World × Result Error (Unit {0})
  send message =
      let v = w.client c in
      if env.link
      then (update_client c (record v { sent = message ∷ v.sent }) w, ok tt)
      else (w, err send_failed)

  -- The caller keeps the receiving end of the channel.
  unfoldable pub register_http_request : Text → ℕ → World
  register_http_request id channel =
      let v = w.client c in
      update_client c (record v { http_requests = StringMap.insert id channel v.http_requests }) w

  -- The result of `tx.send` is ignored, so it does not matter whether the receiver is alive.
  unfoldable pub send_http_response : HttpResponse → World × Result Error (Unit {0})
  send_http_response response =
      let v = w.client c in
      let w' =
        update_client c
          (record v { http_requests = StringMap.remove response.uuid v.http_requests }) w in
      elim (StringMap.get response.uuid v.http_requests) [
        | none ↦ (w', err no_request)
        | some channel ↦
            (record w' { http_responses = (channel, response) ∷ w'.http_responses }, ok tt)
      ]

  unfoldable pub register_connect_request : Text → ℕ → World
  register_connect_request id channel =
      let v = w.client c in
      update_client c
        (record v { connect_requests = StringMap.insert id channel v.connect_requests }) w

  unfoldable pub send_connected_response : PortConnected → World × Result Error (Unit {0})
  send_connected_response connected =
      let v = w.client c in
      let w' =
        update_client c
          (record v { connect_requests = StringMap.remove connected.uuid v.connect_requests }) w in
      elim (StringMap.get connected.uuid v.connect_requests) [
        | none ↦ (w', err no_request)
        | some channel ↦ (
          record w' { connected_responses = (channel, connected) ∷ w'.connected_responses },
          ok tt,
        )
      ]

  unfoldable pub register_port : ℕ → World
  register_port port =
      let v = w.client c in update_client c (record v { open_ports = port ∷ v.open_ports }) w

  unfoldable pub port_writer_register : Text → ℕ → World × Result Error (Unit {0})
  port_writer_register uuid sender =
      let v = w.client c in
      elim (StringMap.get uuid v.port_writers) [
        | none ↦ (
          update_client c (record v { port_writers = StringMap.insert uuid sender v.port_writers })
              w,
          ok tt,
        )
        | some old ↦ (w, err (port_id_already_registered uuid))
      ]

  unfoldable pub port_writer_remove : Text → World
  port_writer_remove uuid =
      let v = w.client c in
      update_client c (record v { port_writers = StringMap.remove uuid v.port_writers }) w

  -- The handler once `send` has come to its end. Where the channel is full, `send` waits for room, with
  -- the lock on the writers; a handler that waits without end does not return, and has no result.
  unfoldable pub port_message : Text → PortMessage → World × Result Error (Unit {0})
  port_message uuid msg = elim (StringMap.get uuid (w.client c).port_writers) [
    | none ↦ (w, err (port_id_not_registered uuid))
    | some writer ↦
        if env.is_open writer
        then (record w { port_messages = (writer, msg) ∷ w.port_messages }, ok tt)
        else (w, err (port_id_not_registered uuid))
  ]

  unfoldable pub port_receive : PortReceive → World × Result Error (Unit {0})
  port_receive msg = port_message msg.uuid (bytes msg.bytes)

  unfoldable pub port_close : PortClose → World × Result Error (Unit {0})
  port_close msg = port_message msg.uuid close
