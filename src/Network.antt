-- ===== src/Network.antt =====
-- What the proxy does outside its own memory, and the memory that its requests share.
--
-- A body is empty, a whole text, or a stream that is still being received. Each call of the network
-- is an event; the answers are a parameter, and may depend on all the events before. The background
-- task of a client connection only logs, so that starting it is an event and nothing more.
use broxy.Prelude.{ℕ, List, ◌∷◌}
use broxy.Outcome.{Result, of_result, M, returns}
use broxy.LoadBalancer.{SocketAddr, LoadBalancer}
use broxy.Crates.{Crates, Bytes}

module _ (c : Crates) where
  open c use {RequestParts, ResponseParts, new_parts, set_status, Incoming}
  open c use {TcpStream, Sender, Connection}

  pub data Payload : Type 0 where
    empty : Payload
    full : Bytes → Payload
    incoming : Incoming → Payload

  pub record Request : Type 0 where
    pub parts : RequestParts
    pub body : Payload

  pub record Response : Type 0 where
    pub parts : ResponseParts
    pub body : Payload

  -- `Response::new(Empty)` with its status set.
  abbrev pub status_response : ℕ → Response
  status_response code = record { parts = set_status code new_parts; body = empty }

  -- The newest event comes first in a history.
  pub data Event : Type 0 where
    connecting : SocketAddr → Event
    handshaking : TcpStream → Event
    spawning : Connection → Event
    sending : Sender → Request → Event
    collecting : Incoming → Event

  pub record Network : Type 0 where
    pub connect : List Event → SocketAddr → Result TcpStream
    pub handshake : List Event → TcpStream → Result (Sender × Connection)
    pub send_request : List Event → Sender → Request → Result (ResponseParts × Incoming)
    pub collect : List Event → Incoming → Result Bytes

  -- The balancers in memory, at the addresses 0, 1, …, and the events so far.
  pub record State : Type 0 where
    pub balancers : List LoadBalancer
    pub history : List Event

  abbrev pub record_event : Event → State → State
  record_event e s = record s { history = e ∷ s.history }

module _ (c : Crates) (net : Network c) where
  open c use {ResponseParts, Incoming, TcpStream, Sender, Connection}

  abbrev pub connect : SocketAddr → M (State c) TcpStream
  connect address s =
      (of_result (net.connect s.history address), record_event c (connecting address) s)

  abbrev pub handshake : TcpStream → M (State c) (Sender × Connection)
  handshake io s = (of_result (net.handshake s.history io), record_event c (handshaking io) s)

  abbrev pub spawn : Connection → M (State c) (Unit {0})
  spawn conn s = (returns tt, record_event c (spawning conn) s)

  abbrev pub send_request : Sender → Request c → M (State c) (ResponseParts × Incoming)
  send_request sender request s = (
    of_result (net.send_request s.history sender request),
    record_event c (sending sender request) s,
  )

  abbrev pub collect : Incoming → M (State c) Bytes
  collect body s = (of_result (net.collect s.history body), record_event c (collecting body) s)
