-- ===== src/EventSelect/State.antt =====
-- The objects of chapter05/WSAEventSelect/server/eventserver.cpp, and the answers of the system.
use network_programming_for.Base.{ℕ, ◌+◌, Bool, List, ◌∷◌, update}

-- `BUFFER_OBJ`. `memory` is what stands at `buf`, `addr` the peer of a datagram.
pub record EventBuffer : Type 0 where
  pub memory : List ℕ
  pub buflen : ℕ
  pub addr : ℕ

-- `SOCKET_OBJ`. The queue from `pending` to `pendingtail` is the list of its buffers.
pub record EventSocket : Type 0 where
  pub s : ℕ
  pub event : ℕ
  pub closing : Bool
  pub pending : List EventBuffer

-- What `recv` or `recvfrom`, and `send` or `sendto`, answer.
pub data Received : Type 0 where
  arrived : List ℕ → (peer : ℕ) → Received
  refused : (error : ℕ) → Received

pub data Sent : Type 0 where
  taken : ℕ → Sent
  unsent : (error : ℕ) → Sent

-- The system: its answers by the number of the call, where sends are told the bytes, and whether
-- there is memory.
pub record System : Type 0 where
  pub recv : ℕ → Received
  pub send : ℕ → List ℕ → Sent
  pub memory : ℕ → Bool

-- A call on a socket handle. A send shows its bytes, and how many of them were taken.
pub data EventCall : Type 0 where
  receives : (handle : ℕ) → EventCall
  sends : (handle : ℕ) → List ℕ → (peer taken : ℕ) → EventCall
  closes : (handle : ℕ) → EventCall

-- The options, the socket objects by address and the counters; `calls` counts the calls that can
-- fail, and `trace` holds the calls, the last one first.
pub record EventWorld : Type 0 where
  pub is_tcp : Bool
  pub buffer_size : ℕ
  pub sockets : ℕ → EventSocket
  pub bytes_read : ℕ
  pub bytes_read_last : ℕ
  pub bytes_sent : ℕ
  pub bytes_sent_last : ℕ
  pub current_connections : ℕ
  pub calls : ℕ
  pub trace : List EventCall

abbrev pub put_socket : EventWorld → ℕ → EventSocket → EventWorld
put_socket g k o = record g { sockets = update g.sockets k o }

abbrev pub note_call : EventWorld → EventCall → EventWorld
note_call g c = record g { calls = g.calls + 1; trace = c ∷ g.trace }
