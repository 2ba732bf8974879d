-- ===== src/Select/State.antt =====
-- The objects of chapter05/nonblocking/server/nbserver.cpp, and the answers of the system.
use network_programming_for.Base.{ℕ, ◌+◌, Bool, List, ◌∷◌, Option, update}
pub use network_programming_for.EventSelect.State.{Received, arrived, refused, Sent, taken, unsent}

-- `BUFFER_OBJ`. `memory` is what stands at `buf`, `addr` the peer of a datagram.
pub record NbBuffer : Type 0 where
  pub memory : List ℕ
  pub buflen : ℕ
  pub addr : ℕ

-- `SOCKET_OBJ`. The queue from `pending` to `pendingtail` is the list of its buffers; `next` and
-- `prev` are addresses.
pub record NbSocket : Type 0 where
  pub s : ℕ
  pub listening : Bool
  pub closing : Bool
  pub addr : ℕ
  pub pending : List NbBuffer
  pub next : ℕ
  pub prev : ℕ

-- What `select` answers: an error, none ready in time, or the handles that are left in the sets.
pub data Selected : Type 0 where
  select_error : Selected
  timed_out : Selected
  ready : (reads writes excepts : List ℕ) → Selected

-- The system: its answers by the number of the call, where sends are told the bytes and `select` the
-- set; `socket` gives a handle and `accept` a handle and the address of the peer, `tick` is `GetTickCount`. `fd_set` is the
-- macro `FD_SET`.
pub record NbSystem : Type 0 where
  pub recv : ℕ → Received
  pub send : ℕ → List ℕ → Sent
  pub socket : ℕ → Option ℕ
  pub bind : ℕ → Bool
  pub listen : ℕ → Bool
  pub accept : ℕ → Option (ℕ × ℕ)
  pub memory : ℕ → Bool
  pub select : ℕ → List ℕ → Selected
  pub tick : ℕ → ℕ
  pub fd_set : ℕ → List ℕ → List ℕ

-- A call for a socket object, by its address. A receive shows the bytes that came, a send those that
-- it offered and how many were taken.
pub data NbCall : Type 0 where
  receives : (sock : ℕ) → List ℕ → NbCall
  sends : (sock : ℕ) → List ℕ → (peer taken : ℕ) → NbCall
  closes : (sock handle : ℕ) → NbCall

-- The options, the socket objects by address, the list of them, the objects given back and the
-- counters. `heap_next` is the address of the next object, `calls` counts the calls that can fail,
-- `clock` those of `GetTickCount`, and `trace` holds the calls on sockets, the last one first.
pub record NbWorld : Type 0 where
  pub is_tcp : Bool
  pub buffer_size : ℕ
  pub sockets : ℕ → NbSocket
  pub socket_list : ℕ
  pub socket_list_end : ℕ
  pub socket_count : ℕ
  pub freed : List ℕ
  pub heap_next : ℕ
  pub bytes_read : ℕ
  pub bytes_sent : ℕ
  pub start_time : ℕ
  pub bytes_read_last : ℕ
  pub bytes_sent_last : ℕ
  pub start_time_last : ℕ
  pub current_connections : ℕ
  pub calls : ℕ
  pub clock : ℕ
  pub trace : List NbCall

abbrev pub put_socket : NbWorld → ℕ → NbSocket → NbWorld
put_socket g k o = record g { sockets = update g.sockets k o }

abbrev pub note_call : NbWorld → NbCall → NbWorld
note_call g c = record g { calls = g.calls + 1; trace = c ∷ g.trace }

-- How a part of the program ends: it goes on, it ends the process, or it used up the fuel.
pub data Flow {ℓ} (A : Type ℓ) : Type ℓ where
  going : A → Flow A
  exited : Flow A
  stuck : Flow A

infixl 5 ◌>>=◌
abbrev pub ◌>>=◌ {ℓ κ} : {A : Type ℓ} {B : Type κ} → Flow A → (A → Flow B) → Flow B
going a >>= f = f a
exited >>= f = exited
stuck >>= f = stuck
