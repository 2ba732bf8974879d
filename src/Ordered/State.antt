-- ===== src/Ordered/State.antt =====
-- The objects and globals of chapter05/iocp/server/iocpserver.cpp, and the calls of the system.
use network_programming_for.Base.{ℕ, ◌+◌, Bool, List, ◌∷◌, update}
pub use network_programming_for.Iocp.State.{
  Operation, accept, read, write, Answer, success, failure, invalid_socket, is_posted, is_success,
}

-- `BUFFER_OBJ`. `memory` is what stands at `buf`, `addr` the peer of a datagram.
pub record Buffer : Type 0 where
  pub sclient : ℕ
  pub memory : List ℕ
  pub buflen : ℕ
  pub operation : Operation
  pub addr : ℕ
  pub io_order : ℕ

-- `SOCKET_OBJ`. The list of sends that completed out of order is linked through `next` in the
-- program; here it is the list of the objects' addresses, the head first. Numbers are bit patterns.
pub record Socket : Type 0 where
  pub s : ℕ
  pub af : ℕ
  pub b_closing : Bool
  pub outstanding_ops : ℕ
  pub last_send_issued : ℕ
  pub io_count_issued : ℕ
  pub out_of_order_sends : List ℕ
  pub freed : Bool

-- What the program asks of the system. A send shows the handle, the bytes and the peer.
pub data Request : Type 0 where
  heap_alloc : Request
  open_socket : (family : ℕ) → Request
  close_socket : (handle : ℕ) → Request
  associate : (handle : ℕ) → Request
  recv : (handle buf : ℕ) → Request
  send : (handle : ℕ) → List ℕ → (peer : ℕ) → Request
  accept_ex : (handle sclient buf : ℕ) → Request

-- The heap by address, `freed` being the buffer objects given back, the options and the counters.
-- `heap_next` is the address of the next allocation, `calls` counts the calls that can fail, and
-- `trace` holds all calls, the last one first.
pub record World : Type 0 where
  pub is_tcp : Bool
  pub buffer_size : ℕ
  pub overlapped_count : ℕ
  pub buffers : ℕ → Buffer
  pub sockets : ℕ → Socket
  pub freed : List ℕ
  pub heap_next : ℕ
  pub bytes_read : ℕ
  pub bytes_sent : ℕ
  pub bytes_read_last : ℕ
  pub bytes_sent_last : ℕ
  pub calls : ℕ
  pub trace : List Request

abbrev pub set_buffer : World → ℕ → Buffer → World
set_buffer g p b = record g { buffers = update g.buffers p b }

abbrev pub set_socket : World → ℕ → Socket → World
set_socket g k s = record g { sockets = update g.sockets k s }

abbrev pub record_request : World → Request → World
record_request g r = record g { trace = r ∷ g.trace }

-- A call that can fail takes the next answer.
abbrev pub count_request : World → Request → World
count_request g r = record g { trace = r ∷ g.trace; calls = g.calls + 1 }
