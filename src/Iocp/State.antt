-- ===== src/Iocp/State.antt =====
-- The objects and globals of chapter06/iocpserver.cpp, and the calls of the operating system.
use network_programming_for.Base.{
  ℕ, ◌+◌, ◌^◌, ◌-◌, Bool, true, false, List, ◌∷◌, ◌==◌, update, take,
}

-- `BUFFER_OBJ.operation`; accept is the value zero.
pub data Operation : Type 0 where
  accept read write : Operation

-- `BUFFER_OBJ`. `memory` is what stands behind `buf`: the bytes that follow the object. `buf` points
-- there whenever it is set, and so has no field; nor have `ol` and `addr`, which nothing here reads.
pub record BufferObj : Type 0 where
  pub sclient : ℕ
  pub post_accept : ℕ
  pub memory : List ℕ
  pub buflen : ℕ
  pub operation : Operation
  pub addrlen : ℕ
  pub sock : ℕ
  pub next : ℕ

pub record SocketObj : Type 0 where
  pub s : ℕ
  pub af : ℕ
  pub b_closing : Bool
  pub outstanding_recv : ℕ
  pub outstanding_send : ℕ
  pub pending_send : ℕ
  pub next : ℕ

-- `LISTEN_OBJ`. The two events are their handles; `repost_signaled` is the state of the second.
pub record ListenObj : Type 0 where
  pub s : ℕ
  pub address_family : ℕ
  pub pending_accepts : ℕ
  pub pending_accept_count : ℕ
  pub hi_water_mark : ℕ
  pub lo_water_mark : ℕ
  pub accept_event : ℕ
  pub repost_accept : ℕ
  pub repost_signaled : Bool
  pub repost_count : ℕ
  pub next : ℕ

-- The settings of the command line.
pub record Config : Type 0 where
  pub address_family : ℕ
  pub buffer_size : ℕ
  pub initial_accepts : ℕ
  pub max_accepts : ℕ
  pub max_receives : ℕ
  pub max_sends : ℕ

-- What the program asks of the system, as far as it can be seen from outside.
pub data Call : Type 0 where
  heap_alloc : Call
  open_socket : ℕ → Call
  close_socket : ℕ → Call
  associate : ℕ → Call
  wsa_recv : ℕ → ℕ → Call
  wsa_send : ℕ → List ℕ → Call
  accept_ex : ℕ → ℕ → Call
  get_connect_time : ℕ → Call
  set_event : ℕ → Call

-- How such a call ends: with a value, or with what `GetLastError` then says.
pub data Answer : Type 0 where
  success : ℕ → Answer
  failure : ℕ → Answer

-- The heap, by address, with the lookaside lists, the queue of pending sends and the counters.
-- `heap_next` is the address of the next allocation, `calls` counts the calls of the system that
-- can fail, and `trace` holds all calls, the last one first.
pub record Server : Type 0 where
  pub config : Config
  pub open config use {buffer_size, initial_accepts, max_accepts, max_receives, max_sends}
  pub buffers : ℕ → BufferObj
  pub sockets : ℕ → SocketObj
  pub listens : ℕ → ListenObj
  pub free_buffer_list : ℕ
  pub free_socket_list : ℕ
  pub pending_send_list : ℕ
  pub pending_send_list_end : ℕ
  pub bytes_read : ℕ
  pub bytes_sent : ℕ
  pub start_time : ℕ
  pub bytes_read_last : ℕ
  pub bytes_sent_last : ℕ
  pub start_time_last : ℕ
  pub connections : ℕ
  pub connections_last : ℕ
  pub outstanding_sends : ℕ
  pub heap_next : ℕ
  pub calls : ℕ
  pub trace : List Call

abbrev pub invalid_socket : ℕ
invalid_socket = 2 ^ 32 - 1

abbrev pub wsa_io_pending : ℕ
wsa_io_pending = 997

-- `sizeof(SOCKADDR_STORAGE)`
abbrev pub sizeof_sockaddr_storage : ℕ
sizeof_sockaddr_storage = 128

abbrev pub burst_accept_count : ℕ
burst_accept_count = 100

abbrev pub set_buffer : Server → ℕ → BufferObj → Server
set_buffer g p b = record g { buffers = update g.buffers p b }

abbrev pub set_socket : Server → ℕ → SocketObj → Server
set_socket g p k = record g { sockets = update g.sockets p k }

abbrev pub set_listen : Server → ℕ → ListenObj → Server
set_listen g p l = record g { listens = update g.listens p l }

-- A call that cannot fail, or whose failure nobody looks at.
abbrev pub record_call : Server → Call → Server
record_call g c = record g { trace = c ∷ g.trace }

-- A call that can fail takes the next answer.
abbrev pub count_call : Server → Call → Server
count_call g c = record g { trace = c ∷ g.trace; calls = g.calls + 1 }

-- `rc == SOCKET_ERROR` or `rc == FALSE` turns into success where the operation is only pending.
abbrev pub is_posted : Answer → Bool
is_posted (success _) = true
is_posted (failure e) = e == wsa_io_pending

abbrev pub is_success : Answer → Bool
is_success (success _) = true
is_success (failure _) = false

-- The bytes that a `WSABUF` over this buffer shows.
abbrev pub payload : BufferObj → List ℕ
payload b = take b.buflen b.memory
