-- ===== src/Lsp/Overlap/State.antt =====
-- WSAOVERLAPPEDPLUS and what else chapter12/LSP/overlap.cpp works on.
use network_programming_for.Base.{ℕ, Bool, List, ◌∷◌, Option, update}
use network_programming_for.Lsp.State.{SockInfo, LspWorld, LspCall, put_info}

-- `LSP_OP_IOCTL` to `LSP_OP_WSARECVMSG`, and any other number.
pub data LspOp : Type 0 where
  ioctl recv recv_from send send_to transmit_file accept_ex connect_ex disconnect_ex : LspOp
  transmit_packets wsa_recv_msg unknown : LspOp

-- `WSAOVERLAPPEDPLUS`. Of the arguments of the operation it has the buffers, the flags, the number of
-- bytes and the socket of an accept; what only the provider below reads is left out.
pub record OverlappedPlus : Type 0 where
  pub provider : ℕ
  pub sock_info : ℕ
  pub caller_socket : ℕ
  pub provider_socket : ℕ
  pub error : ℕ
  pub operation : LspOp
  pub buffers : ℕ
  pub flags : ℕ
  pub bytes : ℕ
  pub accept_socket : ℕ
  pub thread_id : ℕ
  pub caller_overlapped : ℕ
  pub completion_routine : ℕ
  pub next : ℕ

-- The OVERLAPPED of the caller.
pub record CallerOverlapped : Type 0 where
  pub internal : ℕ
  pub internal_high : ℕ
  pub offset : ℕ
  pub offset_high : ℕ
  pub h_event : ℕ

-- A call of the provider below: what it returns, the error it stores, what `WSAGetLastError` says
-- after it, and the number of bytes and the flags it stores.
pub record Returned : Type 0 where
  pub ret : ℕ
  pub error : ℕ
  pub last_error : ℕ
  pub bytes : ℕ
  pub flags : ℕ

-- What `WSPGetOverlappedResult` stores; the error is 0 where it succeeds.
pub record OverlappedResult : Type 0 where
  pub transferred : ℕ
  pub result_flags : ℕ
  pub result_error : ℕ

pub record LspSystem : Type 0 where
  pub operate : ℕ → LspOp → Returned
  pub result : ℕ → OverlappedResult
  pub memory : ℕ → Bool
  pub closes_below : ℕ → Bool
  pub closes_layered : ℕ → Bool
  -- The context of a socket handle, after the calls that there were.
  pub context_of : List LspCall → ℕ → Option ℕ

pub data OverlapCall : Type 0 where
  resets_event : (event : ℕ) → OverlapCall
  starts : LspOp → (provider_socket : ℕ) → OverlapCall
  frees_buffer : (buffers : ℕ) → OverlapCall
  queues_apc : (thread overlapped : ℕ) → OverlapCall
  completes : (caller_socket overlapped error transferred : ℕ) → OverlapCall
  wakes_thread : OverlapCall

-- The structures by address, the two lists of them, the OVERLAPPEDs of the callers, and the calls, the
-- last one first. `has_iocp` is whether there
-- is a completion port, `pool_next` is the address of the next pool, `calls` counts the calls that can fail.
pub record OverlapWorld : Type 0 where
  pub has_iocp : Bool
  pub contexts : LspWorld
  pub structures : ℕ → OverlappedPlus
  pub free_pool : ℕ
  pub pending_start : ℕ
  pub pending_end : ℕ
  pub pool_next : ℕ
  pub overlappeds : ℕ → CallerOverlapped
  pub calls : ℕ
  pub log : List OverlapCall

abbrev pub set_structure : OverlapWorld → ℕ → OverlappedPlus → OverlapWorld
set_structure w p o = record w { structures = update w.structures p o }

abbrev pub set_overlapped : OverlapWorld → ℕ → CallerOverlapped → OverlapWorld
set_overlapped w p o = record w { overlappeds = update w.overlappeds p o }

abbrev pub set_info : OverlapWorld → ℕ → SockInfo → OverlapWorld
set_info w p i = record w { contexts = put_info w.contexts p i }

abbrev pub note : OverlapWorld → OverlapCall → OverlapWorld
note w c = record w { log = c ∷ w.log }

-- `WPUQuerySocketHandleContext`
abbrev pub query_context : LspSystem → OverlapWorld → (handle : ℕ) → Option ℕ
query_context sys w s = sys.context_of w.contexts.trace s
