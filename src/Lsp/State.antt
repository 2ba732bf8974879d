-- ===== src/Lsp/State.antt =====
-- `SOCK_INFO` and the list of a provider in chapter12/LSP, and the calls of the system.
use network_programming_for.Base.{ℕ, Bool, List, ◌∷◌, update}
pub use network_programming_for.Iocp.State.{invalid_socket}

-- `SOCK_INFO`. The provider is the number of its entry, and `next` and `prev` are addresses;
-- `hIocp`, which nothing here reads, and the lock have no field.
pub record SockInfo : Type 0 where
  pub provider_socket : ℕ
  pub layered_socket : ℕ
  pub outstanding_async : ℕ
  pub ref_count : ℕ
  pub bytes_sent : ℕ
  pub bytes_recv : ℕ
  pub b_closing : Bool
  pub provider : ℕ
  pub h_wnd : ℕ
  pub u_msg : ℕ
  pub next : ℕ
  pub prev : ℕ

pub data LspCall : Type 0 where
  close_layered : (handle : ℕ) → LspCall
  set_linger : (handle : ℕ) → LspCall
  close_below : (handle : ℕ) → LspCall

-- The contexts by address, the head of each provider's list, the contexts given back, and the calls,
-- the last one first. `heap_next` is the address of the next allocation.
pub record LspWorld : Type 0 where
  pub infos : ℕ → SockInfo
  pub socket_list : ℕ → ℕ
  pub freed : List ℕ
  pub heap_next : ℕ
  pub trace : List LspCall

abbrev pub put_info : LspWorld → ℕ → SockInfo → LspWorld
put_info g p i = record g { infos = update g.infos p i }

abbrev pub log_call : LspWorld → LspCall → LspWorld
log_call g c = record g { trace = c ∷ g.trace }
