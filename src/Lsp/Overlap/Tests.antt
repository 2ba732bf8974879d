-- ===== src/Lsp/Overlap/Tests.antt =====
-- Overlapped operations of chapter12/LSP, with the theorems at a concrete socket that has one operation
-- outstanding.
use network_programming_for.Base.{
  ℕ, ◌≡◌, ◌≢◌, refl, true, false, List, [], ◌∷◌, ◌==◌, if◌then◌else◌, Option, none, some, arith,
  null,
}
use network_programming_for.Lsp.State.{SockInfo, LspWorld, LspCall}
use network_programming_for.Lsp.Contexts.Links.{IsLinked}
use network_programming_for.Lsp.Overlap.State.{
  LspOp, OverlappedPlus, OverlappedResult, LspSystem, OverlapWorld,
}
use network_programming_for.Lsp.Overlap.{
  zeroed, get_overlapped_structure, putback_overlapped_structure, wsa_io_pending,
}
use network_programming_for.Lsp.Overlap.Completion.{
  intermediate_completion_routine, wsp_close_socket,
}
use network_programming_for.Lsp.Overlap.Pool.{IsPool, Gives, get_overlapped_structure-IsPool}
use network_programming_for.Lsp.Overlap.Closing.{close_socket-drops}

-- The context 1 of the handle 60, without a user, and with one operation.
abbrev busy_info : SockInfo
busy_info = record {
  provider_socket = 50;
  layered_socket = 60;
  outstanding_async = 1;
  ref_count = 0;
  bytes_sent = 0;
  bytes_recv = 7;
  b_closing = false;
  provider = 0;
  h_wnd = 0;
  u_msg = 0;
  next = null;
  prev = null;
}

abbrev busy_contexts : LspWorld
busy_contexts = record {
  infos = λ p. busy_info;
  socket_list = λ v. if v == 0 then 1 else 0;
  freed = [];
  heap_next = 10;
  trace = [];
}

-- The structure 20 is the receive; 21 and 22 are free.
abbrev busy_structures : ℕ → OverlappedPlus
busy_structures p =
    if p == 20
    then record zeroed {
      sock_info = 1;
      caller_socket = 60;
      provider_socket = 50;
      operation = LspOp.recv;
      buffers = 30;
      caller_overlapped = 40;
    }
    else if p == 21
    then record zeroed { next = 22 }
    else zeroed

abbrev busy_world : OverlapWorld
busy_world = record {
  has_iocp = false;
  contexts = busy_contexts;
  structures = busy_structures;
  free_pool = 21;
  pending_start = null;
  pending_end = null;
  pool_next = 100;
  overlappeds =
      λ o. record { internal = 0; internal_high = 0; offset = 0; offset_high = 0; h_event = 0 };
  calls = 0;
  log = [];
}

abbrev context_after : List LspCall → Option ℕ
context_after (LspCall.close_layered h ∷ t) = none
context_after t = some 1

abbrev demo_system : LspSystem
demo_system = record {
  operate = λ n op. record { ret = 1; error = 997; last_error = 997; bytes = 0; flags = 0 };
  result = λ n. record { transferred = 5; result_flags = 0; result_error = 0 };
  memory = λ n. true;
  closes_below = λ n. true;
  closes_layered = λ n. true;
  context_of = λ t s. if s == 60 then context_after t else none;
}

abbrev pending : OverlappedResult
pending = record { transferred = 5; result_flags = 0; result_error = wsa_io_pending }

busy_world-IsPool : IsPool busy_world (21 ∷ 22 ∷ [])
busy_world-IsPool = record {
  chain = (refl, λ e. omega (arith, e), (refl, λ e. omega (arith, e), refl));
  distinct = ((λ e. omega (arith, e), tt), (tt, tt));
  below = (omega arith, (omega arith, tt));
  live = omega arith;
}

get_overlapped_structure-IsPool_example :
    Gives busy_world 1 (21, 22 ∷ []) (get_overlapped_structure demo_system busy_world 1)
get_overlapped_structure-IsPool_example =
    get_overlapped_structure-IsPool demo_system busy_world 1 (21 ∷ 22 ∷ []) busy_world-IsPool

busy_contexts-IsLinked : IsLinked busy_contexts 0 (1 ∷ [])
busy_contexts-IsLinked = record {
  runs = (refl, λ e. omega (arith, e), refl, refl);
  distinct = (tt, tt);
}

close_socket-drops_example :
    (h : OverlapWorld) × (wsp_close_socket demo_system busy_world 60 ≡ (true, h))
    × (h.contexts.freed ≡ 1 ∷ [])
    × (h.contexts.trace ≡ LspCall.close_layered 60 ∷ LspCall.close_below 50 ∷ [])
    × IsLinked h.contexts 0 []
    × ((h.log ≡ []) × (h.overlappeds ≡ busy_world.overlappeds))
    × ((ol : ℕ) (r : OverlappedResult)
        → ol ≢ null
        → (h.structures ol).caller_socket ≡ 60
        → intermediate_completion_routine demo_system h ol r
          ≡ some (putback_overlapped_structure h ol))
close_socket-drops_example =
    close_socket-drops demo_system busy_world 60 1 [] [] refl refl busy_contexts-IsLinked refl
      (λ e. omega (arith, e)) refl (λ t. refl)
