-- ===== src/Lsp/Tests.antt =====
-- Contexts of chapter12/LSP/sockinfo.cpp, with the theorems at a concrete list.
use network_programming_for.Base.{
  ℕ, ◌+◌, ◌≡◌, refl, true, [], ◌∷◌, ◌==◌, if◌then◌else◌, arith, some, ◌⊎◌,
}
use network_programming_for.Lsp.State.{SockInfo, LspWorld, LspCall}
use network_programming_for.Lsp.Contexts.{unlock_socket_context, search_list}
use network_programming_for.Lsp.Contexts.Links.{IsLinked}
use network_programming_for.Lsp.Contexts.Release.{unlock_socket_context-releases, search_list-first}

abbrev info_of : (next prev : ℕ) → ℕ → SockInfo
info_of next prev s = record {
  provider_socket = s;
  layered_socket = 60;
  outstanding_async = 0;
  ref_count = 1;
  bytes_sent = 0;
  bytes_recv = 0;
  b_closing = true;
  provider = 0;
  h_wnd = 0;
  u_msg = 0;
  next = next;
  prev = prev;
}

-- The contexts 1 and 2, with the sockets 50 and 51.
abbrev demo_infos : ℕ → SockInfo
demo_infos p = if p == 1 then info_of 2 0 50 else if p == 2 then info_of 0 1 51 else info_of 0 0 52

abbrev demo_world : LspWorld
demo_world = record {
  infos = demo_infos;
  socket_list = λ v. if v == 0 then 1 else 0;
  freed = [];
  heap_next = 10;
  trace = [];
}

demo_world-IsLinked : IsLinked demo_world 0 (1 ∷ 2 ∷ [])
demo_world-IsLinked = record {
  runs = (refl, λ e. omega (arith, e), refl, (refl, λ e. omega (arith, e), refl, refl));
  distinct = ((λ e. omega (arith, e), tt), (tt, tt));
}

unlock_socket_context-releases_example :
    let h = unlock_socket_context demo_world 1 in
    (((demo_world.infos 1).ref_count ≡ 1)
      × (true ≡ true)
      × (h.freed ≡ 1 ∷ [])
      × (h.trace ≡ LspCall.close_layered 60 ∷ [])
      × IsLinked h 0 (2 ∷ []))
    ⊎ ((h.freed ≡ [])
        × (h.trace ≡ [])
        × ((h.infos 1).ref_count + 1 ≡ (demo_world.infos 1).ref_count)
        × IsLinked h 0 (1 ∷ 2 ∷ []))
unlock_socket_context-releases_example =
    unlock_socket_context-releases demo_world 1 [] (2 ∷ []) demo_world-IsLinked (omega arith)
      (omega arith)

search_list-first_example : search_list 3 demo_world 1 51 ≡ some 2
search_list-first_example =
    search_list-first 3 demo_world 0 1 51 (1 ∷ 2 ∷ []) demo_world-IsLinked.runs (omega arith)
