-- ===== src/Lsp/Overlap/Closing.antt =====
-- WSPCloseSocket of chapter12/LSP/spi.cpp on a socket with outstanding operations, and what then becomes
-- of their completions in chapter12/LSP/overlap.cpp.
use network_programming_for.Base.{
  ℕ, ◌+◌, ◌≡◌, ◌≢◌, ◌∙◌, sym, ap, subst, refl, true, false, ◌&&◌, List, [], ◌∷◌, ◌++◌, ◌==◌, none,
  some, arith, null, increment, decrement,
}
use network_programming_for.Lsp.State.{SockInfo, LspWorld, LspCall, log_call, invalid_socket}
use network_programming_for.Lsp.Contexts.{find_and_lock_socket_context}
use network_programming_for.Lsp.Contexts.Links.{Runs, IsLinked}
use network_programming_for.Lsp.Contexts.Release.{IsLinked-put, unlock_socket_context-last}
use network_programming_for.Lsp.Overlap.State.{
  LspSystem, OverlappedResult, OverlapWorld, set_info, query_context,
}
use network_programming_for.Lsp.Overlap.{lock_context, unlock_context, putback_overlapped_structure}
use network_programming_for.Lsp.Overlap.Completion.{
  wsp_close_socket, intermediate_completion_routine,
}

Runs-alive :
    (f : ℕ → SockInfo) (q a : ℕ) (xs : List ℕ) (p : ℕ) (ys : List ℕ)
    → Runs f q a (xs ++ p ∷ ys)
    → p ≢ null
Runs-alive f q a [] p ys r = r.1
Runs-alive f q a (x ∷ xs) p ys r = Runs-alive f x (f x).next xs p ys r.3

-- One user more.
abbrev pub locked : OverlapWorld → (context : ℕ) → OverlapWorld
locked w p =
    let i = w.contexts.infos p in set_info w p (record i { ref_count = increment i.ref_count })

pub lock_found :
    (sys : LspSystem) (w : OverlapWorld) (s p : ℕ)
    → query_context sys w s ≡ some p
    → lock_context sys w s ≡ (p, locked w p)
unfolding lock_context find_and_lock_socket_context
lock_found sys w s p e =
    ap
      (λ c. let r = find_and_lock_socket_context w.contexts c in (r.0, record w { contexts = r.1 }))
      e

lock_missing :
    (sys : LspSystem) (w : OverlapWorld) (s : ℕ)
    → query_context sys w s ≡ none
    → lock_context sys w s ≡ (null, w)
unfolding lock_context find_and_lock_socket_context
lock_missing sys w s e =
    ap
      (λ c. let r = find_and_lock_socket_context w.contexts c in (r.0, record w { contexts = r.1 }))
      e

-- No context is found for the handle of the operation: nobody is told.
unnoticed :
    (sys : LspSystem) (h : OverlapWorld) (ol s : ℕ) (r : OverlappedResult)
    → query_context sys h s ≡ none
    → ol ≢ null
    → (h.structures ol).caller_socket ≡ s
    → intermediate_completion_routine sys h ol r ≡ some (putback_overlapped_structure h ol)
unfolding intermediate_completion_routine
unnoticed sys h ol s r closed alive e =
    let some_structure : (ol == null) ≡ false = ground (arith, alive) in
    let gone : query_context sys h (h.structures ol).caller_socket ≡ none =
      ap (query_context sys h) e ∙ closed in
    rw (some_structure, lock_missing sys h (h.structures ol).caller_socket gone) refl

module _ (w : OverlapWorld) (p : ℕ) where
  abbrev locked_info : SockInfo
  locked_info = (locked w p).contexts.infos p

  -- The context of a socket that is closing, with its user.
  abbrev closing_info : SockInfo
  closing_info = record locked_info { provider_socket = invalid_socket; b_closing = true }

  abbrev closed_below : LspWorld
  closed_below = log_call (locked w p).contexts (LspCall.close_below locked_info.provider_socket)

  abbrev closing_world : OverlapWorld
  closing_world =
      set_info (record (locked w p) { contexts = closed_below; calls = w.calls + 1 }) p closing_info

  closed_busy :
      (sys : LspSystem) (s : ℕ)
      → p ≢ null
      → query_context sys w s ≡ some p
      → (w.contexts.infos p).outstanding_async ≢ 0
      → sys.closes_below w.calls ≡ true
      → wsp_close_socket sys w s ≡ (true, unlock_context closing_world p)
  unfolding wsp_close_socket
  closed_busy sys s alive found busy below =
      let some_context : (p == null) ≡ false = ground (arith, alive) in
      let waits : (locked_info.outstanding_async == 0) ≡ false = ground (arith, busy) in
      rw (lock_found sys w s p found, some_context, below, waits) refl

  closing_IsLinked :
      (v : ℕ) (zs : List ℕ) → IsLinked w.contexts v zs → IsLinked closing_world.contexts v zs
  closing_IsLinked v zs l =
      let i = w.contexts.infos p in
      let one =
        IsLinked-put w.contexts v p (record i { ref_count = increment i.ref_count }) zs refl refl
          l in
      let two : IsLinked closed_below v zs = record { runs = one.runs; distinct = one.distinct } in
      IsLinked-put closed_below v p closing_info zs refl refl two

-- If a socket with outstanding operations, whose context stands in the list of its provider and
-- has no user, is closed, the provider below closes its handle, and a handle of the application
-- that was closed has no context, then WSPCloseSocket succeeds, gives the context back at once and
-- closes the handle of the application, although the operations are outstanding; when one of them
-- completes, nobody is told: its structure goes back to the pool and nothing else happens.
pub close_socket-drops :
    (sys : LspSystem) (w : OverlapWorld) (s p : ℕ) (xs ys : List ℕ)
    → query_context sys w s ≡ some p
    → (w.contexts.infos p).layered_socket ≡ s
    → IsLinked w.contexts (w.contexts.infos p).provider (xs ++ p ∷ ys)
    → (w.contexts.infos p).ref_count ≡ 0
    → (w.contexts.infos p).outstanding_async ≢ 0
    → sys.closes_below w.calls ≡ true
    → ((t : List LspCall) → sys.context_of (LspCall.close_layered s ∷ t) s ≡ none)
    → (h : OverlapWorld) × (wsp_close_socket sys w s ≡ (true, h))
      × (h.contexts.freed ≡ p ∷ w.contexts.freed)
      × (h.contexts.trace
          ≡ LspCall.close_layered s
            ∷ LspCall.close_below (w.contexts.infos p).provider_socket
            ∷ w.contexts.trace)
      × IsLinked h.contexts (w.contexts.infos p).provider (xs ++ ys)
      × ((h.log ≡ w.log) × (h.overlappeds ≡ w.overlappeds))
      × ((ol : ℕ) (r : OverlappedResult)
          → ol ≢ null
          → (h.structures ol).caller_socket ≡ s
          → intermediate_completion_routine sys h ol r ≡ some (putback_overlapped_structure h ol))
close_socket-drops sys w s p xs ys found layered l unused busy below forgets =
    let v = (w.contexts.infos p).provider in
    let alive = Runs-alive w.contexts.infos null (w.contexts.socket_list v) xs p ys l.runs in
    let c = closing_world w p in
    let g = c.contexts in
    let last : (decrement (g.infos p).ref_count == 0 && (g.infos p).b_closing) ≡ true =
      ground (arith, unused) in
    let same : (g.infos p).provider ≡ v = ground arith in
    let handle : (g.infos p).layered_socket ≡ s = ground (arith, layered) in
    let below_handle : (locked_info w p).provider_socket ≡ (w.contexts.infos p).provider_socket =
      ground arith in
    let linked : IsLinked g (g.infos p).provider (xs ++ p ∷ ys) =
      subst (λ u. IsLinked g u (xs ++ p ∷ ys)) (sym same)
        (closing_IsLinked w p v (xs ++ p ∷ ys) l) in
    let (freed, trace, rest) = unlock_socket_context-last g p xs ys linked last in
    let h = unlock_context c p in
    let calls : h.contexts.trace
        ≡ LspCall.close_layered s
          ∷ LspCall.close_below (w.contexts.infos p).provider_socket
          ∷ w.contexts.trace =
      trace
      ∙ ap (λ t. LspCall.close_layered t ∷ g.trace) handle
      ∙ ap (λ t. LspCall.close_layered s ∷ LspCall.close_below t ∷ w.contexts.trace) below_handle in
    let closed : query_context sys h s ≡ none =
      ap (λ t. sys.context_of t s) calls
      ∙ forgets (LspCall.close_below (w.contexts.infos p).provider_socket ∷ w.contexts.trace) in
    (
      h,
      closed_busy w p sys s alive found busy below,
      freed,
      calls,
      subst (λ u. IsLinked h.contexts u (xs ++ ys)) same rest,
      (refl, refl),
      λ ol r n e. unnoticed sys h ol s r closed n e,
    )
