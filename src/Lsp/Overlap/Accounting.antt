-- ===== src/Lsp/Overlap/Accounting.antt =====
-- What the steps of the completion of an operation in chapter12/LSP/overlap.cpp leave of a context that is
-- not closing.
use network_programming_for.Base.{
  ℕ, ◌<◌, ◌^◌, ◌≡◌, ◌≢◌, ◌∙◌, sym, ap, subst, refl, Bool, true, false, ◌&&◌, List, ◌==◌,
  if◌then◌else◌, some, arith, null, increment, decrement,
}
use network_programming_for.Lsp.State.{SockInfo}
use network_programming_for.Lsp.Contexts.{unlock_socket_context}
use network_programming_for.Lsp.Overlap.State.{
  LspSystem, OverlapCall, OverlapWorld, set_info, query_context,
}
use network_programming_for.Lsp.Overlap.{unlock_context, check_for_context_cleanup}
use network_programming_for.Lsp.Overlap.Closing.{locked, lock_found}

abbrev pub more_users : SockInfo → SockInfo
more_users i = record i { ref_count = increment i.ref_count }

abbrev pub less_users : SockInfo → SockInfo
less_users i = record i { ref_count = decrement i.ref_count }

abbrev pub less_outstanding : SockInfo → SockInfo
less_outstanding i = record i { outstanding_async = decrement i.outstanding_async }

-- Of the contexts only `p` changes, and is `i` now, and the log is `l`; the structures and what was given
-- back and closed are as they were.
pub record Keeps (p : ℕ) (i : SockInfo) (l : List OverlapCall) (w h : OverlapWorld) : Type 0 where
  pub info : h.contexts.infos p ≡ i
  pub log : h.log ≡ l
  pub trace : h.contexts.trace ≡ w.contexts.trace
  pub freed : h.contexts.freed ≡ w.contexts.freed
  pub structures : h.structures ≡ w.structures
  pub pool : h.free_pool ≡ w.free_pool
  pub port : h.has_iocp ≡ w.has_iocp

pub keeps_trans :
    (p : ℕ) (i j : SockInfo) (l m : List OverlapCall) (w g h : OverlapWorld)
    → Keeps p i l w g
    → Keeps p j m g h
    → Keeps p j m w h
keeps_trans p i j l m w g h a b = record {
  info = b.info;
  log = b.log;
  trace = b.trace ∙ a.trace;
  freed = b.freed ∙ a.freed;
  structures = b.structures ∙ a.structures;
  pool = b.pool ∙ a.pool;
  port = b.port ∙ a.port;
}

pub put_keeps :
    (f : SockInfo → SockInfo) (p : ℕ) (i : SockInfo) (l : List OverlapCall) (w g : OverlapWorld)
    → Keeps p i l w g
    → Keeps p (f i) l w (set_info g p (f (g.contexts.infos p)))
put_keeps f p i l w g k =
    let same : (p == p) ≡ true = ground arith in
    record {
      info = ap (λ b. if b then f (g.contexts.infos p) else g.contexts.infos p) same ∙ ap f k.info;
      log = k.log;
      trace = k.trace;
      freed = k.freed;
      structures = k.structures;
      pool = k.pool;
      port = k.port;
    }

and_false : (b : Bool) → (b && false) ≡ false
and_false true = refl
and_false false = refl

unlock_stays :
    (w : OverlapWorld) (p : ℕ)
    → (w.contexts.infos p).b_closing ≡ false
    → unlock_context w p ≡ set_info w p (less_users (w.contexts.infos p))
unfolding unlock_socket_context
unlock_stays w p stays =
    let i = w.contexts.infos p in
    let none : (decrement i.ref_count == 0 && i.b_closing) ≡ false =
      ap (λ b. decrement i.ref_count == 0 && b) stays ∙ and_false (decrement i.ref_count == 0) in
    rw none refl

pub unlock_keeps :
    (p : ℕ) (i : SockInfo) (l : List OverlapCall) (w g : OverlapWorld)
    → i.b_closing ≡ false
    → Keeps p i l w g
    → Keeps p (less_users i) l w (unlock_context g p)
unlock_keeps p i l w g stays k =
    subst (Keeps p (less_users i) l w)
      (sym (unlock_stays g p (ap (λ j. j.b_closing) k.info ∙ stays)))
      (put_keeps less_users p i l w g k)

uncount : (n : ℕ) → n < 2 ^ 32 → decrement (increment n) ≡ n
uncount n h = omega (arith, h)

pub users_back : (i : SockInfo) → i.ref_count < 2 ^ 32 → less_users (more_users i) ≡ i
users_back i h = ap (λ n. record i { ref_count = n }) (uncount i.ref_count h)

-- A world as it is.
kept : (p : ℕ) (w : OverlapWorld) → Keeps p (w.contexts.infos p) w.log w w
kept p w = record {
  info = refl;
  log = refl;
  trace = refl;
  freed = refl;
  structures = refl;
  pool = refl;
  port = refl;
}

pub locked_keeps :
    (w : OverlapWorld) (p : ℕ) → Keeps p (more_users (w.contexts.infos p)) w.log w (locked w p)
locked_keeps w p = put_keeps more_users p (w.contexts.infos p) w.log w w (kept p w)

module _ (sys : LspSystem) (w : OverlapWorld) (ol p : ℕ) where
  cleanup_equation :
      p ≢ null
      → query_context sys w (w.structures ol).caller_socket ≡ some p
      → (w.structures ol).sock_info ≡ p
      → ((locked w p).contexts.infos p).b_closing ≡ false
      → check_for_context_cleanup sys w ol
        ≡ unlock_context
            (set_info (locked w p) p (less_outstanding ((locked w p).contexts.infos p)))
            p
  unfolding check_for_context_cleanup
  cleanup_equation alive found own stays =
      let some_context : (p == null) ≡ false = ground (arith, alive) in
      rw (lock_found sys w (w.structures ol).caller_socket p found, own, some_context, stays) refl

  pub cleanup_keeps :
      (i : SockInfo) (l : List OverlapCall)
      → p ≢ null
      → query_context sys w (w.structures ol).caller_socket ≡ some p
      → (w.structures ol).sock_info ≡ p
      → i.b_closing ≡ false
      → i.ref_count < 2 ^ 32
      → w.contexts.infos p ≡ i
      → w.log ≡ l
      → Keeps p (less_outstanding i) l w (check_for_context_cleanup sys w ol)
  cleanup_keeps i l alive found own stays bound here log =
      let k : Keeps p i l w w = record {
        info = here;
        log = log;
        trace = refl;
        freed = refl;
        structures = refl;
        pool = refl;
        port = refl;
      } in
      let one = put_keeps more_users p i l w w k in
      let two = put_keeps less_outstanding p (more_users i) l w (locked w p) one in
      let three =
        unlock_keeps p (less_outstanding (more_users i)) l w
          (set_info (locked w p) p (less_outstanding ((locked w p).contexts.infos p))) stays two in
      subst (λ j. Keeps p j l w (check_for_context_cleanup sys w ol))
        (users_back (less_outstanding i) bound)
        (subst (Keeps p (less_users (less_outstanding (more_users i))) l w)
          (sym (cleanup_equation alive found own (ap (λ j. j.b_closing) one.info ∙ stays))) three)
