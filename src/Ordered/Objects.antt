-- ===== src/Ordered/Objects.antt =====
-- `GetBufferObj`, `FreeBufferObj`, `GetSocketObj` and `FreeSocketObj` of
-- chapter05/iocp/server/iocpserver.cpp. Where memory runs out the process ends: none.
use network_programming_for.Base.{
  ℕ, ◌+◌, true, false, [], ◌∷◌, ◌==◌, if◌then◌else◌, Option, none, some, replicate,
}
use network_programming_for.Ordered.State.{
  accept, Answer, success, failure, invalid_socket, Request, World, set_buffer, set_socket,
  record_request, count_request,
}

infixl 5 ◌>>=◌
abbrev pub ◌>>=◌ : {A B : Type 0} → Option A → (A → Option B) → Option B
none >>= f = none
some a >>= f = f a

module _ (api : ℕ → Answer) where
  -- `HeapAlloc`: an address that was never used.
  unfoldable pub allocate : World → Option (ℕ × World)
  allocate g =
      let after = count_request g Request.heap_alloc in
      elim (api g.calls) [
        | success _ ↦ some (g.heap_next, record after { heap_next = g.heap_next + 1 })
        | failure _ ↦ none
      ]

  -- The object, and then the memory behind `buf`, which the model keeps in the object.
  unfoldable pub get_buffer_obj : World → (buflen : ℕ) → Option (ℕ × World)
  get_buffer_obj g buflen = do
    (p, g₁) ← allocate g
    (_, g₂) ← allocate g₁
    some (
      p,
      set_buffer g₂ p (record {
        sclient = 0;
        memory = replicate buflen 0;
        buflen = buflen;
        operation = accept;
        addr = 0;
        io_order = 0;
      }),
    )

  -- The numbering of a TCP connection starts at 1, since the accept receives the first data.
  unfoldable pub get_socket_obj : World → (s af : ℕ) → Option (ℕ × World)
  get_socket_obj g s af = do
    (k, g₁) ← allocate g
    some (
      k,
      set_socket g₁ k (record {
        s = s;
        af = af;
        b_closing = false;
        outstanding_ops = 0;
        last_send_issued = 0;
        io_count_issued = if g.is_tcp then 1 else 0;
        out_of_order_sends = [];
        freed = false;
      }),
    )

unfoldable pub free_buffer_obj : World → ℕ → World
free_buffer_obj g p = record g { freed = p ∷ g.freed }

-- An object with outstanding operations stays; a socket that is still open is closed.
unfoldable pub free_socket_obj : World → ℕ → World
free_socket_obj g k =
    let o = g.sockets k in
    if o.outstanding_ops == 0
    then (if o.s == invalid_socket
        then set_socket g k (record o { freed = true })
        else set_socket (record_request g (Request.close_socket o.s)) k
            (record o { s = invalid_socket; freed = true }))
    else g
