-- ===== src/Iocp/Listener/Stale.antt =====
-- The scan of the listening thread of chapter06/iocpserver.cpp for accepts whose client has sent
-- nothing for five minutes.
use network_programming_for.Base.{
  ℕ, zero, suc, ◌+◌, ◌<◌, ◌≡◌, ◌≢◌, refl, sym, ap, ◌∙◌, if◌then◌else◌, Bool, false, List, [], ◌∷◌,
  arith, length, null, NotIn, Chain, IsDistinct, Chain-agree, eq→==, ne→==,
}
use network_programming_for.Iocp.State.{Server, Answer, success, failure, invalid_socket}
use network_programming_for.Iocp.Listener.{is_stale, close_if_stale, close_stale}

module _ (api : ℕ → Answer) where
  -- The scan of one accept changes no link, and no other buffer.
  close_if_stale-next :
      (g : Server) (obj q : ℕ) → ((close_if_stale api g obj).buffers q).next ≡ (g.buffers q).next
  unfolding close_if_stale
  close_if_stale-next g obj q = ground arith

  close_if_stale-other :
      (g : Server) (obj q : ℕ) → obj ≢ q → (close_if_stale api g obj).buffers q ≡ g.buffers q
  unfolding close_if_stale
  close_if_stale-other g obj q ne = ground arith

  close_if_stale-calls : (g : Server) (obj : ℕ) → (close_if_stale api g obj).calls ≡ g.calls + 1
  unfolding close_if_stale
  close_if_stale-calls g obj = ground arith

  -- Whether the accept is closed that is asked for as call number `n`.
  abbrev pub is_closed : ℕ → Bool
  is_closed n = elim (api n) [ success optval ↦ is_stale optval | failure _ ↦ false ]

  close_if_stale-sclient :
      (g : Server) (obj : ℕ)
      → ((close_if_stale api g obj).buffers obj).sclient
        ≡ (if is_closed g.calls then invalid_socket else (g.buffers obj).sclient)
  unfolding close_if_stale
  close_if_stale-sclient g obj = ground arith

  -- Each accept of the list in turn, from call number `n` on: its socket is closed or as before.
  abbrev pub Scanned : ℕ → Server → Server → List ℕ → Type 0
  Scanned n g h [] = h.calls ≡ n
  Scanned n g h (x ∷ xs) =
      ((h.buffers x).sclient ≡ (if is_closed n then invalid_socket else (g.buffers x).sclient))
      × Scanned (n + 1) g h xs

  step-Chain :
      (g : Server) (x p : ℕ) (xs : List ℕ)
      → NotIn x xs
      → Chain (λ q. (g.buffers q).next) p xs
      → Chain (λ q. ((close_if_stale api g x).buffers q).next) p xs
  step-Chain g x p xs out c =
      Chain-agree (λ q. (g.buffers q).next) _ x p xs out (λ q n. close_if_stale-next g x q) c

  close_stale-other :
      (fuel : ℕ) (g : Server) (p y : ℕ) (xs : List ℕ)
      → Chain (λ q. (g.buffers q).next) p xs
      → IsDistinct xs
      → NotIn y xs
      → (close_stale api fuel g p).buffers y ≡ g.buffers y
  unfolding close_stale
  close_stale-other zero g p y xs c d out = refl
  close_stale-other (suc fuel) g p y [] c d out = rw (eq→== p null c, close_stale)
  close_stale-other (suc fuel) g p y (x ∷ xs) c d out =
      rw (ne→== p null (rw c.0 c.1), close_stale, c.0, close_if_stale-next)
        (close_stale-other fuel (close_if_stale api g x) (g.buffers x).next y xs
            (step-Chain g x _ xs d.0 c.2) d.1 out.1
          ∙ close_if_stale-other g x y (λ e. out.0 (sym e)))

  Scanned-agree :
      (n : ℕ) (x : ℕ) (g g₁ h : Server) (xs : List ℕ)
      → NotIn x xs
      → ((q : ℕ) → x ≢ q → g₁.buffers q ≡ g.buffers q)
      → Scanned n g₁ h xs
      → Scanned n g h xs
  Scanned-agree n x g g₁ h [] out same s = s
  Scanned-agree n x g g₁ h (y ∷ ys) out same s =
      (rw (← same y out.0) s.0, Scanned-agree (n + 1) x g g₁ h ys out.1 same s.1)

  -- If the pending accepts from a pointer on are a list of distinct buffers shorter than the fuel,
  -- the scan for stale connections asks for the connect time of each exactly once, in order; it
  -- invalidates the socket of those that have been connected for more than 300 seconds and leaves
  -- the sockets of the others.
  pub close_stale-Scanned :
      (fuel : ℕ) (g : Server) (p : ℕ) (xs : List ℕ)
      → Chain (λ q. (g.buffers q).next) p xs
      → IsDistinct xs
      → length xs < fuel
      → Scanned g.calls g (close_stale api fuel g p) xs
  unfolding close_stale
  close_stale-Scanned zero g p xs c d lt = absurd (omega arith)
  close_stale-Scanned (suc fuel) g p [] c d lt = rw (eq→== p null c, close_stale)
  close_stale-Scanned (suc fuel) g p (x ∷ xs) c d lt =
      let g₁ = close_if_stale api g x in
      let c₁ = step-Chain g x (g.buffers x).next xs d.0 c.2 in
      let h = close_stale api fuel g₁ (g.buffers x).next in
      rw (ne→== p null (rw c.0 c.1), close_stale, c.0, close_if_stale-next)
        (
          ap (λ b. b.sclient) (close_stale-other fuel g₁ (g.buffers x).next x xs c₁ d.1 d.0)
              ∙ close_if_stale-sclient g x,
          Scanned-agree (g.calls + 1) x g g₁ h xs d.0 (λ q ne. close_if_stale-other g x q ne)
              (rw (← close_if_stale-calls g x)
                (close_stale-Scanned fuel g₁ (g.buffers x).next xs c₁ d.1 (omega arith))),
        )
