-- ===== src/Ordered/Sends/Echo.antt =====
-- What `InsertPendingSend` and `DoSends` of chapter05/iocp/server/iocpserver.cpp hand to the system
-- when every send is posted.
use mathlib.Core.List.{Perm}
use network_programming_for.Base.{
  ℕ, zero, suc, ◌+◌, ◌<◌, ◌^◌, ◌≡◌, refl, subst, sym, ap, ap₂, ◌∙◌, fun_ext, true, List, [], ◌∷◌,
  ◌++◌, map, arith, length, ◌==◌, Bool-cases, inl, inr, length-append,
}
use network_programming_for.Ordered.State.{Answer, is_posted, World}
use network_programming_for.Ordered.Post.{post_send}
use network_programming_for.Ordered.Sends.{
  io_order_of, pending, set_pending, insert_by, insert_pending_send, send_in_order, do_sends,
}
use network_programming_for.Ordered.Sends.Reorder.{count_from, run_of, run_of-append}
use network_programming_for.Ordered.Sends.Issued.{
  request_of, sends_of, last_of, Issued, Issued-none, Issued-trans, post_send-posted,
  post_send-Issued,
}
use network_programming_for.Ordered.Sends.Arrivals.{arrivals, arrivals-in_order}

-- Receives of TCP complete: each object is inserted, and what is due is sent.
abbrev pub receive_all : (ℕ → Answer) → World → (sock : ℕ) → List ℕ → World
receive_all api g k [] = g
receive_all api g k (p ∷ ps) = receive_all api (do_sends api (insert_pending_send g k p) k).0 k ps

module _ (api : ℕ → Answer) (posted : (n : ℕ) → is_posted (api n) ≡ true) where
  send_in_order-now :
      (g : World) (k x : ℕ) (xs : List ℕ)
      → (io_order_of g x == last_of g k) ≡ true
      → send_in_order api g k (x ∷ xs)
        ≡ send_in_order api (set_pending (post_send api g k x).0 k xs) k xs
  unfolding send_in_order
  send_in_order-now g k x xs now = rw (now, send_in_order, post_send-posted api posted g k x) refl

  -- The `while` hands over the run of next numbers.
  send_in_order-Issued :
      (g : World) (k : ℕ) (xs : List ℕ)
      → pending g k ≡ xs
      → last_of g k + length xs < 2 ^ 32
      → ((send_in_order api g k xs).1 ≡ true)
        × Issued k g
            (send_in_order api g k xs).0
            (run_of (io_order_of g) (last_of g k) xs).0
            (run_of (io_order_of g) (last_of g k) xs).1
  unfolding send_in_order
  send_in_order-Issued g k [] e h = (refl, Issued-none k g [] e)
  send_in_order-Issued g k (x ∷ xs) e h = elim (Bool-cases (io_order_of g x == last_of g k)) [
    | inr later ↦ rw (later, send_in_order) (refl, Issued-none k g (x ∷ xs) e)
    | inl now ↦
        let g₁ = set_pending (post_send api g k x).0 k xs in
        let one = post_send-Issued api posted g k x xs (omega arith) in
        let more = send_in_order-Issued g₁ k xs one.left (omega (arith, one.last)) in
        let next : last_of g₁ k ≡ suc (last_of g k) = omega (arith, one.last) in
        let h = (send_in_order api g₁ k xs).0 in
        rw (send_in_order-now g k x xs now, now)
          (
            more.0,
            subst (λ r. Issued k g h (x ∷ r.0) r.1) (ap₂ (λ o m. run_of o m xs) one.orders next)
                (Issued-trans k g g₁ h (x ∷ []) _ _ xs one more.1),
          )
  ]

  insert-Issued :
      (g : World) (k p : ℕ)
      → Issued k g (insert_pending_send g k p) [] (insert_by (io_order_of g) p (pending g k))
  unfolding insert_pending_send
  insert-Issued g k p = record {
    last = ground arith;
    left = ground arith;
    trace = refl;
    orders = refl;
    requests = fun_ext (λ q. ground arith);
  }

  length-insert_by :
      (order : ℕ → ℕ) (p : ℕ) (xs : List ℕ) → length (insert_by order p xs) ≡ suc (length xs)
  unfolding insert_by
  length-insert_by order p [] = refl
  length-insert_by order p (x ∷ xs) = ground (arith, length-insert_by order p xs)

  receive-Issued :
      (g : World) (k p : ℕ) (xs : List ℕ)
      → pending g k ≡ xs
      → last_of g k + suc (length xs) < 2 ^ 32
      → let r = run_of (io_order_of g) (last_of g k) (insert_by (io_order_of g) p xs) in
        ((do_sends api (insert_pending_send g k p) k).1 ≡ true)
        × Issued k g (do_sends api (insert_pending_send g k p) k).0 r.0 r.1
  unfolding do_sends
  receive-Issued g k p xs e h =
      let g₁ = insert_pending_send g k p in
      let ins = insert-Issued g k p in
      let order = io_order_of g in
      let inserted : pending g₁ k ≡ insert_by order p xs = ins.left ∙ ap (insert_by order p) e in
      let same : last_of g₁ k ≡ last_of g k = omega (arith, ins.last) in
      let bound : last_of g₁ k + length (pending g₁ k) < 2 ^ 32 =
        omega (arith, same, ap length inserted, length-insert_by order p xs) in
      let send = send_in_order-Issued g₁ k (pending g₁ k) refl bound in
      let runs : run_of (io_order_of g₁) (last_of g₁ k) (pending g₁ k)
          ≡ run_of order (last_of g k) (insert_by order p xs) =
        ap₂ (λ o m. run_of o m (pending g₁ k)) ins.orders same
        ∙ ap (run_of order (last_of g k)) inserted in
      (
        send.0,
        subst (λ r. Issued k g (do_sends api g₁ k).0 r.0 r.1) runs
            (Issued-trans k g g₁ _ [] _ _ _ ins send.1),
      )

  run_length :
      (order : ℕ → ℕ) (m p : ℕ) (xs : List ℕ)
      → let r = run_of order m (insert_by order p xs) in length r.0 + length r.1 ≡ suc (length xs)
  run_length order m p xs =
      let r = run_of order m (insert_by order p xs) in
      sym (length-append r.0 r.1)
      ∙ ap length (run_of-append order m (insert_by order p xs))
      ∙ length-insert_by order p xs

  receive_all-Issued :
      (g : World) (k : ℕ) (xs ps : List ℕ)
      → pending g k ≡ xs
      → last_of g k + length xs + length ps < 2 ^ 32
      → let a = arrivals (io_order_of g) (last_of g k) xs ps in
        Issued k g (receive_all api g k ps) a.0 a.1
  receive_all-Issued g k xs [] e h = Issued-none k g xs e
  receive_all-Issued g k xs (p ∷ ps) e h =
      let order = io_order_of g in
      let r = run_of order (last_of g k) (insert_by order p xs) in
      let g₁ = (do_sends api (insert_pending_send g k p) k).0 in
      let one = (receive-Issued g k p xs e (omega arith)).1 in
      let bound : last_of g₁ k + length r.1 + length ps < 2 ^ 32 =
        omega (arith, one.last, run_length order (last_of g k) p xs) in
      let more = receive_all-Issued g₁ k r.1 ps one.left bound in
      subst (λ a. Issued k g (receive_all api g₁ k ps) (r.0 ++ a.0) a.1)
        (ap₂ (λ o m. arrivals o m r.1 ps) one.orders one.last)
        (Issued-trans k g g₁ _ r.0 _ _ r.1 one more)

  length-count_from : (m n : ℕ) → length (count_from m n) ≡ n
  length-count_from m zero = refl
  length-count_from m (suc n) = ap suc (length-count_from (suc m) n)

  length-numbers : (f : ℕ → ℕ) (xs : List ℕ) → length (map f xs) ≡ length xs
  length-numbers f [] = refl
  length-numbers f (x ∷ xs) = ap suc (length-numbers f xs)

  -- If every send is posted, the list of a socket is empty, and objects carry, in any order, the
  -- consecutive numbers from LastSendIssued on, without a wrap of the 32-bit counter, then
  -- InsertPendingSend followed by DoSends for each of them leaves the list empty and
  -- LastSendIssued raised by their count, and the sends handed to the system are those objects in
  -- the order of their numbers, each with its bytes.
  pub echo_in_order :
      (g : World) (k : ℕ) (ps : List ℕ)
      → pending g k ≡ []
      → last_of g k + length ps < 2 ^ 32
      → Perm (map (io_order_of g) ps) (count_from (last_of g k) (length ps))
      → (pending (receive_all api g k ps) k ≡ [])
        × (last_of (receive_all api g k ps) k ≡ last_of g k + length ps)
        × (qs : List ℕ) × Perm qs ps
        × (map (io_order_of g) qs ≡ count_from (last_of g k) (length ps))
        × ((receive_all api g k ps).trace ≡ sends_of (request_of g k) qs g.trace)
  echo_in_order g k ps e h p =
      let order = io_order_of g in
      let (empty, numbers, same) = arrivals-in_order order (last_of g k) (length ps) ps p in
      let qs = (arrivals order (last_of g k) [] ps).0 in
      let all = receive_all-Issued g k [] ps e (omega (arith, h)) in
      let full : length qs ≡ length ps =
        sym (length-numbers order qs)
        ∙ ap length numbers
        ∙ length-count_from (last_of g k) (length ps) in
      (all.left ∙ empty, all.last ∙ ap (◌+◌ (last_of g k)) full, qs, same, numbers, all.trace)
