-- ===== src/EventSelect/Threads/Matching.antt =====
-- The array of events of chapter05/WSAEventSelect/server/eventserver.cpp stands in the order of the
-- list of sockets.
use network_programming_for.Base.{
  ℕ, zero, suc, ◌+◌, ◌-◌, ◌≤◌, ◌<◌, ◌≡◌, ◌∙◌, sym, ap, refl, false, List, [], ◌∷◌, ◌++◌, ◌==◌, ltb,
  some, inl, inr, length, arith, Bool-cases, update, NotIn, length-append,
}
use network_programming_for.EventSelect.State.{EventWorld}
use network_programming_for.EventSelect.Threads.{
  EventThread, insert_socket_obj, write_handles, renumber_thread_array, unlink_socket,
  remove_socket_obj, find_socket_obj,
}

module _ (event_of : ℕ → ℕ) where
  abbrev pub IsShown : (ℕ → ℕ) → ℕ → List ℕ → Type 0
  IsShown f i [] = Unit {0}
  IsShown f i (p ∷ ps) = (f i ≡ event_of p) × IsShown f (suc i) ps

  -- The count and the array fit the list.
  pub record Matches (t : EventThread) : Type 0 where
    pub counted : t.socket_count ≡ length t.socket_list
    pub bounded : t.socket_count ≤ 63
    pub shown : IsShown t.handles 1 t.socket_list

  -- A write elsewhere.
  IsShown-update :
      (f : ℕ → ℕ) (i j v : ℕ) (ps : List ℕ)
      → i + length ps ≤ j
      → IsShown f i ps
      → IsShown (update f j v) i ps
  IsShown-update f i j v [] h s = tt
  IsShown-update f i j v (p ∷ ps) h s =
      (ground (arith, h, s.0), IsShown-update f (suc i) j v ps (omega (arith, h)) s.1)

  IsShown-append :
      (f : ℕ → ℕ) (i : ℕ) (ps : List ℕ) (p : ℕ)
      → IsShown f i ps
      → f (i + length ps) ≡ event_of p
      → IsShown f i (ps ++ p ∷ [])
  IsShown-append f i [] p s e = (ap f (omega arith) ∙ e, tt)
  IsShown-append f i (q ∷ ps) p s e =
      (s.0, IsShown-append f (suc i) ps p s.1 (ap f (omega arith) ∙ e))

  -- The entries in front of the loop keep their values.
  write_handles-below :
      (f : ℕ → ℕ) (i j : ℕ) (ps : List ℕ) → j < i → write_handles event_of f i ps j ≡ f j
  unfolding write_handles
  write_handles-below f i j [] h = refl
  write_handles-below f i j (p ∷ ps) h =
      write_handles-below (update f i (event_of p)) (suc i) j ps (omega arith) ∙ ground (arith, h)

  pub write_handles-IsShown :
      (f : ℕ → ℕ) (i : ℕ) (ps : List ℕ) → IsShown (write_handles event_of f i ps) i ps
  unfolding write_handles
  write_handles-IsShown f i [] = tt
  write_handles-IsShown f i (p ∷ ps) = (
    write_handles-below (update f i (event_of p)) (suc i) i ps (omega arith) ∙ ground arith,
    write_handles-IsShown (update f i (event_of p)) (suc i) ps,
  )

  -- If the event array of a thread fits its list of at most 63 sockets, it does so after
  -- InsertSocketObj, whose result says whether there were fewer than 63 before: no handle is
  -- written behind the 64 entries of the array.
  pub insert_socket_obj-Matches :
      (t : EventThread) (sock : ℕ)
      → Matches t
      → Matches (insert_socket_obj event_of t sock).0
        × ((insert_socket_obj event_of t sock).1 ≡ ltb (length t.socket_list) 63)
  unfolding insert_socket_obj
  insert_socket_obj-Matches t sock m = elim (Bool-cases (ltb t.socket_count 63)) [
    | inl room ↦ rw room (
      record {
        counted = omega (arith, m.counted, length-append t.socket_list (sock ∷ []));
        bounded = ground (arith, room);
        shown =
            IsShown-append _ 1 t.socket_list sock
              (IsShown-update t.handles 1 (t.socket_count + 1) (event_of sock) t.socket_list
                (omega (arith, m.counted)) m.shown)
              (let c = m.counted in ground (arith, c));
      },
      sym room ∙ ap (λ n. ltb n 63) m.counted,
    )
    | inr full ↦ rw full (m, sym full ∙ ap (λ n. ltb n 63) m.counted)
  ]

  unlink_socket-append :
      (xs : List ℕ) (p : ℕ) (ys : List ℕ) → NotIn p xs → unlink_socket (xs ++ p ∷ ys) p ≡ xs ++ ys
  unfolding unlink_socket
  unlink_socket-append [] p ys out = ground arith
  unlink_socket-append (x ∷ xs) p ys out =
      let other : (x == p) ≡ false = ground (arith, out.0) in
      rw other (ap (◌∷◌ x) (unlink_socket-append xs p ys out.1))

  -- If the event array of a thread fits its list of at most 63 sockets, with one handle for each
  -- in its order and the right count, then after RemoveSocketObj of a socket of the list and
  -- RenumberThreadArray it fits again, and the list is the old one without that socket.
  pub remove_socket_obj-Matches :
      (g : EventWorld) (t : EventThread) (xs ys : List ℕ) (sock : ℕ)
      → Matches t
      → t.socket_list ≡ xs ++ sock ∷ ys
      → NotIn sock xs
      → let t' = renumber_thread_array event_of (remove_socket_obj g t sock).1 in
        Matches t' × (t'.socket_list ≡ xs ++ ys)
  unfolding renumber_thread_array remove_socket_obj
  remove_socket_obj-Matches g t xs ys sock m e out =
      let unlinked : unlink_socket t.socket_list sock ≡ xs ++ ys =
        ap (λ l. unlink_socket l sock) e ∙ unlink_socket-append xs sock ys out in
      let before : length t.socket_list ≡ suc (length (xs ++ ys)) =
        omega (arith, ap length e, length-append xs (sock ∷ ys), length-append xs ys) in
      (
        record {
          counted =
              let b = m.bounded in
              let c = m.counted in ground (arith, b, c, before, ap length unlinked);
          bounded = let b = m.bounded in let c = m.counted in ground (arith, b, c, before);
          shown = write_handles-IsShown t.handles 1 (unlink_socket t.socket_list sock);
        },
        unlinked,
      )

  find-IsShown :
      (f : ℕ → ℕ) (i j : ℕ) (ps : List ℕ)
      → IsShown f i ps
      → j < length ps
      → (p : ℕ) × (find_socket_obj ps j ≡ some p) × (event_of p ≡ f (i + j))
  unfolding find_socket_obj
  find-IsShown f i j [] s h = absurd (omega arith)
  find-IsShown f i zero (p ∷ ps) s h = (p, refl, sym s.0 ∙ ap f (omega arith))
  find-IsShown f i (suc j) (p ∷ ps) s h =
      let (q, found, same) = find-IsShown f (suc i) j ps s.1 (omega arith) in
      (q, found, same ∙ ap f (omega arith))

  -- If the event array of a thread fits its list of sockets and an entry from 1 up to their count
  -- is signaled, FindSocketObj at that index less 1 runs off no list and gives a socket whose
  -- event is the one that was signaled.
  pub find_socket_obj-signaled :
      (t : EventThread) (index : ℕ)
      → Matches t
      → 0 < index
      → index ≤ t.socket_count
      → (p : ℕ) × (find_socket_obj t.socket_list (index - 1) ≡ some p)
        × (event_of p ≡ t.handles index)
  find_socket_obj-signaled t index m some_index bound =
      let (p, found, same) =
        find-IsShown t.handles 1 (index - 1) t.socket_list m.shown (omega (arith, m.counted)) in
      (p, found, same ∙ ap t.handles (omega arith))
