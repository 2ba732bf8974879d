-- ===== src/EventSelect/Child/Passes.antt =====
-- A thread of chapter05/WSAEventSelect/server/eventserver.cpp keeps its array in order while it looks at
-- its events.
use network_programming_for.Base.{
  ℕ, zero, suc, ◌+◌, ◌-◌, ◌≤◌, ◌<◌, ◌≡◌, ◌∙◌, ap, sym, subst, IsDistinct, refl, Bool, true, false,
  List, [], ◌∷◌, ◌==◌, ltb, Option, none, some, inl, inr, Bool-cases, arith, null, length,
}
use network_programming_for.EventSelect.State.{System, EventWorld}
use network_programming_for.EventSelect.Threads.{
  EventThread, unlink_socket, renumber_thread_array, remove_socket_obj, find_socket_obj,
}
use network_programming_for.EventSelect.Threads.Matching.{
  Matches, write_handles-IsShown, find_socket_obj-signaled,
}
use network_programming_for.EventSelect.Child.{
  Served, served, stopped, ran_off, PassEnd, finished, left_thread, hangs, faults, out_of_rounds,
  after_io, serve_found, serve_socket, look_at_events,
}
use network_programming_for.EventSelect.Handler.{handle_events}
use network_programming_for.EventSelect.Sending.Handles.{handle_of}
use network_programming_for.EventSelect.Child.Handles.{
  Settles, still_open, still_open-Quiet, still_open-unlink, handle_events-Settles,
}
use network_programming_for.EventSelect.Child.Spared.{Spared, handle_events-Spared}

module _ (sys : System) (event_of : ℕ → ℕ) (wait : ℕ → Option Bool)
    (report : ℕ → Option (Option ℕ × Option ℕ × Option ℕ)) where
  renumbered :
      (t : EventThread) → Matches event_of t → Matches event_of (renumber_thread_array event_of t)
  unfolding renumber_thread_array
  renumbered t m = record {
    counted = m.counted;
    bounded = m.bounded;
    shown = write_handles-IsShown event_of t.handles 1 t.socket_list;
  }

  renumbered_list :
      (t : EventThread) → (renumber_thread_array event_of t).socket_list ≡ t.socket_list
  unfolding renumber_thread_array
  renumbered_list t = refl

  unlink_found :
      (ps : List ℕ) (j p : ℕ)
      → find_socket_obj ps j ≡ some p
      → j < length ps
      → length (unlink_socket ps p) + 1 ≡ length ps
  unfolding unlink_socket find_socket_obj
  unlink_found [] j p e h = absurd (omega arith)
  unlink_found (x ∷ ps) zero p e h =
      let same : (x == p) ≡ true = ground (arith, e) in rw same (omega arith)
  unlink_found (x ∷ ps) (suc j) p e h = elim (Bool-cases (x == p)) [
    | inl same ↦ rw same (omega arith)
    | inr other ↦ rw other (let rest = unlink_found ps j p e (omega arith) in omega (arith, rest))
  ]

  removed :
      (g : EventWorld) (t : EventThread) (j p : ℕ)
      → Matches event_of t
      → find_socket_obj t.socket_list j ≡ some p
      → j < length t.socket_list
      → Matches event_of (renumber_thread_array event_of (remove_socket_obj g t p).1)
  unfolding renumber_thread_array remove_socket_obj
  removed g t j p m e h =
      let shorter = unlink_found t.socket_list j p e h in
      record {
        counted = let c = m.counted in let b = m.bounded in ground (arith, c, b, shorter);
        bounded = let c = m.counted in let b = m.bounded in ground (arith, c, b, shorter);
        shown = write_handles-IsShown event_of t.handles 1 (unlink_socket t.socket_list p);
      }

  -- The array fits the list, and the list holds those of `ps` whose handle is open, in their order.
  abbrev pub InStep : List ℕ → EventWorld → EventThread → Type 0
  InStep ps g t = Matches event_of t × (t.socket_list ≡ still_open g ps)

  -- What holds of a thread after one socket, and at the end of the look.
  abbrev ServedWell : List ℕ → Served → Type 0
  ServedWell ps (served g t) = InStep ps g t
  ServedWell ps stopped = Unit {0}
  ServedWell ps ran_off = ⊥

  abbrev pub EndsWell : List ℕ → PassEnd → Type 0
  EndsWell ps (finished g t) = InStep ps g t
  EndsWell ps (left_thread g t) = InStep ps g t
  EndsWell ps hangs = Unit {0}
  EndsWell ps faults = ⊥
  EndsWell ps out_of_rounds = ⊥

  -- The list after one handler.
  quiet_list :
      (ps : List ℕ) (g h : EventWorld) (l : List ℕ)
      → l ≡ still_open g ps
      → ((q : ℕ) → handle_of h q ≡ handle_of g q)
      → l ≡ still_open h ps
  quiet_list ps g h l e c = e ∙ sym (still_open-Quiet g h ps c)

  settled_list :
      (ps : List ℕ) (g h : EventWorld) (t u : EventThread) (p : ℕ)
      → IsDistinct ps
      → t.socket_list ≡ still_open g ps
      → Settles t p g.sockets (some (h, u, false))
      → u.socket_list ≡ still_open h ps
  settled_list ps g h t u p d e (inl (same, c)) =
      ap (λ v. v.socket_list) same ∙ quiet_list ps g h t.socket_list e c
  settled_list ps g h t u p d e (inr (out, closed, c)) =
      out ∙ ap (λ l. unlink_socket l p) e ∙ sym (still_open-unlink p g h ps d closed c)

  after_io-well :
      (ps : List ℕ) (g₀ : EventWorld) (t : EventThread) (j p : ℕ)
      (r : Option (EventWorld × EventThread × Bool))
      → IsDistinct ps
      → InStep ps g₀ t
      → find_socket_obj t.socket_list j ≡ some p
      → j < length t.socket_list
      → Spared t p r
      → Settles t p g₀.sockets r
      → ServedWell ps (after_io sys event_of wait report r)
  after_io-well ps g₀ t j p none d m e h s c = tt
  after_io-well ps g₀ t j p (some (g, t₁, true)) d m e h s c =
      subst (InStep ps g) (sym s) (m.0, quiet_list ps g₀ g t.socket_list m.1 c.1)
  after_io-well ps g₀ t j p (some (g, t₁, false)) d m e h s c =
      let fits : Matches event_of (renumber_thread_array event_of t₁) = elim s [
        | inl same ↦
            subst (λ u. Matches event_of (renumber_thread_array event_of u)) (sym same)
              (renumbered t m.0)
        | inr gone ↦
            subst (λ u. Matches event_of (renumber_thread_array event_of u)) (sym gone)
              (removed g t j p m.0 e h)
      ] in
      (fits, renumbered_list t₁ ∙ settled_list ps g₀ g t t₁ p d m.1 c)

  serve_socket-well :
      (ps : List ℕ) (fuel : ℕ) (g : EventWorld) (t : EventThread) (i : ℕ)
      → IsDistinct ps
      → InStep ps g t
      → 0 < i
      → i ≤ t.socket_count
      → ServedWell ps (serve_socket sys event_of wait report fuel g t (i - 1))
  unfolding serve_socket
  serve_socket-well ps fuel g t i d m a b =
      let (p, found, same) = find_socket_obj-signaled event_of t i m.0 a b in
      let done =
        after_io-well ps g t (i - 1) p (handle_events sys fuel g t p (report p)) d m found
          (omega (arith, m.0.counted)) (handle_events-Spared sys t p fuel g (report p))
          (handle_events-Settles sys t p fuel g (report p)) in
      subst (λ o. ServedWell ps (serve_found sys event_of wait report fuel g t o)) (sym found)
        (elim (Bool-cases (p == null)) [ inl nowhere ↦ rw nowhere m | inr live ↦ rw live done ])

  -- The loop goes on from what one socket left.
  goes_on :
      (ps : List ℕ) (rounds fuel i : ℕ) (s : Served)
      → ServedWell ps s
      → ((g : EventWorld) (t : EventThread)
          → InStep ps g t
          → EndsWell ps (look_at_events sys event_of wait report rounds fuel g t (i + 1)))
      → EndsWell ps (elim s as (λ _. PassEnd) [
        | ran_off ↦ faults
        | stopped ↦ hangs
        | served g₁ t₁ ↦ look_at_events sys event_of wait report rounds fuel g₁ t₁ (i + 1)
      ])
  goes_on ps rounds fuel i (served g t) w more = more g t w
  goes_on ps rounds fuel i stopped w more = tt
  goes_on ps rounds fuel i ran_off w more = absurd w

  -- One round, by what the system says of the handle.
  one_round :
      (ps : List ℕ) (rounds fuel : ℕ) (g : EventWorld) (t : EventThread) (i : ℕ) (w : Option Bool)
      → ltb i (t.socket_count + 1) ≡ true
      → wait (t.handles i) ≡ w
      → IsDistinct ps
      → InStep ps g t
      → 64 < i + suc rounds
      → ((g : EventWorld) (t : EventThread) (i : ℕ)
          → InStep ps g t
          → i ≤ 64
          → 64 < i + rounds
          → EndsWell ps (look_at_events sys event_of wait report rounds fuel g t i))
      → EndsWell ps (look_at_events sys event_of wait report (suc rounds) fuel g t i)
  unfolding look_at_events
  one_round ps rounds fuel g t i none here e d m h more = rw (here, look_at_events, e) m
  one_round ps rounds fuel g t i (some false) here e d m h more =
      let within : i ≤ 63 = let b = m.0.bounded in ground (arith, here, b) in
      rw (here, look_at_events, e) (more g t (i + 1) m (omega arith) (omega (arith, h)))
  one_round ps rounds fuel g t i (some true) here e d m h more = elim (Bool-cases (i == 0)) [
    | inl first ↦
        let t' = record t { signaled = false } in
        let m' : Matches event_of t' = record {
          counted = m.0.counted;
          bounded = m.0.bounded;
          shown = m.0.shown;
        } in
        let enough : 64 < 2 + rounds = ground (arith, h, first) in
        rw (here, look_at_events, e, first)
          (more g _ 2 (renumbered t' m', renumbered_list t' ∙ m.1) (omega arith) enough)
    | inr later ↦
        let some_index : 0 < i = ground (arith, later) in
        let within : i ≤ t.socket_count = ground (arith, here) in
        rw (here, look_at_events, e, later)
          (goes_on ps rounds fuel i (serve_socket sys event_of wait report fuel g t (i - 1))
            (serve_socket-well ps fuel g t i d m some_index within)
            (λ g₁ t₁ m₁.
              more g₁ t₁ (i + 1) m₁ (omega (arith, within, m.0.bounded)) (omega (arith, h))))
  ]

  from_list :
      (ps : List ℕ) (rounds fuel : ℕ) (g : EventWorld) (t : EventThread) (i : ℕ)
      → IsDistinct ps
      → InStep ps g t
      → i ≤ 64
      → 64 < i + rounds
      → EndsWell ps (look_at_events sys event_of wait report rounds fuel g t i)
  unfolding look_at_events
  from_list ps zero fuel g t i d m low h = absurd (omega (arith, low, h))
  from_list ps (suc rounds) fuel g t i d m low h = elim (Bool-cases (ltb i (t.socket_count + 1))) [
    | inl here ↦
        one_round ps rounds fuel g t i (wait (t.handles i)) here refl d m h
          (λ g₁ t₁ j m₁. from_list ps rounds fuel g₁ t₁ j d m₁)
    | inr end ↦ rw (end, look_at_events) m
  ]

  -- If the event array of a thread fits its list of at most 63 sockets, which are distinct and
  -- have open handles, then the loop of ChildThread over the array, from an entry up to 64 with
  -- more rounds than are left to 64, ends by its own test, or with the exit of the thread, or in a
  -- HandleIo that ran out of its fuel or of memory, whatever the system reports of the handles and
  -- of the sockets: FindSocketObj never leaves the list through NULL, and where it ends by its
  -- test or with the exit the array fits the list, and the list holds, in their order, exactly
  -- those of the sockets it began with whose handle is still open: a socket that was closed is out
  -- of it, and no other.
  pub look_at_events-EndsWell :
      (rounds fuel : ℕ) (g : EventWorld) (t : EventThread) (i : ℕ)
      → Matches event_of t
      → IsDistinct t.socket_list
      → t.socket_list ≡ still_open g t.socket_list
      → i ≤ 64
      → 64 < i + rounds
      → EndsWell t.socket_list (look_at_events sys event_of wait report rounds fuel g t i)
  look_at_events-EndsWell rounds fuel g t i m d e low h =
      from_list t.socket_list rounds fuel g t i d (m, e) low h
