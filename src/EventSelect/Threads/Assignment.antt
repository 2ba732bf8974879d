-- ===== src/EventSelect/Threads/Assignment.antt =====
-- `AssignToFreeThread` of chapter05/WSAEventSelect/server/eventserver.cpp.
use network_programming_for.Base.{
  ℕ, ◌+◌, ◌≡◌, ◌∙◌, ap, refl, List, [], ◌∷◌, ltb, inl, inr, length, arith, Bool-cases,
  length-append, if◌then◌else◌,
}
use network_programming_for.EventSelect.Threads.{
  EventThread, insert_socket_obj, get_thread_obj, signal, insert_into_any, assign_to_free_thread,
}
use network_programming_for.EventSelect.Threads.Matching.{Matches, insert_socket_obj-Matches}

-- The number of sockets of all threads.
abbrev pub all_sockets : List EventThread → ℕ
all_sockets [] = 0
all_sockets (t ∷ ts) = length t.socket_list + all_sockets ts

module _ (event_of : ℕ → ℕ) where
  abbrev pub AllMatch : List EventThread → Type 0
  AllMatch [] = Unit {0}
  AllMatch (t ∷ ts) = Matches event_of t × AllMatch ts

  signal-Matches : (t : EventThread) → Matches event_of t → Matches event_of (signal t)
  signal-Matches t m = record { counted = m.counted; bounded = m.bounded; shown = m.shown }

  insert_socket_obj-length :
      (t : EventThread) (sock : ℕ)
      → let (t', done) = insert_socket_obj event_of t sock in
        length t'.socket_list ≡ length t.socket_list + (if done then 1 else 0)
  unfolding insert_socket_obj
  insert_socket_obj-length t sock = elim (Bool-cases (ltb t.socket_count 63)) [
    | inl room ↦ rw room (length-append t.socket_list (sock ∷ []))
    | inr full ↦ rw full (omega arith)
  ]

  insert_into_any-AllMatch :
      (ts : List EventThread) (sock : ℕ)
      → AllMatch ts
      → let (after, found) = insert_into_any event_of ts sock in
        AllMatch after × (all_sockets after ≡ all_sockets ts + (if found then 1 else 0))
  unfolding insert_into_any
  insert_into_any-AllMatch [] sock a = (tt, refl)
  insert_into_any-AllMatch (t ∷ ts) sock a =
      let m = (insert_socket_obj-Matches event_of t sock a.0).0 in
      let long = insert_socket_obj-length t sock in
      let (rest, count) = insert_into_any-AllMatch ts sock a.1 in
      elim (Bool-cases (insert_socket_obj event_of t sock).1) [
        | inl done ↦
            let longer : length (insert_socket_obj event_of t sock).0.socket_list
                ≡ length t.socket_list + 1 =
              long ∙ ap (λ d. length t.socket_list + (if d then 1 else 0)) done in
            rw (done, insert_into_any) ((signal-Matches _ m, a.1), omega (arith, longer))
        | inr full ↦ rw (full, insert_into_any) ((a.0, rest), omega (arith, count))
      ]

  new-Matches : (event : ℕ) → Matches event_of (get_thread_obj event)
  unfolding get_thread_obj
  new-Matches event = record { counted = refl; bounded = omega arith; shown = tt }

  -- If the event array of every thread fits its list of at most 63 sockets, the same holds after
  -- AssignToFreeThread, in a new thread if need be, and the threads together have one socket more.
  pub assign_to_free_thread-AllMatch :
      (ts : List EventThread) (new_event sock : ℕ)
      → AllMatch ts
      → let after = assign_to_free_thread event_of ts new_event sock in
        AllMatch after × (all_sockets after ≡ all_sockets ts + 1)
  unfolding assign_to_free_thread
  assign_to_free_thread-AllMatch ts new_event sock a =
      let (rest, count) = insert_into_any-AllMatch ts sock a in
      let fresh = get_thread_obj new_event in
      let m = (insert_socket_obj-Matches event_of fresh sock (new-Matches new_event)).0 in
      elim (Bool-cases (insert_into_any event_of ts sock).1) [
        | inl found ↦ rw found (rest, count ∙ ap (λ d. all_sockets ts + (if d then 1 else 0)) found)
        | inr none_free ↦ rw none_free ((signal-Matches _ m, a), omega arith)
      ]
