-- ===== src/Iocp/Listener/Limits.antt =====
-- Limits of the listening thread of chapter06/iocpserver.cpp: the events that it waits for, its
-- buffers, and the accepts that it posts.
use network_programming_for.Base.{
  ℕ, ◌+◌, ◌*◌, ◌%◌, ◌/◌, ◌^◌, ◌≤◌, ◌<◌, ◌≡◌, refl, ◌∙◌, true, false, List, [], ◌∷◌, ◌++◌, none,
  some, arith, signed_ltb, ltb, fun_ext, sym, lt→ltb, u32, append-nil, append_assoc, ap,
  Option-cases, length, length-append, Bool-cases, inl, inr, ◌==◌,
}
use native.Mathlib.Nat.{mod-eq_of_lt, mul-mod_left}
use network_programming_for.Iocp.State.{Server}
use network_programming_for.Iocp.Listener.{
  round_buffer_size, worker_count, add_event, add_all, add_listens, wait_events, ◌>>=◌,
}

-- For a page size that is not 0, and a buffer size that leaves room for a page below 2^32, the
-- rounded buffer size is a multiple of the page size, at least the buffer size, and less than a
-- page above it.
pub round_buffer_size_lem :
    (buffer_size page : ℕ)
    → 0 < page
    → buffer_size + page < 2 ^ 32
    → let n = round_buffer_size buffer_size page in
      (n % page ≡ 0) × (buffer_size ≤ n) × (n < buffer_size + page)
unfolding round_buffer_size
round_buffer_size_lem buffer_size page pos fits =
    let up = (buffer_size / page + 1) * page in
    let above : up ≡ buffer_size / page * page + page = grind arith in
    let small : u32 up ≡ up = mod-eq_of_lt (grind arith) in
    elim (Bool-cases (buffer_size % page == 0)) [
      | inl even ↦ rw (even, round_buffer_size) (ground arith, omega arith, omega arith)
      | inr odd ↦ rw (odd, round_buffer_size, small) (mul-mod_left _ _, grind arith, grind arith)
    ]

add_event_room :
    (events : List ℕ) (h : ℕ) → length events < 32 → add_event events h ≡ some (events ++ h ∷ [])
unfolding add_event
add_event_room events h room = rw (lt→ltb (length events) 32 room)

add_event_full : (events : List ℕ) (h : ℕ) → 32 ≤ length events → add_event events h ≡ none
unfolding add_event
add_event_full events h full = ground arith

-- The handles of a listening socket, one behind the other.
abbrev pub both_events : List (ℕ × ℕ) → List ℕ
both_events [] = []
both_events ((a, r) ∷ ls) = a ∷ r ∷ both_events ls

add_all_room :
    (events hs : List ℕ) → length events + length hs ≤ 32 → add_all events hs ≡ some (events ++ hs)
unfolding add_all
add_all_room events [] h = rw append-nil
add_all_room events (x ∷ hs) h = rw (add_event_room events x (omega arith)) (
    add_all_room (events ++ x ∷ []) hs (omega (arith, length-append events (x ∷ [])))
    ∙ ap some (append_assoc events (x ∷ []) hs))

add_all_full :
    (events hs : List ℕ)
    → length events ≤ 32
    → 32 < length events + length hs
    → add_all events hs ≡ none
unfolding add_all
add_all_full events [] h over = absurd (omega arith)
add_all_full events (x ∷ hs) h over = elim (Bool-cases (ltb (length events) 32)) [
  | inl room ↦ rw (add_event_room events x (ground arith)) (
      add_all_full (events ++ x ∷ []) hs (ground (arith, length-append events (x ∷ [])))
        (omega (arith, length-append events (x ∷ []))))
  | inr full ↦ rw (add_event_full events x (ground arith))
]

add_all-append :
    (events hs ls : List ℕ)
    → add_all events (hs ++ ls) ≡ (add_all events hs >>= λ more. add_all more ls)
unfolding add_all
add_all-append events [] ls = refl
add_all-append events (x ∷ hs) ls = elim (Option-cases (add_event events x)) [
  | inl e ↦ rw (e, ◌>>=◌)
  | inr (more, e) ↦ rw (e, ◌>>=◌) (add_all-append more hs ls)
]

add_listens-eq-add_all :
    (events : List ℕ) (ls : List (ℕ × ℕ)) → add_listens events ls ≡ add_all events (both_events ls)
unfolding add_listens add_all
add_listens-eq-add_all events [] = refl
add_listens-eq-add_all events ((a, r) ∷ ls) = elim (Option-cases (add_event events a)) [
  | inl e ↦ rw (e, ◌>>=◌)
  | inr (one, e) ↦
      rw (e, ◌>>=◌)
        (elim (Option-cases (add_event one r)) [
          | inl e' ↦ rw (e', ◌>>=◌)
          | inr (two, e') ↦ rw (e', ◌>>=◌) (add_listens-eq-add_all two ls)
        ])
]

wait_events-eq-add_all :
    (threads : List ℕ) (ls : List (ℕ × ℕ))
    → wait_events threads ls ≡ add_all [] (threads ++ both_events ls)
unfolding wait_events
wait_events-eq-add_all threads ls =
    ap (◌>>=◌ (add_all [] threads)) (fun_ext λ more. add_listens-eq-add_all more ls)
    ∙ sym (add_all-append [] threads (both_events ls))

length-both_events : (ls : List (ℕ × ℕ)) → length (both_events ls) ≡ 2 * length ls
length-both_events [] = refl
length-both_events ((a, r) ∷ ls) = omega (arith, length-both_events ls)

total_events :
    (threads : List ℕ) (ls : List (ℕ × ℕ))
    → length (threads ++ both_events ls) ≡ length threads + 2 * length ls
total_events threads ls =
    omega (arith, length-append threads (both_events ls), length-both_events ls)

-- If the threads and twice the listening sockets are at most 32, the array of events holds the
-- handles of the threads, and behind them the two events of each listening socket in order.
pub wait_events_room :
    (threads : List ℕ) (ls : List (ℕ × ℕ))
    → length threads + 2 * length ls ≤ 32
    → wait_events threads ls ≡ some (threads ++ both_events ls)
wait_events_room threads ls h =
    wait_events-eq-add_all threads ls
    ∙ add_all_room [] (threads ++ both_events ls) (omega (arith, total_events threads ls))

-- On a machine with 31 processors or more, where the program starts as many threads as it allows
-- itself, registering the events of a first listening socket writes past the end of the array of
-- events.
pub wait_events_full :
    (processors : ℕ) (threads : List ℕ) (l : ℕ × ℕ) (ls : List (ℕ × ℕ))
    → 31 ≤ processors
    → length threads ≡ worker_count processors
    → wait_events threads (l ∷ ls) ≡ none
unfolding worker_count
wait_events_full processors threads l ls many e =
    wait_events-eq-add_all threads (l ∷ ls)
    ∙ add_all_full [] (threads ++ both_events (l ∷ ls)) (omega arith)
        (ground (arith, total_events threads (l ∷ ls)))

-- No more accepts are pending than the limit allows.
abbrev pub IsAcceptBounded : ℕ → Server → Type 0
IsAcceptBounded l g = signed_ltb g.max_accepts (g.listens l).pending_accept_count ≡ false

-- Neither the limit nor the number of pending accepts has changed.
abbrev SameAccepts : ℕ → Server → Server → Type 0
SameAccepts l g h =
    (h.config ≡ g.config)
    × ((h.listens l).pending_accept_count ≡ (g.listens l).pending_accept_count)

-- Room for one more.
abbrev HasRoom : ℕ → Server → Type 0
HasRoom l g = signed_ltb (g.listens l).pending_accept_count g.max_accepts ≡ true
