-- ===== src/EventSelect/Tests.antt =====
-- Runs of the server of chapter05/WSAEventSelect/server/eventserver.cpp, with the theorems at concrete
-- states.
use network_programming_for.Base.{
  ℕ, ◌+◌, ◌<◌, ◌≡◌, refl, true, false, [], ◌∷◌, arith, length, none, some, ◌==◌, if◌then◌else◌,
}
use network_programming_for.EventSelect.State.{
  EventBuffer, arrived, refused, taken, System, EventWorld,
}
use network_programming_for.EventSelect.Sending.{would_block, SendEnd, all_sent, send_buffer}
use network_programming_for.EventSelect.Sending.Conservation.{taken_bytes}
use network_programming_for.EventSelect.Sending.Partial.{partial_send-repeats, send_buffer-ends}
use network_programming_for.EventSelect.Threads.{
  EventThread, renumber_thread_array, remove_socket_obj,
}
use network_programming_for.EventSelect.Threads.Matching.{Matches, remove_socket_obj-Matches}
use network_programming_for.EventSelect.Child.{look_at_events}
use network_programming_for.EventSelect.Child.Passes.{EndsWell, look_at_events-EndsWell}

-- Every send takes all, two bytes at most in the second system, and receives find three bytes or none.
abbrev greedy : System
greedy = record {
  recv = λ n. arrived (7 ∷ 8 ∷ 9 ∷ []) 0;
  send = λ n b. taken (length b);
  memory = λ n. true;
}

abbrev slow : System
slow = record { recv = λ n. refused would_block; send = λ n b. taken 2; memory = λ n. true }

abbrev letters : EventBuffer
letters = record { memory = 1 ∷ 2 ∷ 3 ∷ 4 ∷ []; buflen = 4; addr = 0 }

abbrev demo_event : ℕ → ℕ
demo_event p = p + 100

abbrev demo_world : EventWorld
demo_world = record {
  is_tcp = true;
  buffer_size = 8;
  sockets = λ k. record { s = 30; event = demo_event k; closing = false; pending = letters ∷ [] };
  bytes_read = 0;
  bytes_read_last = 0;
  bytes_sent = 0;
  bytes_sent_last = 0;
  current_connections = 2;
  calls = 0;
  trace = [];
}

abbrev demo_thread : EventThread
demo_thread = record {
  socket_list = 5 ∷ 6 ∷ [];
  socket_count = 2;
  event = 99;
  handles = λ i. if i == 1 then 105 else if i == 2 then 106 else 99;
  signaled = false;
}

demo_thread-Matches : Matches demo_event demo_thread
demo_thread-Matches = record { counted = refl; bounded = omega arith; shown = (refl, (refl, tt)) }

positive : (rc : ℕ) → taken 2 ≡ taken rc → 0 < rc
positive rc e = ground (arith, e)

-- The buffer 1, 2, 3, 4 sent two bytes at a time.
partial_send-repeats_example :
    (h : EventWorld) × (send_buffer slow 3 demo_world 1 letters 4 0 ≡ some (h, all_sent))
    × (taken_bytes h.trace ≡ 1 ∷ 2 ∷ 1 ∷ 2 ∷ [])
partial_send-repeats_example =
    partial_send-repeats slow 0 demo_world 1 2 letters (omega arith) (omega arith) refl refl

send_buffer-ends_example :
    (h : EventWorld) × (e : SendEnd) × (send_buffer slow 5 demo_world 1 letters 4 0 ≡ some (h, e))
send_buffer-ends_example =
    send_buffer-ends slow (λ n b rc e. positive rc e) (λ n. refl) 5 demo_world 1 letters 4 0
      (omega arith)

remove_socket_obj-Matches_example :
    let t = renumber_thread_array demo_event (remove_socket_obj demo_world demo_thread 6).1 in
    Matches demo_event t × (t.socket_list ≡ 5 ∷ [])
remove_socket_obj-Matches_example =
    remove_socket_obj-Matches demo_event demo_world demo_thread (5 ∷ []) [] 6 demo_thread-Matches
      refl (λ e. omega (arith, e), tt)

-- Two bytes come in, and then the end of the stream.
abbrev parting : System
parting = record {
  recv = λ n. if n == 0 then arrived (7 ∷ 8 ∷ []) 0 else arrived [] 0;
  send = λ n b. taken (length b);
  memory = λ n. true;
}

-- Both sockets are signaled, and the peer of the second one is gone.
look_at_events-EndsWell_example :
    EndsWell slow demo_event
      (λ h. some true)
      (λ p. if p == 5 then some (none, none, none) else some (some 10054, none, none))
      (5 ∷ 6 ∷ [])
      (look_at_events slow demo_event
        (λ h. some true)
        (λ p. if p == 5 then some (none, none, none) else some (some 10054, none, none))
        65
        9
        demo_world
        demo_thread
        0)
look_at_events-EndsWell_example =
    look_at_events-EndsWell slow demo_event (λ h. some true)
      (λ p. if p == 5 then some (none, none, none) else some (some 10054, none, none)) 65 9
      demo_world demo_thread 0 demo_thread-Matches (((λ e. omega (arith, e)), tt), (tt, tt)) refl
      (omega arith) (omega arith)
