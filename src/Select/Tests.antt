-- ===== src/Select/Tests.antt =====
-- Runs of the server of chapter05/nonblocking/server/nbserver.cpp, with the theorems at concrete states.
use network_programming_for.Base.{
  ℕ, zero, suc, ◌+◌, ◌*◌, ◌≡◌, refl, true, false, Bool, List, [], ◌∷◌, ◌++◌, arith, length, inl,
  some, ◌==◌, if◌then◌else◌, take, null,
}
use network_programming_for.Select.State.{
  NbBuffer, NbSocket, NbSystem, arrived, refused, taken, unsent, ready, NbCall, NbWorld, Flow,
  going,
}
use network_programming_for.Select.Objects.{
  get_buffer_obj, get_socket_obj, insert_socket_obj, remove_socket_obj, free_socket_obj,
}
use network_programming_for.Select.Objects.Links.{next_of, IsOpen}
use network_programming_for.Select.Objects.Removal.{remove_socket_obj-IsOpen}
use network_programming_for.Select.Transfer.{
  receive_into, receive_pending_data, send_buffer, send_one, send_queue, send_pending_data,
}
use network_programming_for.Select.Transfer.Streams.{Ends}
use network_programming_for.Select.Loop.{
  read_event, write_event, visit, walk, fill_sets, serve_once, serve,
}
use network_programming_for.Select.Main.{start_world, run_server, run_server-StillServing}
use network_programming_for.Select.Loop.Serving.{StillServing}
use network_programming_for.Select.Loop.Limit.{fd_setsize, IsFdSet, handles, fill_sets-take}
use network_programming_for.Select.Loop.Faults.{empty_datagram-closes}
use network_programming_for.Select.Loop.Losses.{failed_send-unclosed, removed-skips_next}

abbrev add_handle : ℕ → List ℕ → List ℕ
add_handle s set = if length set == 64 then set else set ++ s ∷ []

-- The first select finds the listening socket ready, the next ones the client too.
abbrev echoing : NbSystem
echoing = record {
  recv = λ n. arrived (7 ∷ 8 ∷ 9 ∷ []) 0;
  send = λ n b. taken (length b);
  socket = λ n. some 10;
  bind = λ n. true;
  listen = λ n. true;
  accept = λ n. some (20, 5);
  memory = λ n. true;
  select = λ n set. if n == 0 then ready (10 ∷ []) [] [] else ready (20 ∷ []) (20 ∷ []) [];
  tick = λ n. 0;
  fd_set = add_handle;
}

abbrev socket : (s : ℕ) → (listening : Bool) → List NbBuffer → (next prev : ℕ) → NbSocket
socket s listening pending next prev = record {
  s = s;
  listening = listening;
  closing = false;
  addr = 0;
  pending = pending;
  next = next;
  prev = prev;
}

abbrev world : (is_tcp : Bool) → (ℕ → NbSocket) → (first last count : ℕ) → NbWorld
world is_tcp sockets first last count = record {
  is_tcp = is_tcp;
  buffer_size = 4;
  sockets = sockets;
  socket_list = first;
  socket_list_end = last;
  socket_count = count;
  freed = [];
  heap_next = 4;
  bytes_read = 0;
  bytes_sent = 0;
  start_time = 0;
  bytes_read_last = 0;
  bytes_sent_last = 0;
  start_time_last = 0;
  current_connections = 0;
  calls = 0;
  clock = 0;
  trace = [];
}

-- One socket that listens, or that receives datagrams.
abbrev alone : (is_tcp : Bool) → NbWorld
alone is_tcp = world is_tcp (λ q. socket 10 is_tcp [] null null) 1 1 1

alone-IsOpen : (b : Bool) → IsOpen (alone b) (1 ∷ [])
alone-IsOpen b = record {
  chain = (refl, omega arith, refl);
  back = (refl, tt);
  last = refl;
  count = refl;
  distinct = (tt, tt);
  kept = (tt, tt);
  below = (omega arith, tt);
  given = tt;
  live = omega arith;
}

alone-StillServing : StillServing (alone true)
alone-StillServing = (
  1 ∷ [],
  record {
    linked = alone-IsOpen true;
    streaming = record {
      tcp = refl;
      live = ((refl, tt), tt);
      prefixes = λ k. ([], refl);
      fresh = λ k above. refl;
    };
  },
)

-- Two rounds accept a client and echo its bytes.
calls_after : Flow (NbWorld × ℕ) → List NbCall
calls_after (going (g, last)) = g.trace
calls_after _ = []

serve_trace :
    calls_after (serve echoing 2 2 (λ n. 2 * n + 1) (alone true, 0))
    ≡ NbCall.sends 4 (7 ∷ 8 ∷ 9 ∷ []) 0 3 ∷ NbCall.receives 4 (7 ∷ 8 ∷ 9 ∷ []) ∷ []
unfolding calls_after serve serve_once walk visit get_socket_obj insert_socket_obj
    receive_pending_data get_buffer_obj receive_into send_pending_data send_queue send_one
    send_buffer
serve_trace = refl

echoing-IsFdSet : IsFdSet echoing
echoing-IsFdSet = record { adds = λ s set h out. ground arith; full = λ s set e. ground (arith, e) }

fill_sets-take_example :
    fill_sets echoing 2 (alone true) 1 [] ≡ going (take fd_setsize (handles (alone true) (1 ∷ [])))
fill_sets-take_example =
    fill_sets-take echoing echoing-IsFdSet (alone true) 2 (1 ∷ []) (alone-IsOpen true) (tt, tt)
      (omega arith)

-- The system of an empty datagram.
abbrev empty_peer : NbSystem
empty_peer = record echoing { recv = λ n. arrived [] 6 }

empty_datagram-closes_example :
    (h : NbWorld) × (read_event empty_peer 1 (10 ∷ []) (alone false) 1 ≡ going (h, null))
    × (h.trace ≡ NbCall.closes 1 10 ∷ NbCall.sends 1 [] 6 0 ∷ NbCall.receives 1 [] ∷ [])
    × (h.freed ≡ 1 ∷ [])
    × IsOpen h []
empty_datagram-closes_example =
    empty_datagram-closes empty_peer 1 (10 ∷ []) (alone false) [] 1 [] 6 0 (alone-IsOpen false) refl
      refl refl refl (refl, refl) refl refl

-- A client with queued bytes, and one behind it.
abbrev letters : NbBuffer
letters = record { memory = 1 ∷ 2 ∷ 3 ∷ []; buflen = 3; addr = 0 }

abbrev pair_socket : ℕ → NbSocket
pair_socket (suc (suc zero)) = socket 20 false (letters ∷ []) 3 null
pair_socket (suc (suc (suc zero))) = socket 30 false [] null 2
pair_socket other = socket 0 false [] null null

abbrev pair : NbWorld
pair = world true pair_socket 2 3 2

pair-IsOpen : IsOpen pair (2 ∷ 3 ∷ [])
pair-IsOpen = record {
  chain = (refl, omega arith, (refl, omega arith, refl));
  back = (refl, (refl, tt));
  last = refl;
  count = refl;
  distinct = ((λ e. absurd (omega (arith, e)), tt), (tt, tt));
  kept = (tt, (tt, tt));
  below = (omega arith, (omega arith, tt));
  given = tt;
  live = omega arith;
}

-- Every receive and every send fails.
abbrev broken_pipe : NbSystem
broken_pipe = record echoing { recv = λ n. refused 10054; send = λ n b. unsent 10054 }

failed_send-unclosed_example :
    (h : NbWorld) × (write_event broken_pipe 2 (20 ∷ []) pair 2 ≡ going (h, 3))
    × (h.trace ≡ NbCall.sends 2 (1 ∷ 2 ∷ 3 ∷ []) 0 0 ∷ [])
    × (h.freed ≡ 2 ∷ [])
    × IsOpen h (3 ∷ [])
failed_send-unclosed_example =
    failed_send-unclosed broken_pipe 1 (20 ∷ []) pair [] 2 (3 ∷ []) letters [] 10054 pair-IsOpen
      refl refl refl (omega arith) refl (λ e. absurd (omega (arith, e)))

removed-skips_next_example :
    (h : NbWorld) × (visit broken_pipe 2 (20 ∷ 30 ∷ []) [] [] pair 2 ≡ going (h, next_of h 3))
    × (h.trace ≡ NbCall.closes 2 20 ∷ NbCall.receives 2 [] ∷ [])
    × (h.freed ≡ 2 ∷ [])
    × IsOpen h (3 ∷ [])
removed-skips_next_example =
    removed-skips_next broken_pipe 2 (20 ∷ 30 ∷ []) [] [] pair [] 2 3 [] 10054 pair-IsOpen refl refl
      (refl, refl) refl (λ e. absurd (omega (arith, e))) refl refl refl refl

remove_socket_obj-IsOpen_example : IsOpen (free_socket_obj (remove_socket_obj pair 3) 3) (2 ∷ [])
remove_socket_obj-IsOpen_example = remove_socket_obj-IsOpen pair 3 (2 ∷ []) [] pair-IsOpen

run_server-StillServing_example :
    Ends
      (λ (q : NbWorld × ℕ). StillServing q.0)
      (run_server echoing 1 3 2
        (λ n. 2 * n + 1)
        (start_world true 4 1 (λ q. socket 0 false [] 0 0)))
run_server-StillServing_example =
    run_server-StillServing echoing (λ n b. inl refl) 1 3 0 (λ n. 2 * n + 1) 4 1
      (λ q. socket 0 false [] 0 0) (omega arith) (λ n. omega arith)
