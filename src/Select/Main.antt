-- ===== src/Select/Main.antt =====
-- `main` of chapter05/nonblocking/server/nbserver.cpp as a whole: the sockets for the local addresses, and
-- then the rounds of its loop. The addresses come from ResolveAddress; only their number matters.
use network_programming_for.Base.{
  ℕ, zero, suc, ◌+◌, ◌*◌, ◌<◌, ◌≡◌, refl, Bool, true, false, [], ◌∷◌, ◌++◌, if◌then◌else◌, none,
  some, Option-cases, Bool-cases, inl, inr, null, arith,
}
use network_programming_for.Select.State.{
  NbSocket, NbSystem, NbWorld, Flow, going, exited, stuck, ◌>>=◌,
}
use network_programming_for.Select.Objects.{get_socket_obj, insert_socket_obj}
use network_programming_for.Select.Transfer.Streams.{Ends, Ends->>=}
use network_programming_for.Select.Transfer.Sending.{IsWhole}
use network_programming_for.Select.Loop.{serve}
use network_programming_for.Select.Loop.Invariant.{IsServing-added}
use network_programming_for.Select.Loop.Serving.{
  StillServing, serve-StillServing, IsServing-counted,
}

-- The globals at the start; the heap gives out addresses from `base` on.
abbrev pub start_world : (is_tcp : Bool) → (buffer_size base : ℕ) → (ℕ → NbSocket) → NbWorld
start_world is_tcp buffer_size base memory = record {
  is_tcp = is_tcp;
  buffer_size = buffer_size;
  sockets = memory;
  socket_list = null;
  socket_list_end = null;
  socket_count = 0;
  freed = [];
  heap_next = base;
  bytes_read = 0;
  bytes_sent = 0;
  start_time = 0;
  bytes_read_last = 0;
  bytes_sent_last = 0;
  start_time_last = 0;
  current_connections = 0;
  calls = 0;
  clock = 0;
  trace = [];
}

module _ (sys : NbSystem) where
  -- `bind` and, for TCP, `listen`.
  unfoldable pub bind_socket : NbWorld → Flow NbWorld
  bind_socket g =
      if sys.bind g.calls
      then (if g.is_tcp
          then (if sys.listen (g.calls + 1)
              then going (record g { calls = g.calls + 2 })
              else exited)
          else going (record g { calls = g.calls + 1 }))
      else exited

  unfoldable pub create_socket : NbWorld → Flow NbWorld
  unfolding bind_socket
  create_socket g = elim (sys.socket g.calls) [
    | none ↦ exited
    | some s ↦ get_socket_obj sys (record g { calls = g.calls + 1 }) s g.is_tcp >>= λ r.
        bind_socket (insert_socket_obj r.0 r.1)
  ]

  -- One socket for each address.
  unfoldable pub create_sockets : (addresses : ℕ) → NbWorld → Flow NbWorld
  create_sockets zero g = going g
  create_sockets (suc n) g = elim (create_socket g) [
    | exited ↦ exited
    | stuck ↦ stuck
    | going h ↦ create_sockets n h
  ]

  -- `gStartTime = gStartTimeLast = lastprint = GetTickCount()`
  unfoldable pub start_clock : NbWorld → NbWorld × ℕ
  start_clock g =
      let tick = sys.tick g.clock in
      (record g { start_time = tick; start_time_last = tick; clock = g.clock + 1 }, tick)

  unfoldable pub run_server :
      (addresses rounds fuel : ℕ) → (steps : ℕ → ℕ) → NbWorld → Flow (NbWorld × ℕ)
  unfolding create_sockets start_clock
  run_server addresses rounds fuel steps g =
      create_sockets addresses g >>= λ h. serve sys rounds fuel steps (start_clock h)

start_world-StillServing :
    (buffer_size base : ℕ) (memory : ℕ → NbSocket)
    → 0 < base
    → StillServing (start_world true buffer_size base memory)
start_world-StillServing n base memory live = (
  [],
  record {
    linked = record {
      chain = refl;
      back = tt;
      last = refl;
      count = refl;
      distinct = tt;
      kept = tt;
      below = tt;
      given = tt;
      live = live;
    };
    streaming = record {
      tcp = refl;
      live = tt;
      prefixes = λ k. ([], refl);
      fresh = λ k above. refl;
    };
  },
)

module _ (sys : NbSystem) where
  bind_socket-StillServing : (g : NbWorld) → StillServing g → Ends StillServing (bind_socket sys g)
  unfolding bind_socket
  bind_socket-StillServing g (zs, s) =
      let pick = λ (m : Flow NbWorld) (h : Ends StillServing m).
        either g.is_tcp m (going (record g { calls = g.calls + 1 })) h
          (zs, IsServing-counted g zs _ _ _ _ _ _ s) in
      elim (Bool-cases (sys.bind g.calls)) [
        | inr bad ↦ rw bad tt
        | inl bound ↦ elim (Bool-cases (sys.listen (g.calls + 1))) [
          | inr bad ↦ rw (bound, bad) (pick exited tt)
          | inl listens ↦
              rw (bound, listens)
                (pick (going (record g { calls = g.calls + 2 }))
                  (zs, IsServing-counted g zs _ _ _ _ _ _ s))
        ]
      ]
    where
      either :
          (b : Bool) (m n : Flow NbWorld)
          → Ends StillServing m
          → Ends StillServing n
          → Ends StillServing (if b then m else n)
      either true m n h k = h
      either false m n h k = k

  create_socket-StillServing :
      (g : NbWorld) → StillServing g → Ends StillServing (create_socket sys g)
  unfolding create_socket get_socket_obj
  create_socket-StillServing g (zs, s) = elim (Option-cases (sys.socket g.calls)) [
    | inl bad ↦ rw (bad, create_socket) tt
    | inr (handle, ok) ↦ elim (Bool-cases (sys.memory (g.calls + 1))) [
      | inr full ↦ rw (ok, create_socket, full) tt
      | inl room ↦
          rw (ok, create_socket, room)
            (bind_socket-StillServing _ (
              zs ++ g.heap_next ∷ [],
              IsServing-added g _ zs
                  (record {
                    others = λ q n. ground (arith, n);
                    pending = ground arith;
                    list = refl;
                    end = refl;
                    count = refl;
                    freed = refl;
                    heap = refl;
                    tcp = refl;
                    trace = refl;
                  })
                  s,
            ))
    ]
  ]

  created_next :
      (n : ℕ) (g : NbWorld) (out : Flow NbWorld)
      → create_socket sys g ≡ out
      → Ends StillServing out
      → ((h : NbWorld) → StillServing h → Ends StillServing (create_sockets sys n h))
      → Ends StillServing (create_sockets sys (suc n) g)
  unfolding create_sockets
  created_next n g exited e done rest = rw (e, create_sockets) tt
  created_next n g stuck e done rest = absurd done
  created_next n g (going h) e done rest = rw (e, create_sockets) (rest h done)

  create_sockets-StillServing :
      (n : ℕ) (g : NbWorld) → StillServing g → Ends StillServing (create_sockets sys n g)
  unfolding create_sockets
  create_sockets-StillServing zero g s = s
  create_sockets-StillServing (suc n) g s =
      created_next n g _ refl (create_socket-StillServing g s) (create_sockets-StillServing n)

  start_clock-StillServing : (g : NbWorld) → StillServing g → StillServing (start_clock sys g).0
  unfolding start_clock
  start_clock-StillServing g (zs, s) = (zs, IsServing-counted g zs _ _ _ _ _ _ s)

-- If every send takes all that it is offered or fails, then from the globals of a TCP server at
-- its start, with fuel of at least 2 and more steps for a walk than twice the number of objects,
-- main with any number of local addresses and of rounds never gets stuck, whatever the system
-- answers: either the process has ended, or the list runs forth and back through objects that were
-- not given back, with the right end and count, each listed object has received exactly the bytes
-- that were sent for it followed by those it still holds, and for any object at all what was sent
-- is how the bytes that it received start.
pub run_server-StillServing :
    (sys : NbSystem)
    → IsWhole sys
    → (addresses rounds fuel : ℕ) (steps : ℕ → ℕ) (buffer_size base : ℕ) (memory : ℕ → NbSocket)
    → 0 < base
    → ((n : ℕ) → 2 * n < steps n)
    → Ends
        (λ (q : NbWorld × ℕ). StillServing q.0)
        (run_server sys addresses rounds
          (suc (suc fuel))
          steps
          (start_world true buffer_size base memory))
unfolding run_server
run_server-StillServing sys whole addresses rounds fuel steps n base memory live enough =
    Ends->>= StillServing (λ (q : NbWorld × ℕ). StillServing q.0)
      (create_sockets sys addresses (start_world true n base memory))
      (λ h. serve sys rounds (suc (suc fuel)) steps (start_clock sys h))
      (λ h s.
        serve-StillServing sys whole rounds fuel steps (start_clock sys h) enough
          (start_clock-StillServing sys h s))
      (create_sockets-StillServing sys addresses _ (start_world-StillServing n base memory live))
