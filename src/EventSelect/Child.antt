-- ===== src/EventSelect/Child.antt =====
-- `ChildThread` of chapter05/WSAEventSelect/server/eventserver.cpp: the look at the events of a thread
-- after one of them was signaled.
pub mod Handles
pub mod Spared
pub mod Passes
use network_programming_for.Base.{
  ℕ, zero, suc, ◌+◌, ◌-◌, Bool, true, false, List, ◌==◌, ltb, if◌then◌else◌, Option, none, some,
  null,
}
use network_programming_for.EventSelect.State.{System, EventWorld}
use network_programming_for.EventSelect.Threads.{
  EventThread, renumber_thread_array, find_socket_obj,
}
use network_programming_for.EventSelect.Handler.{handle_events}

-- What became of one socket: `stopped` where the handler did not come back, and `ran_off` where the
-- list was left through NULL.
pub data Served : Type 0 where
  served : EventWorld → EventThread → Served
  stopped : Served
  ran_off : Served

-- How a look at the array ends: at its end, with the exit of the thread, or with one socket.
pub data PassEnd : Type 0 where
  finished : EventWorld → EventThread → PassEnd
  left_thread : EventWorld → EventThread → PassEnd
  hangs : PassEnd
  faults : PassEnd
  out_of_rounds : PassEnd

-- What `WaitForSingleObject` says of a handle, none where it fails, and the events of a socket.
module _ (sys : System) (event_of : ℕ → ℕ) (wait : ℕ → Option Bool)
    (report : ℕ → Option (Option ℕ × Option ℕ × Option ℕ)) where
  -- The array is renumbered after an error of `HandleIo`.
  abbrev pub after_io : Option (EventWorld × EventThread × Bool) → Served
  after_io none = stopped
  after_io (some (g, t, true)) = served g t
  after_io (some (g, t, false)) = served g (renumber_thread_array event_of t)

  abbrev pub serve_found : (fuel : ℕ) → EventWorld → EventThread → Option ℕ → Served
  serve_found fuel g t none = ran_off
  serve_found fuel g t (some p) =
      if p == null then served g t else after_io (handle_events sys fuel g t p (report p))

  -- One socket, by its index in the list.
  unfoldable pub serve_socket : (fuel : ℕ) → EventWorld → EventThread → (index : ℕ) → Served
  serve_socket fuel g t index = serve_found fuel g t (find_socket_obj t.socket_list index)

  -- The `for` loop; after the event of the thread it goes on at 2. `rounds` bounds it.
  unfoldable pub look_at_events : (rounds fuel : ℕ) → EventWorld → EventThread → (i : ℕ) → PassEnd
  unfolding serve_socket
  look_at_events zero fuel g t i = out_of_rounds
  look_at_events (suc rounds) fuel g t i = elim (ltb i (t.socket_count + 1)) [
    | false ↦ finished g t
    | true ↦ elim (wait (t.handles i)) [
      | none ↦ left_thread g t
      | some false ↦ look_at_events rounds fuel g t (i + 1)
      | some true ↦ elim (i == 0) [
        | true ↦
            look_at_events rounds fuel g
              (renumber_thread_array event_of (record t { signaled = false })) 2
        | false ↦ elim (serve_socket fuel g t (i - 1)) [
          | ran_off ↦ faults
          | stopped ↦ hangs
          | served g₁ t₁ ↦ look_at_events rounds fuel g₁ t₁ (i + 1)
        ]
      ]
    ]
  ]
