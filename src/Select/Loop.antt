-- ===== src/Select/Loop.antt =====
-- `main` of chapter05/nonblocking/server/nbserver.cpp behind its setup: the rounds of `select`, and the
-- walk over the list in each. `fuel` bounds the loop over one buffer, `steps` the walk along the list.
pub mod Invariant
pub mod Cursor
pub mod Walk
pub mod Serving
pub mod Limit
pub mod Faults
pub mod Losses
use network_programming_for.Base.{
  ℕ, zero, suc, ◌+◌, ◌-◌, ◌/◌, ◌^◌, Bool, true, false, List, [], ◌∷◌, ◌++◌, ◌==◌, ltb,
  if◌then◌else◌, Option, none, some, null, increment, u32,
}
use network_programming_for.Iocp.State.{invalid_socket}
use network_programming_for.Iocp.Stats.{seconds_since}
use network_programming_for.Select.State.{
  NbSocket, NbSystem, Selected, select_error, timed_out, ready, NbWorld, put_socket, Flow, going,
  exited, stuck, ◌>>=◌,
}
use network_programming_for.Select.Objects.{
  get_socket_obj, insert_socket_obj, remove_socket_obj, free_socket_obj,
}
use network_programming_for.Select.Transfer.{receive_pending_data, send_pending_data}

-- `FD_ISSET`
abbrev pub is_set : ℕ → List ℕ → Bool
is_set s [] = false
is_set s (x ∷ xs) = if s == x then true else is_set s xs

-- `tmp = sptr; sptr = sptr->next; RemoveSocketObj(tmp); FreeSocketObj(tmp);`
unfoldable pub remove_and_advance : NbWorld → (sptr : ℕ) → NbWorld × ℕ
remove_and_advance g sptr = (free_socket_obj (remove_socket_obj g sptr) sptr, (g.sockets sptr).next)

-- -1 removes the object.
abbrev pub unless_broken : (sptr : ℕ) → NbWorld × Bool → NbWorld × ℕ
unless_broken sptr (g, broken) = if broken then remove_and_advance g sptr else (g, sptr)

-- The `LONG` counters as `PrintStatistics` leaves them. All but the last line is printing; where a
-- period is shorter than a second it stops.
unfoldable pub print_statistics : NbSystem → NbWorld → NbWorld
print_statistics sys g =
    let tick = sys.tick g.clock in
    let g₁ = record g { clock = g.clock + 1 } in
    if seconds_since tick g.start_time == 0
    then g₁
    else if seconds_since tick g.start_time_last == 0
    then g₁
    else record g₁ { bytes_sent_last = 0; bytes_read_last = 0; start_time_last = tick }

unfoldable pub except_event : List ℕ → NbWorld → (sptr : ℕ) → NbWorld × ℕ
unfolding remove_and_advance
except_event excepts g sptr =
    if is_set (g.sockets sptr).s excepts then remove_and_advance g sptr else (g, sptr)

-- `continue` at the end of the list, or on with the rest of the body.
abbrev pub unless_end : NbWorld × ℕ → (NbWorld → ℕ → Flow (NbWorld × ℕ)) → Flow (NbWorld × ℕ)
unless_end (g, sptr) f = if sptr == null then going (g, null) else f g sptr

module _ (sys : NbSystem) where
  -- A read event of a listening socket.
  unfoldable pub accept_connection : NbWorld → (sptr : ℕ) → Flow (NbWorld × ℕ)
  accept_connection g sptr = get_socket_obj sys g invalid_socket false >>= λ r.
      elim (sys.accept r.0.calls) [
        | none ↦ exited
        | some (s, peer) ↦
            let g₁ = record (put_socket r.0 r.1 (record (r.0.sockets r.1) { addr = peer; s = s })) {
              calls = r.0.calls + 1;
              current_connections = increment r.0.current_connections;
            } in
            going (insert_socket_obj g₁ r.1, sptr)
      ]

  abbrev pub send_part : (fuel : ℕ) → NbWorld → (sptr : ℕ) → Flow (NbWorld × ℕ)
  send_part fuel g sptr = send_pending_data sys fuel g sptr >>= λ r. going (unless_broken sptr r)

  -- A read event of a client: where the receive has removed the object, the send is for the next one.
  unfoldable pub read_client : (fuel : ℕ) → NbWorld → (sptr : ℕ) → Flow (NbWorld × ℕ)
  unfolding remove_and_advance
  read_client fuel g sptr =
      (receive_pending_data sys g sptr >>= λ r. going (unless_broken sptr r)) >>= λ r.
      if r.1 == null then going r else send_part fuel r.0 r.1

  unfoldable pub read_event : (fuel : ℕ) → List ℕ → NbWorld → (sptr : ℕ) → Flow (NbWorld × ℕ)
  unfolding accept_connection read_client
  read_event fuel reads g sptr =
      if is_set (g.sockets sptr).s reads
      then (if (g.sockets sptr).listening
          then accept_connection g sptr
          else read_client fuel g sptr)
      else going (g, sptr)

  unfoldable pub write_event : (fuel : ℕ) → List ℕ → NbWorld → (sptr : ℕ) → Flow (NbWorld × ℕ)
  write_event fuel writes g sptr =
      if is_set (g.sockets sptr).s writes then send_part fuel g sptr else going (g, sptr)

  -- The body of the walk; the result is the pointer for the next round.
  unfoldable pub visit :
      (fuel : ℕ) → (reads writes excepts : List ℕ) → NbWorld → (sptr : ℕ) → Flow (NbWorld × ℕ)
  unfolding read_event write_event except_event
  visit fuel reads writes excepts g sptr =
      (read_event fuel reads g sptr >>= λ r. unless_end r λ g₁ p₁.
        write_event fuel writes g₁ p₁ >>= λ r₁.
        unless_end r₁ λ g₂ p₂.
          unless_end (except_event excepts g₂ p₂) λ g₃ p₃. going (g₃, (g₃.sockets p₃).next))

  unfoldable pub walk :
      (steps fuel : ℕ) → (reads writes excepts : List ℕ) → NbWorld → (sptr : ℕ) → Flow NbWorld
  walk zero fuel reads writes excepts g sptr = stuck
  walk (suc steps) fuel reads writes excepts g sptr = elim (sptr == null) [
    | true ↦ going g
    | false ↦ elim (visit fuel reads writes excepts g sptr) [
      | exited ↦ exited
      | stuck ↦ stuck
      | going (h, p) ↦ walk steps fuel reads writes excepts h p
    ]
  ]

  -- The loop that sets the handles of all sockets, the same in the three sets.
  unfoldable pub fill_sets : (steps : ℕ) → NbWorld → (sptr : ℕ) → (set : List ℕ) → Flow (List ℕ)
  fill_sets zero g sptr set = stuck
  fill_sets (suc steps) g sptr set = elim (sptr == null) [
    | true ↦ going set
    | false ↦ fill_sets steps g (g.sockets sptr).next (sys.fd_set (g.sockets sptr).s set)
  ]

  abbrev pub on_select : (steps fuel : ℕ) → NbWorld → Selected → Flow NbWorld
  on_select steps fuel g select_error = exited
  on_select steps fuel g timed_out = going (print_statistics sys g)
  on_select steps fuel g (ready reads writes excepts) =
      walk steps fuel reads writes excepts g g.socket_list

  -- The report every five seconds. `lastprint` is a variable of `main`.
  unfoldable pub print_if_due : NbWorld → (last : ℕ) → NbWorld × ℕ
  unfolding print_statistics
  print_if_due g last =
      let g₁ = record g { clock = g.clock + 1 } in
      if ltb 5000 (u32 (sys.tick g.clock + 2 ^ 32 - last))
      then (let g₂ = print_statistics sys g₁ in
          (record g₂ { clock = g₂.clock + 1 }, sys.tick g₂.clock))
      else (g₁, last)

  unfoldable pub serve_once : (steps fuel : ℕ) → NbWorld × ℕ → Flow (NbWorld × ℕ)
  unfolding fill_sets print_if_due
  serve_once steps fuel (g, last) = fill_sets steps g g.socket_list [] >>= λ set.
      on_select steps fuel (record g { calls = g.calls + 1 }) (sys.select g.calls set) >>= λ h.
      going (print_if_due h last)

  -- This many rounds of the `while (1)`, each of them with as many steps as it needs.
  unfoldable pub serve : (rounds fuel : ℕ) → (steps : ℕ → ℕ) → NbWorld × ℕ → Flow (NbWorld × ℕ)
  serve zero fuel steps r = going r
  serve (suc rounds) fuel steps r = elim (serve_once (steps r.0.socket_count) fuel r) [
    | exited ↦ exited
    | stuck ↦ stuck
    | going r₁ ↦ serve rounds fuel steps r₁
  ]
