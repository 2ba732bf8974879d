-- ===== src/Select/Loop/Losses.antt =====
-- Where `main` of chapter05/nonblocking/server/nbserver.cpp does less than it means to: a send that fails
-- leaves the handle open, and an object behind a removed one is not read.
use network_programming_for.Base.{
  ℕ, suc, ◌+◌, ◌<◌, ◌≡◌, ◌≢◌, ◌∙◌, ap, refl, Bool, true, false, List, [], ◌∷◌, ◌++◌, ◌==◌, ◌&&◌,
  if◌then◌else◌, Bool-cases, inl, inr, arith, null, take, Chain-at,
}
use network_programming_for.Select.State.{
  NbBuffer, NbSystem, refused, unsent, NbCall, NbWorld, note_call, going, ◌>>=◌,
}
use network_programming_for.Select.Objects.{free_socket_obj, remove_socket_obj}
use network_programming_for.Select.Objects.Links.{next_of, IsOpen}
use network_programming_for.Select.Transfer.{
  would_block, queue_of, set_queue, is_idle, close_socket, receive_into, receive_pending_data,
  failed, send_buffer, send_datagram, send_one, send_queue, close_if_idle, send_pending_data,
}
use network_programming_for.Select.Transfer.Streams.{
  Touches, Touches-trans, Touches-counters, Touches-close, Touches-receive, Touches-send,
  Touches-put, IsOpen-Touches,
}
use network_programming_for.Select.Loop.{
  is_set, remove_and_advance, unless_broken, send_part, read_client, read_event, write_event,
  except_event, visit,
}
use network_programming_for.Select.Loop.Faults.{
  HasMemory, with_buffer, received_into, Removed-after,
}

-- The peer that a send goes to: a stream has none.
abbrev pub peer_of : NbWorld → NbBuffer → ℕ
peer_of g b = if g.is_tcp then 0 else b.addr

stays_if_open :
    (h : NbWorld) (k : ℕ) (ret : Bool)
    → (h.sockets k).closing ≡ false
    → close_if_idle h k ret ≡ (h, ret)
unfolding close_if_idle
stays_if_open h k ret e =
    let never : (is_idle (queue_of h k) && (h.sockets k).closing) ≡ false = ground (arith, e) in
    rw never refl

module _ (sys : NbSystem) (fuel : ℕ) (g : NbWorld) (k : ℕ) (b : NbBuffer) (q : List NbBuffer) where
  abbrev refused_world : NbWorld
  refused_world = note_call g (NbCall.sends k (take b.buflen b.memory) (peer_of g b) 0)

  one_refused :
      (error : ℕ)
      → 0 < b.buflen
      → sys.send g.calls (take b.buflen b.memory) ≡ unsent error
      → error ≢ would_block
      → send_one sys (suc fuel) g k b ≡ going (refused_world, failed)
  unfolding send_one send_buffer send_datagram
  one_refused error some bad fatal =
      let more : (b.buflen == 0) ≡ false = ground (arith, some) in
      let other : (error == would_block) ≡ false = ground (arith, fatal) in
      elim (Bool-cases g.is_tcp) [
        | inl tcp ↦ rw tcp (rw (more, send_buffer, bad, other) refl)
        | inr udp ↦ rw udp (rw (bad, send_datagram, other) refl)
      ]

  queue_refused :
      (error : ℕ)
      → queue_of g k ≡ b ∷ q
      → (g.sockets k).closing ≡ false
      → 0 < b.buflen
      → sys.send g.calls (take b.buflen b.memory) ≡ unsent error
      → error ≢ would_block
      → send_pending_data sys (suc fuel) g k ≡ going (set_queue refused_world k q, true)
  unfolding send_pending_data send_queue
  queue_refused error holds stays some bad fatal =
      ap (λ l. send_queue sys (suc fuel) g k l >>= λ r. going (close_if_idle r.0 k r.1)) holds
      ∙ rw (one_refused error some bad fatal, send_queue)
          (ap going (stays_if_open (set_queue refused_world k q) k true (ground (arith, stays))))

-- If the first queued buffer of a listed object that is not closing has bytes, and its send fails
-- with another error than WSAEWOULDBLOCK, then a write event takes the object out of the list,
-- which runs on through the others, and gives it back with all that was still queued, but does not
-- close its handle: the send is the only call.
pub failed_send-unclosed :
    (sys : NbSystem) (fuel : ℕ) (writes : List ℕ) (g : NbWorld) (xs : List ℕ) (k : ℕ) (ys : List ℕ)
    (b : NbBuffer) (q : List NbBuffer) (error : ℕ)
    → IsOpen g (xs ++ k ∷ ys)
    → is_set (g.sockets k).s writes ≡ true
    → queue_of g k ≡ b ∷ q
    → (g.sockets k).closing ≡ false
    → 0 < b.buflen
    → sys.send g.calls (take b.buflen b.memory) ≡ unsent error
    → error ≢ would_block
    → (h : NbWorld) × (write_event sys (suc fuel) writes g k ≡ going (h, next_of g k))
      × (h.trace ≡ NbCall.sends k (take b.buflen b.memory) (peer_of g b) 0 ∷ g.trace)
      × (h.freed ≡ k ∷ g.freed)
      × IsOpen h (xs ++ ys)
unfolding write_event
failed_send-unclosed sys fuel writes g xs k ys b q error o set holds stays some bad fatal =
    let g₁ = note_call g (NbCall.sends k (take b.buflen b.memory) (peer_of g b) 0) in
    let e = set_queue g₁ k q in
    let t : Touches k g e =
      Touches-trans (Touches-send k g (take b.buflen b.memory) (peer_of g b) 0)
        (Touches-put k g₁ (g₁.sockets k).closing q) in
    let (next, trace, (freed, rest)) = Removed-after g e k xs ys t o in
    (
      (remove_and_advance e k).0,
      rw set (
            ap (λ m. m >>= λ r. going (unless_broken k r))
              (queue_refused sys fuel g k b q error holds stays some bad fatal))
          ∙ ap (λ n. going ((remove_and_advance e k).0, n)) next,
      trace,
      freed,
      rest,
    )

-- Nothing is queued: there is nothing to send.
idle_part :
    (sys : NbSystem) (fuel : ℕ) (h : NbWorld) (j : ℕ)
    → queue_of h j ≡ []
    → (h.sockets j).closing ≡ false
    → send_part sys fuel h j ≡ going (set_queue h j [], j)
unfolding send_pending_data send_queue
idle_part sys fuel h j idle stays =
    ap
      (λ l. (send_queue sys fuel h j l >>= λ r. going (close_if_idle r.0 j r.1)) >>= λ r.
        going (unless_broken j r))
      idle
    ∙ ap (λ r. going (unless_broken j r))
        (stays_if_open (set_queue h j []) j false (ground (arith, stays)))

-- What a removal leaves of the other objects.
removed_others :
    (e : NbWorld) (k j : ℕ)
    → let h = (remove_and_advance e k).0 in
      (queue_of h j ≡ queue_of e j)
      × ((h.sockets j).closing ≡ (e.sockets j).closing)
      × ((h.sockets j).s ≡ (e.sockets j).s)
unfolding remove_and_advance remove_socket_obj free_socket_obj
removed_others e k j = (ground arith, ground arith, ground arith)

-- The read event of a client whose receive fails, where an idle object stands behind it.
module _ (sys : NbSystem) (fuel : ℕ) (g : NbWorld) (k j : ℕ) where
  abbrev broken_world : NbWorld
  broken_world = close_socket (note_call (with_buffer g) (NbCall.receives k [])) k

  abbrev passed_world : NbWorld
  passed_world = set_queue (remove_and_advance broken_world k).0 j []

  broken-Touches : Touches k g broken_world
  broken-Touches = Touches-trans (Touches-counters k g _ _ _ _ _) (
      Touches-trans (Touches-receive k (with_buffer g) [])
        (Touches-close k (note_call (with_buffer g) (NbCall.receives k []))))

  receive_broken :
      (error : ℕ)
      → HasMemory sys g
      → sys.recv (g.calls + 2) ≡ refused error
      → error ≢ would_block
      → receive_pending_data sys g k ≡ going (broken_world, true)
  unfolding receive_into
  receive_broken error room bad fatal =
      let other : (error == would_block) ≡ false = ground (arith, fatal) in
      received_into sys g k room ∙ rw (bad, receive_into, other) refl

  read_passes :
      (reads : List ℕ) (error : ℕ)
      → (remove_and_advance broken_world k).1 ≡ j
      → j ≢ null
      → is_set (g.sockets k).s reads ≡ true
      → (g.sockets k).listening ≡ false
      → HasMemory sys g
      → sys.recv (g.calls + 2) ≡ refused error
      → error ≢ would_block
      → queue_of g j ≡ []
      → (g.sockets j).closing ≡ false
      → read_event sys fuel reads g k ≡ going (passed_world, j)
  unfolding read_event read_client
  read_passes reads error next alive set client room bad fatal idle stays =
      let h = (remove_and_advance broken_world k).0 in
      let (queue, closing, _) = removed_others broken_world k j in
      let some : (j == null) ≡ false = ground (arith, alive) in
      rw (set, client, receive_broken error room bad fatal)
        (ap (λ n. if n == null then going (h, n) else send_part sys fuel h n) next
          ∙ rw some (idle_part sys fuel h j (queue ∙ idle) (closing ∙ stays)))

-- If a read event of a listed client ends in a receive that fails for good, there is memory, and
-- the object behind it has nothing to send, is not closing and has neither a write nor an
-- exception event, then the body of the walk closes the client, takes it out of the list, and goes
-- on behind that object: also where it is ready to be read, or is a listening socket that is ready
-- to accept, there is no call for it.
pub removed-skips_next :
    (sys : NbSystem) (fuel : ℕ) (reads writes excepts : List ℕ) (g : NbWorld) (xs : List ℕ)
    (k j : ℕ) (ys : List ℕ) (error : ℕ)
    → IsOpen g (xs ++ k ∷ j ∷ ys)
    → is_set (g.sockets k).s reads ≡ true
    → (g.sockets k).listening ≡ false
    → HasMemory sys g
    → sys.recv (g.calls + 2) ≡ refused error
    → error ≢ would_block
    → queue_of g j ≡ []
    → (g.sockets j).closing ≡ false
    → is_set (g.sockets j).s writes ≡ false
    → is_set (g.sockets j).s excepts ≡ false
    → (h : NbWorld) × (visit sys fuel reads writes excepts g k ≡ going (h, next_of h j))
      × (h.trace ≡ NbCall.closes k (g.sockets k).s ∷ NbCall.receives k [] ∷ g.trace)
      × (h.freed ≡ k ∷ g.freed)
      × IsOpen h (xs ++ j ∷ ys)
unfolding visit write_event except_event
removed-skips_next sys fuel reads writes excepts g xs k j ys error o set client room bad fatal idle
      stays no_write no_except =
    let (_, (e, alive, _)) = Chain-at (next_of g) g.socket_list xs k (j ∷ ys) o.chain in
    let w = broken_world sys fuel g k j in
    let h = passed_world sys fuel g k j in
    let r = (remove_and_advance w k).0 in
    let (next, trace, (freed, rest)) =
      Removed-after g w k xs (j ∷ ys) (broken-Touches sys fuel g k j) o in
    let (_, _, handle) = removed_others w k j in
    let same : (h.sockets j).s ≡ (g.sockets j).s =
      let t : (h.sockets j).s ≡ (r.sockets j).s = ground arith in t ∙ handle in
    let writes_none : is_set (h.sockets j).s writes ≡ false =
      ap (λ s. is_set s writes) same ∙ no_write in
    let excepts_none : is_set (h.sockets j).s excepts ≡ false =
      ap (λ s. is_set s excepts) same ∙ no_except in
    let some : (j == null) ≡ false = ground (arith, alive) in
    (
      h,
      rw
          (read_passes sys fuel g k j reads error (next ∙ e) alive set client room bad fatal idle
            stays)
          (rw some (rw writes_none (rw some (rw excepts_none (rw some refl))))),
      trace,
      freed,
      IsOpen-Touches j r h (xs ++ j ∷ ys) (Touches-put j r (r.sockets j).closing []) rest,
    )
