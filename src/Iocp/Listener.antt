-- ===== src/Iocp/Listener.antt =====
-- The listening thread, `main` of chapter06/iocpserver.cpp: its set-up and its loop over the events
-- of the listening sockets. The calls that load the extension functions, bind and listen end the
-- process when they fail, and have no other effect here.
pub mod Limits
pub mod Stale
use network_programming_for.Base.{
  ℕ, zero, suc, ◌+◌, ◌-◌, ◌*◌, ◌/◌, ◌%◌, ◌^◌, Bool, true, false, List, [], ◌∷◌, ◌++◌, Option, none,
  some, ◌==◌, ◌&&◌, not, if◌then◌else◌, null, ltb, u32, signed_ltb, length,
}
use network_programming_for.Iocp.State.{
  Server, Call, Answer, success, failure, set_buffer, set_listen, record_call, count_call,
  burst_accept_count, invalid_socket,
}
use network_programming_for.Iocp.Accepts.{insert_pending_accept}
use network_programming_for.Iocp.Pools.{get_buffer_obj}
use network_programming_for.Iocp.Post.{post_accept}

-- The buffer size, rounded up to whole pages.
pub round_buffer_size : (buffer_size page : ℕ) → ℕ
round_buffer_size buffer_size page =
    if not (buffer_size % page == 0) then u32 ((buffer_size / page + 1) * page) else buffer_size

-- `MAX_COMPLETION_THREAD_COUNT`, which is also the length of `WaitEvents`.
abbrev pub max_completion_thread_count : ℕ
max_completion_thread_count = 32

unfoldable pub worker_count : (processors : ℕ) → ℕ
worker_count processors =
    if ltb max_completion_thread_count processors then max_completion_thread_count else processors

-- `WaitEvents[waitcount++] = handle;`, a fault past the end of the array.
pub add_event : List ℕ → ℕ → Option (List ℕ)
add_event events handle =
    if ltb (length events) max_completion_thread_count then some (events ++ handle ∷ []) else none

infixl 5 ◌>>=◌
abbrev ◌>>=◌ : {A B : Type 0} → Option A → (A → Option B) → Option B
none >>= f = none
some a >>= f = f a

-- The handles of the workers, as many as there are.
pub add_all : List ℕ → List ℕ → Option (List ℕ)
unfolding add_event
add_all events [] = some events
add_all events (h ∷ hs) = add_event events h >>= λ more. add_all more hs

-- Two events for each listening socket, behind the threads.
pub add_listens : List ℕ → List (ℕ × ℕ) → Option (List ℕ)
unfolding add_event
add_listens events [] = some events
add_listens events ((accept_event, repost_accept) ∷ ls) = do
  with_accept ← add_event events accept_event
  with_both ← add_event with_accept repost_accept
  add_listens with_both ls

pub wait_events : (threads : List ℕ) → (listens : List (ℕ × ℕ)) → Option (List ℕ)
unfolding add_all add_listens
wait_events threads listens = add_all [] threads >>= λ events. add_listens events listens

-- `SO_CONNECT_TIME` in seconds, all ones where the socket is not connected.
abbrev pub is_stale : ℕ → Bool
is_stale optval = not (optval == 2 ^ 32 - 1) && signed_ltb 300 optval

module _ (api : ℕ → Answer) where
  -- One more accept on the listening socket, if there is a buffer for it.
  pub post_one : Server → (listenobj : ℕ) → Bool × Server
  post_one g listenobj =
      let (acceptobj, g₁) = get_buffer_obj api g g.buffer_size in
      if acceptobj == null
      then (false, g₁)
      else (let b = record (g₁.buffers acceptobj) {
        post_accept = (g₁.listens listenobj).accept_event;
      } in
          let g₂ = insert_pending_accept (set_buffer g₁ acceptobj b) listenobj acceptobj in
          (true, (post_accept api g₂ listenobj acceptobj).0))

  -- `for(i=0; i < gInitialAccepts ;i++)`; `none` is the exit for lack of memory.
  unfoldable pub post_initial_accepts : (rounds : ℕ) → Server → (listenobj : ℕ) → Option Server
  unfolding post_one
  post_initial_accepts zero g listenobj = some g
  post_initial_accepts (suc rounds) g listenobj = elim (post_one g listenobj).0 [
    | true ↦ post_initial_accepts rounds (post_one g listenobj).1 listenobj
    | false ↦ none
  ]

  -- `while ( (i++ < limit) && (PendingAcceptCount < gMaxAccepts) )`, with the rounds left.
  pub repost_accepts : (limit : ℕ) → Server → (listenobj : ℕ) → Server
  unfolding post_one
  repost_accepts zero g listenobj = g
  repost_accepts (suc limit) g listenobj =
      elim (signed_ltb (g.listens listenobj).pending_accept_count g.max_accepts) [
        | true ↦ repost_accepts limit (post_one g listenobj).1 listenobj
        | false ↦ g
      ]

  -- The two events of a listening socket: connections that wait (`burst` tells of FD_ACCEPT), and
  -- accepts that have completed, whose number is taken.
  pub on_event : (burst : Bool) → Server → (listenobj event : ℕ) → Server
  on_event burst g listenobj event =
      let l = g.listens listenobj in
      if l.accept_event == event
      then (if burst then repost_accepts burst_accept_count g listenobj else g)
      else if l.repost_accept == event
      then (let g₁ =
            set_listen g listenobj (record l { repost_count = 0; repost_signaled = false }) in
          if signed_ltb 0 l.repost_count then repost_accepts l.repost_count g₁ listenobj else g₁)
      else g

  pub close_if_stale : Server → (acceptobj : ℕ) → Server
  close_if_stale g acceptobj =
      let b = g.buffers acceptobj in
      let g₁ = count_call g (Call.get_connect_time b.sclient) in
      elim (api g.calls) [
        | failure _ ↦ g₁
        | success optval ↦
            if is_stale optval
            then set_buffer (record_call g₁ (Call.close_socket b.sclient)) acceptobj
                (record b { sclient = invalid_socket })
            else g₁
      ]

  -- The walk along the pending accepts of one listening socket.
  pub close_stale : (fuel : ℕ) → Server → (acceptobj : ℕ) → Server
  unfolding close_if_stale
  close_stale zero g acceptobj = g
  close_stale (suc fuel) g acceptobj = elim (acceptobj == null) [
    | true ↦ g
    | false ↦ let g₁ = close_if_stale g acceptobj in close_stale fuel g₁ (g₁.buffers acceptobj).next
  ]
