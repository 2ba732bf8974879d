-- ===== src/EventSelect/Threads.antt =====
-- The sockets of a thread in chapter05/WSAEventSelect/server/eventserver.cpp: `InsertSocketObj`,
-- `RemoveSocketObj`, `FindSocketObj` and `RenumberThreadArray`.
pub mod Matching
pub mod Assignment
use network_programming_for.Base.{
  ℕ, zero, suc, ◌+◌, Bool, true, false, List, [], ◌∷◌, ◌++◌, ◌==◌, ltb, if◌then◌else◌, Option, none,
  some, null, update, decrement, increment,
}
use network_programming_for.EventSelect.State.{EventWorld}

-- `THREAD_OBJ`. The list from `SocketList` to `SocketListEnd` is the list of the objects' addresses;
-- `signaled` tells whether `Event` is set.
pub record EventThread : Type 0 where
  pub socket_list : List ℕ
  pub socket_count : ℕ
  pub event : ℕ
  pub handles : ℕ → ℕ
  pub signaled : Bool

module _ (event_of : ℕ → ℕ) where
  -- The flag tells whether there was room. `MAXIMUM_WAIT_OBJECTS` is 64.
  unfoldable pub insert_socket_obj : EventThread → (sock : ℕ) → EventThread × Bool
  insert_socket_obj t sock =
      if ltb t.socket_count 63
      then (
        record t {
          socket_list = t.socket_list ++ sock ∷ [];
          socket_count = t.socket_count + 1;
          handles = update t.handles (t.socket_count + 1) (event_of sock);
        },
        true,
      )
      else (t, false)

  -- The events of the list, from this entry of the array on.
  unfoldable pub write_handles : (ℕ → ℕ) → ℕ → List ℕ → ℕ → ℕ
  write_handles f i [] = f
  write_handles f i (sptr ∷ rest) = write_handles (update f i (event_of sptr)) (suc i) rest

  unfoldable pub renumber_thread_array : EventThread → EventThread
  renumber_thread_array t = record t { handles = write_handles t.handles 1 t.socket_list }

-- The object is unlinked.
unfoldable pub unlink_socket : List ℕ → (sock : ℕ) → List ℕ
unlink_socket [] sock = []
unlink_socket (p ∷ ps) sock = let rest = unlink_socket ps sock in if p == sock then ps else p ∷ rest

unfoldable pub remove_socket_obj : EventWorld → EventThread → (sock : ℕ) → EventWorld × EventThread
unfolding unlink_socket
remove_socket_obj g t sock = (
  record g { current_connections = decrement g.current_connections },
  record t {
    socket_list = unlink_socket t.socket_list sock;
    socket_count = decrement t.socket_count;
    signaled = true;
  },
)

-- none: the loop reads `next` through NULL.
unfoldable pub find_socket_obj : List ℕ → (index : ℕ) → Option ℕ
find_socket_obj [] zero = some null
find_socket_obj (p ∷ ps) zero = some p
find_socket_obj [] (suc i) = none
find_socket_obj (p ∷ ps) (suc i) = find_socket_obj ps i

-- `GetThreadObj`, where the system creates the event.
unfoldable pub get_thread_obj : (event : ℕ) → EventThread
get_thread_obj event = record {
  socket_list = [];
  socket_count = 0;
  event = event;
  handles = λ i. if i == 0 then event else 0;
  signaled = false;
}

-- `WSASetEvent`
abbrev pub signal : EventThread → EventThread
signal t = record t { signaled = true }

-- `AssignToFreeThread`: the first thread with room, or else a new one in front of the others.
module _ (event_of : ℕ → ℕ) where
  unfoldable pub insert_into_any : List EventThread → (sock : ℕ) → List EventThread × Bool
  unfolding insert_socket_obj
  insert_into_any [] sock = ([], false)
  insert_into_any (t ∷ ts) sock =
      let (t', done) = insert_socket_obj event_of t sock in
      let (rest, found) = insert_into_any ts sock in
      if done then (signal t' ∷ ts, true) else (t ∷ rest, found)

  unfoldable pub assign_to_free_thread : List EventThread → (new_event sock : ℕ) → List EventThread
  unfolding insert_into_any get_thread_obj
  assign_to_free_thread ts new_event sock =
      let (after, found) = insert_into_any ts sock in
      if found
      then after
      else signal (insert_socket_obj event_of (get_thread_obj new_event) sock).0 ∷ ts
