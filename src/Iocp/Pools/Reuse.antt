-- ===== src/Iocp/Pools/Reuse.antt =====
-- The lookaside lists of chapter06/iocpserver.cpp.
use network_programming_for.Base.{
  ℕ, zero, suc, ◌≤◌, ◌≡◌, ◌≢◌, refl, ap, List, [], ◌∷◌, arith, null, replicate, length, ◌==◌,
  if◌then◌else◌,
}
use network_programming_for.Iocp.State.{
  Server, Call, Answer, sizeof_sockaddr_storage, invalid_socket,
}
use network_programming_for.Iocp.Pools.{
  clear, zeroed_buffer, zeroed_socket, get_buffer_obj, free_buffer_obj, get_socket_obj,
  free_socket_obj,
}

length-clear : (n : ℕ) (xs : List ℕ) → length (clear n xs) ≡ length xs
unfolding clear
length-clear zero xs = refl
length-clear (suc n) [] = refl
length-clear (suc n) (x ∷ xs) = omega (arith, length-clear n xs)

clear-all : (n : ℕ) (xs : List ℕ) → length xs ≤ n → clear n xs ≡ replicate (length xs) 0
unfolding clear
clear-all zero [] h = refl
clear-all (suc n) [] h = refl
clear-all zero (x ∷ xs) h = absurd (omega arith)
clear-all (suc n) (x ∷ xs) h = ap (◌∷◌ 0) (clear-all n xs (omega arith))

-- A buffer that is not null, with no more memory than gBufferSize, is freed and a buffer of some
-- length is then asked for: the same buffer comes back, zeroed but for the length asked for and
-- the address length, the free list is what it was before, and no other buffer has changed.
pub get-free_buffer :
    (api : ℕ → Answer) (g : Server) (obj buflen : ℕ)
    → obj ≢ null
    → length (g.buffers obj).memory ≤ g.buffer_size
    → let (p, h) = get_buffer_obj api (free_buffer_obj g obj) buflen in
      (p ≡ obj)
      × (h.free_buffer_list ≡ g.free_buffer_list)
      × (h.buffers obj ≡ record (zeroed_buffer (replicate (length (g.buffers obj).memory) 0)) {
        buflen = buflen;
        addrlen = sizeof_sockaddr_storage;
      })
      × ((q : ℕ) → obj ≢ q → h.buffers q ≡ g.buffers q)
unfolding get_buffer_obj free_buffer_obj
get-free_buffer api g obj buflen live fits = (
  ground arith,
  ground arith,
  ground (arith, clear-all g.buffer_size (g.buffers obj).memory fits),
  λ q ne. ground arith,
)

-- A socket object that is not null is freed and one is then asked for: the same object comes back,
-- zeroed but for the handle and the family given, the free list is what it was before, and the
-- freeing closed the socket exactly where it was still open.
pub get-free_socket :
    (api : ℕ → Answer) (g : Server) (obj s af : ℕ)
    → obj ≢ null
    → let freed = free_socket_obj g obj in
      let (p, h) = get_socket_obj api freed s af in
      (p ≡ obj)
      × (h.free_socket_list ≡ g.free_socket_list)
      × (h.sockets obj ≡ record zeroed_socket { s = s; af = af })
      × (freed.trace ≡ (
          if (g.sockets obj).s == invalid_socket
          then g.trace
          else Call.close_socket (g.sockets obj).s ∷ g.trace))
unfolding get_socket_obj free_socket_obj
get-free_socket api g obj s af live = (ground arith, ground arith, ground arith, ground arith)
