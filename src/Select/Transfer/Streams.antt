-- ===== src/Select/Transfer/Streams.antt =====
-- What the calls of chapter05/nonblocking/server/nbserver.cpp show of one socket object, and what a
-- transfer for that object leaves alone.
use network_programming_for.Base.{
  ℕ, ◌≤◌, ◌≡◌, ◌≢◌, ◌∙◌, ap, subst, refl, fun_ext, Bool, true, false, List, [], ◌∷◌, ◌++◌, ◌==◌,
  if◌then◌else◌, Bool-cases, inl, inr, take, length, arith, append-nil,
}
use network_programming_for.Select.State.{
  NbBuffer, NbCall, receives, sends, closes, NbWorld, note_call, put_socket, Flow, going, exited,
  stuck, ◌>>=◌,
}
use network_programming_for.Select.Objects.Links.{next_of, prev_of, IsOpen, IsOpen-same}
use network_programming_for.Select.Transfer.{close_socket}

-- The bytes received for an object, and the bytes of its sends that were taken, the first ones first.
abbrev pub received : ℕ → List NbCall → List ℕ
received k [] = []
received k (receives j bytes ∷ t) = received k t ++ (if j == k then bytes else [])
received k (sends _ _ _ _ ∷ t) = received k t
received k (closes _ _ ∷ t) = received k t

abbrev pub sent : ℕ → List NbCall → List ℕ
sent k [] = []
sent k (receives _ _ ∷ t) = sent k t
sent k (sends j piece _ n ∷ t) = sent k t ++ (if j == k then take n piece else [])
sent k (closes _ _ ∷ t) = sent k t

-- The bytes that a buffer, and a queue, hold.
abbrev pub bytes_of : NbBuffer → List ℕ
bytes_of b = take b.buflen b.memory

abbrev pub queue_bytes : List NbBuffer → List ℕ
queue_bytes [] = []
queue_bytes (b ∷ q) = bytes_of b ++ queue_bytes q

-- No buffer claims more bytes than it has.
abbrev pub IsFilled : List NbBuffer → Type 0
IsFilled [] = Unit {0}
IsFilled (b ∷ q) = (b.buflen ≤ length b.memory) × IsFilled q

-- The part of the program does not run out of fuel, and what it leaves has the property.
abbrev pub Ends {ℓ} : {A : Type ℓ} → (A → Type 0) → Flow A → Type 0
Ends P (going a) = P a
Ends P exited = Unit {0}
Ends P stuck = ⊥

pub Ends-map {ℓ} :
    {A : Type ℓ} (P Q : A → Type 0) (m : Flow A) → ((a : A) → P a → Q a) → Ends P m → Ends Q m
Ends-map P Q (going a) f h = f a h
Ends-map P Q exited f h = tt
Ends-map P Q stuck f h = absurd h

pub Ends->>= {ℓ κ} :
    {A : Type ℓ} {B : Type κ} (P : A → Type 0) (Q : B → Type 0) (m : Flow A) (f : A → Flow B)
    → ((a : A) → P a → Ends Q (f a))
    → Ends P m
    → Ends Q (m >>= f)
Ends->>= P Q (going a) f next h = next a h
Ends->>= P Q exited f next h = tt
Ends->>= P Q stuck f next h = absurd h

-- Only the object `k` was served: the other objects, their bytes and the list are what they were.
pub record Touches (k : ℕ) (g h : NbWorld) : Type 0 where
  pub others : (q : ℕ) → k ≢ q → h.sockets q ≡ g.sockets q
  pub next : next_of h k ≡ next_of g k
  pub prev : prev_of h k ≡ prev_of g k
  pub listening : (h.sockets k).listening ≡ (g.sockets k).listening
  pub got : (q : ℕ) → k ≢ q → received q h.trace ≡ received q g.trace
  pub went : (q : ℕ) → k ≢ q → sent q h.trace ≡ sent q g.trace
  pub list : h.socket_list ≡ g.socket_list
  pub end : h.socket_list_end ≡ g.socket_list_end
  pub count : h.socket_count ≡ g.socket_count
  pub freed : h.freed ≡ g.freed
  pub heap : h.heap_next ≡ g.heap_next
  pub tcp : h.is_tcp ≡ g.is_tcp

pub Touches-refl : (k : ℕ) (g : NbWorld) → Touches k g g
Touches-refl k g = record {
  others = λ q n. refl;
  next = refl;
  prev = refl;
  listening = refl;
  got = λ q n. refl;
  went = λ q n. refl;
  list = refl;
  end = refl;
  count = refl;
  freed = refl;
  heap = refl;
  tcp = refl;
}

pub Touches-trans : {k : ℕ} {g h i : NbWorld} → Touches k g h → Touches k h i → Touches k g i
Touches-trans s t = record {
  others = λ q n. t.others q n ∙ s.others q n;
  next = t.next ∙ s.next;
  prev = t.prev ∙ s.prev;
  listening = t.listening ∙ s.listening;
  got = λ q n. t.got q n ∙ s.got q n;
  went = λ q n. t.went q n ∙ s.went q n;
  list = t.list ∙ s.list;
  end = t.end ∙ s.end;
  count = t.count ∙ s.count;
  freed = t.freed ∙ s.freed;
  heap = t.heap ∙ s.heap;
  tcp = t.tcp ∙ s.tcp;
}

-- Counters are no part of this, and the handle may be closed.
pub Touches-counters :
    (k : ℕ) (g : NbWorld) (read sent read_last sent_last calls : ℕ)
    → Touches k g (record g {
      bytes_read = read;
      bytes_sent = sent;
      bytes_read_last = read_last;
      bytes_sent_last = sent_last;
      calls = calls;
    })
Touches-counters k g a b c d e = record {
  others = λ q n. refl;
  next = refl;
  prev = refl;
  listening = refl;
  got = λ q n. refl;
  went = λ q n. refl;
  list = refl;
  end = refl;
  count = refl;
  freed = refl;
  heap = refl;
  tcp = refl;
}

pub Touches-close : (k : ℕ) (g : NbWorld) → Touches k g (close_socket g k)
Touches-close k g = record {
  others = λ q n. refl;
  next = refl;
  prev = refl;
  listening = refl;
  got = λ q n. refl;
  went = λ q n. refl;
  list = refl;
  end = refl;
  count = refl;
  freed = refl;
  heap = refl;
  tcp = refl;
}

-- A call for the object `k`, noted.
other_call : (k q : ℕ) (xs ys : List ℕ) → k ≢ q → xs ++ (if k == q then ys else []) ≡ xs
other_call k q xs ys n = let e : (k == q) ≡ false = ground (arith, n) in rw e (append-nil xs)

pub own_call : (k : ℕ) (xs ys : List ℕ) → xs ++ (if k == k then ys else []) ≡ xs ++ ys
own_call k xs ys = let e : (k == k) ≡ true = ground arith in rw e refl

Touches-call :
    (k : ℕ) (g : NbWorld) (c : NbCall)
    → ((q : ℕ) → k ≢ q → received q (c ∷ g.trace) ≡ received q g.trace)
    → ((q : ℕ) → k ≢ q → sent q (c ∷ g.trace) ≡ sent q g.trace)
    → Touches k g (note_call g c)
Touches-call k g c got went = record {
  others = λ q n. refl;
  next = refl;
  prev = refl;
  listening = refl;
  got = got;
  went = went;
  list = refl;
  end = refl;
  count = refl;
  freed = refl;
  heap = refl;
  tcp = refl;
}

pub Touches-receive :
    (k : ℕ) (g : NbWorld) (bytes : List ℕ) → Touches k g (note_call g (receives k bytes))
Touches-receive k g bytes =
    Touches-call k g (receives k bytes) (λ q n. other_call k q (received q g.trace) bytes n)
      (λ q n. refl)

pub Touches-send :
    (k : ℕ) (g : NbWorld) (piece : List ℕ) (peer n : ℕ)
    → Touches k g (note_call g (sends k piece peer n))
Touches-send k g piece peer m =
    Touches-call k g (sends k piece peer m) (λ q n. refl)
      (λ q n. other_call k q (sent q g.trace) (take m piece) n)

-- The state and the queue of the object are written.
pub Touches-put :
    (k : ℕ) (g : NbWorld) (closing : Bool) (q : List NbBuffer)
    → Touches k g (put_socket g k (record (g.sockets k) { closing = closing; pending = q }))
Touches-put k g closing queue = record {
  others = λ q n. ground (arith, n);
  next = ground arith;
  prev = ground arith;
  listening = ground arith;
  got = λ q n. refl;
  went = λ q n. refl;
  list = refl;
  end = refl;
  count = refl;
  freed = refl;
  heap = refl;
  tcp = refl;
}

-- The list stays open.
pub IsOpen-Touches :
    (k : ℕ) (g h : NbWorld) (xs : List ℕ) → Touches k g h → IsOpen g xs → IsOpen h xs
IsOpen-Touches k g h xs t o =
    let next : (q : ℕ) → next_of h q ≡ next_of g q = λ q. elim (Bool-cases (k == q)) [
      | inl e ↦ let s : k ≡ q = ground (arith, e) in subst (λ z. next_of h z ≡ next_of g z) s t.next
      | inr e ↦ ap (λ o. o.next) (t.others q (ground (arith, e)))
    ] in
    let prev : (q : ℕ) → prev_of h q ≡ prev_of g q = λ q. elim (Bool-cases (k == q)) [
      | inl e ↦ let s : k ≡ q = ground (arith, e) in subst (λ z. prev_of h z ≡ prev_of g z) s t.prev
      | inr e ↦ ap (λ o. o.prev) (t.others q (ground (arith, e)))
    ] in
    IsOpen-same g h xs (fun_ext next) (fun_ext prev) t.list t.end t.count t.freed t.heap o
