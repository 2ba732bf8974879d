-- ===== src/Select/Loop/Walk.antt =====
-- The body of the walk in `main` of chapter05/nonblocking/server/nbserver.cpp, and the whole walk, where
-- every send takes all that it is offered or fails.
use network_programming_for.Base.{
  ℕ, suc, ◌+◌, ◌≤◌, ◌≡◌, ◌∙◌, sym, subst, refl, Bool, true, false, List, [], ◌∷◌, ◌++◌, ◌==◌,
  if◌then◌else◌, Option-cases, Bool-cases, inl, inr, arith, null, All-back, append-nil,
  append_assoc,
}
use network_programming_for.Select.State.{NbSystem, NbWorld, Flow, going, ◌>>=◌}
use network_programming_for.Select.Objects.{get_socket_obj}
use network_programming_for.Select.Transfer.{queue_of, receive_pending_data, send_pending_data}
use network_programming_for.Select.Transfer.Streams.{
  sent, queue_bytes, Ends, Ends->>=, Touches-refl, IsOpen-Touches,
}
use network_programming_for.Select.Transfer.Sending.{IsWhole, After, send_pending_data-After}
use network_programming_for.Select.Transfer.Receiving.{Received, receive_pending_data-Received}
use network_programming_for.Select.Loop.{
  is_set, unless_broken, accept_connection, send_part, read_client, read_event, write_event,
  except_event, unless_end, visit,
}
use network_programming_for.Select.Loop.Invariant.{IsLive, IsServing}
use network_programming_for.Select.Loop.Cursor.{
  listening_of, weight, Heads, Cursor, Heads-next, on_head, Cursor-stays, Cursor-removed,
  Cursor-added,
}

IsLive-of :
    (g : NbWorld) (xs : List ℕ) (k : ℕ) (ys : List ℕ) → IsServing g (xs ++ k ∷ ys) → IsLive g k
IsLive-of g xs k ys s = (All-back (IsLive g) xs (k ∷ ys) s.streaming.live).0

module _ (limit k : ℕ) (g : NbWorld) (xs ys : List ℕ) (s : IsServing g (xs ++ k ∷ ys))
    (w : weight (listening_of g) ys ≤ limit) where
  after_send :
      (r : NbWorld × Bool)
      → After k (sent k g.trace ++ queue_bytes (queue_of g k)) g r
      → Cursor limit (unless_broken k r)
  after_send (h, false) (t, got, full, streams) =
      Cursor-stays limit k g h xs ys s t w (got ∙ (IsLive-of g xs k ys s).0 ∙ sym streams, full)
  after_send (h, true) (t, got, full, (rest, streams)) =
      Cursor-removed limit k g h xs ys s t w (rest, got ∙ (IsLive-of g xs k ys s).0 ∙ sym streams)
        (IsOpen-Touches k g h (xs ++ k ∷ ys) t s.linked)

  after_receive : (r : NbWorld × Bool) → Received k g r → Cursor limit (unless_broken k r)
  after_receive (h, false) (t, full, e) = Cursor-stays limit k g h xs ys s t w (e, full)
  after_receive (h, true) (t, full, e) =
      Cursor-removed limit k g h xs ys s t w (queue_bytes (queue_of h k), e)
        (IsOpen-Touches k g h (xs ++ k ∷ ys) t s.linked)

  except_event-Cursor : (excepts : List ℕ) → Cursor limit (except_event excepts g k)
  unfolding except_event
  except_event-Cursor excepts =
      let l = IsLive-of g xs k ys s in
      elim (Bool-cases (is_set (g.sockets k).s excepts)) [
        | inl set ↦ rw set (
            Cursor-removed limit k g g xs ys s (Touches-refl k g) w
              (queue_bytes (queue_of g k), l.0) s.linked)
        | inr clear ↦ rw clear (Cursor-stays limit k g g xs ys s (Touches-refl k g) w l)
      ]

  accept_connection-Cursor :
      (sys : NbSystem)
      → weight (listening_of g) ys + 1 ≤ limit
      → Ends (Cursor limit) (accept_connection sys g k)
  unfolding accept_connection get_socket_obj
  accept_connection-Cursor sys room = elim (Bool-cases (sys.memory g.calls)) [
    | inr full ↦ rw full tt
    | inl one ↦ elim (Option-cases (sys.accept (g.calls + 1))) [
      | inl bad ↦ rw (one, bad) tt
      | inr ((handle, peer), ok) ↦
          rw (one, ok)
            (Cursor-added limit k g _ xs ys s
              (record {
                others = λ q n. ground (arith, n);
                pending = ground arith;
                list = refl;
                end = refl;
                count = refl;
                freed = refl;
                heap = refl;
                tcp = refl;
                trace = refl;
              })
              (ground arith) room)
    ]
  ]

module _ (sys : NbSystem) (whole : IsWhole sys) (fuel limit : ℕ) where
  send_part-Cursor :
      (g : NbWorld) (xs : List ℕ) (k : ℕ) (ys : List ℕ)
      → IsServing g (xs ++ k ∷ ys)
      → weight (listening_of g) ys ≤ limit
      → Ends (Cursor limit) (send_part sys (suc (suc fuel)) g k)
  send_part-Cursor g xs k ys s w =
      Ends->>= (After k (sent k g.trace ++ queue_bytes (queue_of g k)) g) (Cursor limit)
        (send_pending_data sys (suc (suc fuel)) g k) (λ r. going (unless_broken k r))
        (after_send limit k g xs ys s w)
        (send_pending_data-After sys whole fuel k g s.streaming.tcp (IsLive-of g xs k ys s).1)

  -- The part of the body for the object that the pointer stands at, if there is one.
  at_head :
      (f : NbWorld → ℕ → Flow (NbWorld × ℕ))
      → ((g : NbWorld) (xs : List ℕ) (k : ℕ) (ys : List ℕ)
          → IsServing g (xs ++ k ∷ ys)
          → weight (listening_of g) ys ≤ limit
          → Ends (Cursor limit) (f g k))
      → (r : NbWorld × ℕ) → Cursor limit r
      → Ends (Cursor limit) (if r.1 == null then going r else f r.0 r.1)
  at_head f part (g, p) c = elim (Bool-cases (p == null)) [
    | inl end ↦ rw end c
    | inr more ↦ rw more (
        on_head limit g p (Ends (Cursor limit) (f g p)) more c
          (λ xs k ys s e w. subst (λ q. Ends (Cursor limit) (f g q)) (sym e) (part g xs k ys s w)))
  ]

  read_client-Cursor :
      (g : NbWorld) (xs : List ℕ) (k : ℕ) (ys : List ℕ)
      → IsServing g (xs ++ k ∷ ys)
      → weight (listening_of g) ys ≤ limit
      → Ends (Cursor limit) (read_client sys (suc (suc fuel)) g k)
  unfolding read_client
  read_client-Cursor g xs k ys s w =
      let l = IsLive-of g xs k ys s in
      Ends->>= (Cursor limit) (Cursor limit)
        (receive_pending_data sys g k >>= λ r. going (unless_broken k r))
        (λ r. if r.1 == null then going r else send_part sys (suc (suc fuel)) r.0 r.1)
        (at_head (send_part sys (suc (suc fuel))) send_part-Cursor)
        (Ends->>= (Received k g) (Cursor limit) (receive_pending_data sys g k)
          (λ r. going (unless_broken k r)) (after_receive limit k g xs ys s w)
          (receive_pending_data-Received sys g k s.streaming.tcp l.1 l.0))

  write_event-Cursor :
      (writes : List ℕ) (g : NbWorld) (xs : List ℕ) (k : ℕ) (ys : List ℕ)
      → IsServing g (xs ++ k ∷ ys)
      → weight (listening_of g) ys ≤ limit
      → Ends (Cursor limit) (write_event sys (suc (suc fuel)) writes g k)
  unfolding write_event
  write_event-Cursor writes g xs k ys s w = elim (Bool-cases (is_set (g.sockets k).s writes)) [
    | inl set ↦ rw set (send_part-Cursor g xs k ys s w)
    | inr clear ↦
        rw clear (Cursor-stays limit k g g xs ys s (Touches-refl k g) w (IsLive-of g xs k ys s))
  ]

  -- The listening socket may add a client, for which there is room in the limit.
  read_event-Cursor :
      (reads : List ℕ) (g : NbWorld) (xs : List ℕ) (k : ℕ) (ys : List ℕ)
      → IsServing g (xs ++ k ∷ ys)
      → weight (listening_of g) ys ≤ limit
      → (listening_of g k ≡ true → weight (listening_of g) ys + 1 ≤ limit)
      → Ends (Cursor limit) (read_event sys (suc (suc fuel)) reads g k)
  unfolding read_event
  read_event-Cursor reads g xs k ys s w room = elim (Bool-cases (is_set (g.sockets k).s reads)) [
    | inl set ↦ elim (Bool-cases (g.sockets k).listening) [
      | inl listens ↦
          rw (set, listens) (accept_connection-Cursor limit k g xs ys s w sys (room listens))
      | inr client ↦ rw (set, client) (read_client-Cursor g xs k ys s w)
    ]
    | inr clear ↦
        rw clear (Cursor-stays limit k g g xs ys s (Touches-refl k g) w (IsLive-of g xs k ys s))
  ]

  -- A part behind a `continue`.
  unless_end-Cursor :
      (P : NbWorld × ℕ → Type 0) (f : NbWorld → ℕ → Flow (NbWorld × ℕ))
      → ((g : NbWorld) → Cursor limit (g, null) → P (g, null))
      → ((g : NbWorld) (xs : List ℕ) (k : ℕ) (ys : List ℕ)
          → IsServing g (xs ++ k ∷ ys)
          → weight (listening_of g) ys ≤ limit
          → Ends P (f g k))
      → (r : NbWorld × ℕ) → Cursor limit r
      → Ends P (unless_end r f)
  unless_end-Cursor P f end part (g, p) c = elim (Bool-cases (p == null)) [
    | inl e ↦
        let same : p ≡ null = ground (arith, e) in
        rw e (end g (subst (λ q. Cursor limit (g, q)) same c))
    | inr more ↦ rw more (
        on_head limit g p (Ends P (f g p)) more c
          (λ xs k ys s e w. subst (λ q. Ends P (f g q)) (sym e) (part g xs k ys s w)))
  ]

-- The pointer for the next round of the walk, and what is left of it.
abbrev pub Remaining : ℕ → NbWorld × ℕ → Type 0
Remaining limit (g, p) =
    (xs : List ℕ) × (ys : List ℕ) × IsServing g (xs ++ ys)
    × Heads p ys
    × (weight (listening_of g) ys ≤ limit)

end_of_list : (limit : ℕ) (g : NbWorld) → Cursor limit (g, null) → Remaining limit (g, null)
end_of_list limit g (xs, ys, s, h, w) =
    (xs ++ ys, [], subst (IsServing g) (sym (append-nil (xs ++ ys))) s, refl, omega arith)

moved_on :
    (limit : ℕ) (g : NbWorld) (xs : List ℕ) (k : ℕ) (ys : List ℕ)
    → IsServing g (xs ++ k ∷ ys)
    → weight (listening_of g) ys ≤ limit
    → Remaining limit (g, (g.sockets k).next)
moved_on limit g xs k ys s w = (
  xs ++ k ∷ [],
  ys,
  subst (IsServing g) (sym (append_assoc xs (k ∷ []) ys)) s,
  Heads-next g xs k ys s.linked,
  w,
)

module _ (sys : NbSystem) (whole : IsWhole sys) (fuel : ℕ) (reads writes excepts : List ℕ) where
  -- The body leaves less of the walk.
  pub visit-Remaining :
      (limit : ℕ) (g : NbWorld) (xs : List ℕ) (k : ℕ) (ys : List ℕ)
      → IsServing g (xs ++ k ∷ ys)
      → weight (listening_of g) (k ∷ ys) ≤ suc limit
      → Ends (Remaining limit) (visit sys (suc (suc fuel)) reads writes excepts g k)
  unfolding visit
  visit-Remaining limit g xs k ys s w =
      let low : weight (listening_of g) ys ≤ limit = ground (arith, w) in
      let room : listening_of g k ≡ true → weight (listening_of g) ys + 1 ≤ limit =
        λ e. ground (arith, e, w) in
      let last = λ (i : NbWorld) (p : ℕ). going (i, (i.sockets p).next) in
      let excepts_part = λ (h : NbWorld) (p : ℕ). unless_end (except_event excepts h p) last in
      let writes_part = λ (h : NbWorld) (p : ℕ).
        write_event sys (suc (suc fuel)) writes h p >>= λ r. unless_end r excepts_part in
      let finish = unless_end-Cursor sys whole fuel limit (Remaining limit) in
      let end = end_of_list limit in
      Ends->>= (Cursor limit) (Remaining limit) (read_event sys (suc (suc fuel)) reads g k)
        (λ r. unless_end r writes_part)
        (finish writes_part end (λ h zs j ws t v.
          Ends->>= (Cursor limit) (Remaining limit) (write_event sys (suc (suc fuel)) writes h j)
            (λ r. unless_end r excepts_part)
            (finish excepts_part end (λ i us m vs q u.
              finish last end (moved_on limit) (except_event excepts i m)
                (except_event-Cursor limit m i us vs q u excepts)))
            (write_event-Cursor sys whole fuel limit writes h zs j ws t v)))
        (read_event-Cursor sys whole fuel limit reads g xs k ys s low room)
