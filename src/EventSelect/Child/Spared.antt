-- ===== src/EventSelect/Child/Spared.antt =====
-- `HandleIo` of chapter05/WSAEventSelect/server/eventserver.cpp leaves the thread object as it is, or
-- takes the socket out of it.
use network_programming_for.Base.{
  ℕ, ◌≡◌, sym, subst, refl, Bool, true, false, ◌==◌, Option, none, some, ◌⊎◌, inl, inr, Bool-cases,
}
use network_programming_for.EventSelect.State.{System, EventWorld}
use network_programming_for.EventSelect.Sending.{
  Code, broken, nothing_more, got_data, blocked, send_pending_data,
}
use network_programming_for.EventSelect.Threads.{EventThread, remove_socket_obj}
use network_programming_for.EventSelect.Handler.{
  carry_on, unless_broken, give_up, remove_and_free, read_event, write_event, close_event,
  receive_pending_data, receive_rest, handle_events,
}

-- The thread object after a part of the handler: as before, or without the socket.
abbrev pub Spared : EventThread → (sock : ℕ) → Option (EventWorld × EventThread × Bool) → Type 0
Spared t k none = Unit {0}
Spared t k (some (g, t₁, true)) = t₁ ≡ t
Spared t k (some (g, t₁, false)) = (t₁ ≡ t) ⊎ (t₁ ≡ (remove_socket_obj g t k).1)

module _ (sys : System) (t : EventThread) (k : ℕ) where
  gone : (g : EventWorld) → Spared t k (give_up sys g t k)
  unfolding remove_and_free remove_socket_obj
  gone g = inr refl

  unless_broken-Spared : (o : Option (EventWorld × Code)) → Spared t k (unless_broken sys t k o)
  unless_broken-Spared none = tt
  unless_broken-Spared (some (g, broken)) = gone g
  unless_broken-Spared (some (g, nothing_more)) = refl
  unless_broken-Spared (some (g, got_data)) = refl
  unless_broken-Spared (some (g, blocked)) = refl

  carry_on-Spared :
      (s : Option (EventWorld × EventThread × Bool))
      (f : EventWorld → EventThread → Option (EventWorld × EventThread × Bool))
      → Spared t k s
      → ((g : EventWorld) → Spared t k (f g t))
      → Spared t k (carry_on sys s f)
  carry_on-Spared none f a b = tt
  carry_on-Spared (some (g, t₁, true)) f a b = subst (λ u. Spared t k (f g u)) (sym a) (b g)
  carry_on-Spared (some (g, t₁, false)) f a b = a

  reads-Spared :
      (fuel : ℕ) (g : EventWorld) (e : Option ℕ) → Spared t k (read_event sys fuel g t k e)
  unfolding read_event
  reads-Spared fuel g none = refl
  reads-Spared fuel g (some error) = elim (Bool-cases (error == 0)) [
    | inl fine ↦ rw fine (
        carry_on-Spared _ _ (unless_broken-Spared (receive_pending_data sys g k))
          (λ g₁. unless_broken-Spared (send_pending_data sys fuel g₁ k)))
    | inr bad ↦ rw bad (gone g)
  ]

  writes-Spared :
      (fuel : ℕ) (g : EventWorld) (e : Option ℕ) → Spared t k (write_event sys fuel g t k e)
  unfolding write_event
  writes-Spared fuel g none = refl
  writes-Spared fuel g (some error) = elim (Bool-cases (error == 0)) [
    | inl fine ↦ rw fine (unless_broken-Spared (send_pending_data sys fuel g k))
    | inr bad ↦ rw bad (inl refl)
  ]

  closes-Spared :
      (fuel : ℕ) (g : EventWorld) (e : Option ℕ) → Spared t k (close_event sys fuel g t k e)
  unfolding close_event
  closes-Spared fuel g none = refl
  closes-Spared fuel g (some error) = elim (Bool-cases (error == 0)) [
    | inl fine ↦ rw fine (
        carry_on-Spared _ _ (unless_broken-Spared (receive_rest sys fuel g k))
          (λ g₁. unless_broken-Spared (send_pending_data sys fuel g₁ k)))
    | inr bad ↦ rw bad (gone g)
  ]

  pub handle_events-Spared :
      (fuel : ℕ) (g : EventWorld) (r : Option (Option ℕ × Option ℕ × Option ℕ))
      → Spared t k (handle_events sys fuel g t k r)
  unfolding handle_events
  handle_events-Spared fuel g none = inl refl
  handle_events-Spared fuel g (some (reads, writes, closes)) =
      carry_on-Spared _ _
        (carry_on-Spared _ _ (reads-Spared fuel g reads) (λ g₁. writes-Spared fuel g₁ writes))
        (λ g₂. closes-Spared fuel g₂ closes)
