-- ===== src/Select/Loop/Serving.antt =====
-- The walk of `main` of chapter05/nonblocking/server/nbserver.cpp to its end, and any number of rounds of
-- its loop.
use network_programming_for.Base.{
  ℕ, zero, suc, ◌+◌, ◌*◌, ◌≤◌, ◌<◌, ◌≡◌, sym, subst, refl, Bool, true, false, List, [], ◌∷◌, ◌++◌,
  ◌==◌, ltb, u32, ◌^◌, ◌-◌, Bool-cases, inl, inr, arith, null, append-nil, Chain, Chain-at, length,
}
use network_programming_for.Iocp.Stats.{seconds_since}
use network_programming_for.Select.State.{
  NbSystem, Selected, select_error, timed_out, ready, NbWorld, Flow, going, exited, stuck,
}
use network_programming_for.Select.Objects.Links.{next_of, IsOpen-same}
use network_programming_for.Select.Transfer.Streams.{Ends, Ends->>=}
use network_programming_for.Select.Transfer.Sending.{IsWhole}
use network_programming_for.Select.Loop.{
  visit, walk, fill_sets, print_statistics, print_if_due, on_select, serve_once, serve,
}
use network_programming_for.Select.Loop.Invariant.{IsServing, IsStreaming-same}
use network_programming_for.Select.Loop.Cursor.{listening_of, weight, Heads}
use network_programming_for.Select.Loop.Walk.{Remaining, visit-Remaining}

-- The server still serves some list.
abbrev pub StillServing : NbWorld → Type 0
StillServing h = (zs : List ℕ) × IsServing h zs

module _ (sys : NbSystem) (fuel : ℕ) (reads writes excepts : List ℕ) where
  walk_next :
      (steps limit : ℕ) (g : NbWorld) (p : ℕ) (out : Flow (NbWorld × ℕ))
      → (p == null) ≡ false
      → visit sys fuel reads writes excepts g p ≡ out
      → Ends (Remaining limit) out
      → ((h : NbWorld) (q : ℕ)
          → Remaining limit (h, q)
          → Ends StillServing (walk sys steps fuel reads writes excepts h q))
      → Ends StillServing (walk sys (suc steps) fuel reads writes excepts g p)
  unfolding walk
  walk_next steps limit g p exited some e done rest = rw (some, walk, e) tt
  walk_next steps limit g p stuck some e done rest = absurd done
  walk_next steps limit g p (going (h, q)) some e done rest = rw (some, walk, e) (rest h q done)

module _ (sys : NbSystem) (whole : IsWhole sys) (fuel : ℕ) where
  walk-Serving :
      (reads writes excepts : List ℕ) (steps : ℕ) (g : NbWorld) (p : ℕ) (xs ys : List ℕ)
      → IsServing g (xs ++ ys)
      → Heads p ys
      → weight (listening_of g) ys < steps
      → Ends StillServing (walk sys steps (suc (suc fuel)) reads writes excepts g p)
  unfolding walk
  walk-Serving reads writes excepts zero g p xs ys s h w = absurd (omega arith)
  walk-Serving reads writes excepts (suc steps) g p xs [] s h w =
      let end : (p == null) ≡ true = ground (arith, h) in
      rw (end, walk) (xs, subst (IsServing g) (append-nil xs) s)
  walk-Serving reads writes excepts (suc zero) g p xs (k ∷ ys) s h w = absurd (ground (arith, w))
  walk-Serving reads writes excepts (suc (suc steps)) g p xs (k ∷ ys) s h w =
      let (alive, _) = Chain-at (next_of g) g.socket_list xs k ys s.linked.chain in
      let some : (p == null) ≡ false = ground (arith, alive, h) in
      walk_next sys (suc (suc fuel)) reads writes excepts (suc steps) steps g p _ some refl
        (subst (λ q. Ends (Remaining steps) (visit sys (suc (suc fuel)) reads writes excepts g q))
          (sym h)
          (visit-Remaining sys whole fuel reads writes excepts steps g xs k ys s
            (omega (arith, w))))
        (λ i q (us, vs, t, at, left).
          walk-Serving reads writes excepts (suc steps) i q us vs t at (omega (arith, left)))

-- The loop that fills the sets comes to the end of the list.
fill_sets_total :
    (sys : NbSystem) (g : NbWorld) (steps p : ℕ) (ys : List ℕ) (set : List ℕ)
    → Chain (next_of g) p ys
    → length ys < steps
    → (full : List ℕ) × (fill_sets sys steps g p set ≡ going full)
unfolding fill_sets
fill_sets_total sys g zero p ys set c h = absurd (omega arith)
fill_sets_total sys g (suc steps) p [] set c h =
    let end : (p == null) ≡ true = ground (arith, c) in (set, rw (end, fill_sets) refl)
fill_sets_total sys g (suc steps) p (y ∷ ys) set (e, alive, c) h =
    let some : (p == null) ≡ false = ground (arith, alive, e) in
    let behind : Chain (next_of g) (next_of g p) ys =
      subst (λ q. Chain (next_of g) (next_of g q) ys) (sym e) c in
    let (full, run) =
      fill_sets_total sys g steps (next_of g p) ys (sys.fd_set (g.sockets p).s set) behind
        (omega arith) in
    (full, rw (some, fill_sets) run)

weight-le : (f : ℕ → Bool) (ys : List ℕ) → weight f ys ≤ 2 * length ys
weight-le f [] = omega arith
weight-le f (y ∷ ys) = let ih = weight-le f ys in ground (arith, ih)

-- Counters and clocks are no part of what is served.
abbrev pub counted :
    NbWorld → (bytes_read_last bytes_sent_last start_time start_time_last calls clock : ℕ) → NbWorld
counted g a b s c d e = record g {
  bytes_read_last = a;
  bytes_sent_last = b;
  start_time = s;
  start_time_last = c;
  calls = d;
  clock = e;
}

pub IsServing-counted :
    (g : NbWorld) (zs : List ℕ) (a b s c d e : ℕ)
    → IsServing g zs
    → IsServing (counted g a b s c d e) zs
IsServing-counted g zs a b s c d e serving = record {
  linked = IsOpen-same g _ zs refl refl refl refl refl refl refl serving.linked;
  streaming = IsStreaming-same g _ zs (λ q. refl) refl refl refl serving.streaming;
}

print_statistics-StillServing :
    (sys : NbSystem) (g : NbWorld) → StillServing g → StillServing (print_statistics sys g)
unfolding print_statistics
print_statistics-StillServing sys g (zs, s) =
    elim (Bool-cases (seconds_since (sys.tick g.clock) g.start_time == 0)) [
      | inl young ↦ rw young (zs, IsServing-counted g zs _ _ _ _ _ _ s)
      | inr old ↦ elim (Bool-cases (seconds_since (sys.tick g.clock) g.start_time_last == 0)) [
        | inl soon ↦ rw (old, soon) (zs, IsServing-counted g zs _ _ _ _ _ _ s)
        | inr due ↦ rw (old, due) (zs, IsServing-counted g zs _ _ _ _ _ _ s)
      ]
    ]

print_if_due-StillServing :
    (sys : NbSystem) (g : NbWorld) (last : ℕ)
    → StillServing g
    → StillServing (print_if_due sys g last).0
unfolding print_if_due
print_if_due-StillServing sys g last (zs, s) =
    let g₁ = record g { clock = g.clock + 1 } in
    let (us, t) = print_statistics-StillServing sys g₁ (zs, IsServing-counted g zs _ _ _ _ _ _ s) in
    elim (Bool-cases (ltb 5000 (u32 (sys.tick g.clock + 2 ^ 32 - last)))) [
      | inl due ↦ rw due (us, IsServing-counted (print_statistics sys g₁) us _ _ _ _ _ _ t)
      | inr early ↦ rw early (zs, IsServing-counted g zs _ _ _ _ _ _ s)
    ]

module _ (sys : NbSystem) (whole : IsWhole sys) (fuel : ℕ) where
  on_select-Serving :
      (steps : ℕ) (g : NbWorld) (zs : List ℕ) (answer : Selected)
      → IsServing g zs
      → 2 * g.socket_count < steps
      → Ends StillServing (on_select sys steps (suc (suc fuel)) g answer)
  on_select-Serving steps g zs select_error s w = tt
  on_select-Serving steps g zs timed_out s w = print_statistics-StillServing sys g (zs, s)
  on_select-Serving steps g zs (ready reads writes excepts) s w =
      let n = s.linked.count in
      let most = weight-le (listening_of g) zs in
      walk-Serving sys whole fuel reads writes excepts steps g g.socket_list [] zs s
        (Heads-first zs s.linked.chain) (omega (arith, n, most, w))
    where
      Heads-first : (ys : List ℕ) → Chain (next_of g) g.socket_list ys → Heads g.socket_list ys
      Heads-first [] c = c
      Heads-first (y ∷ ys) c = c.0

  serve_once-Serving :
      (steps : ℕ) (r : NbWorld × ℕ) (zs : List ℕ)
      → IsServing r.0 zs
      → 2 * r.0.socket_count < steps
      → Ends (λ (q : NbWorld × ℕ). StillServing q.0) (serve_once sys steps (suc (suc fuel)) r)
  unfolding serve_once
  serve_once-Serving steps (g, last) zs s w =
      let n = s.linked.count in
      let (set, filled) =
        fill_sets_total sys g steps g.socket_list zs [] s.linked.chain (omega (arith, n, w)) in
      rw filled (
        Ends->>= StillServing (λ (q : NbWorld × ℕ). StillServing q.0)
          (on_select sys steps (suc (suc fuel)) (record g { calls = g.calls + 1 })
            (sys.select g.calls set))
          (λ h. going (print_if_due sys h last)) (λ h. print_if_due-StillServing sys h last)
          (on_select-Serving steps _ zs _ (IsServing-counted g zs _ _ _ _ _ _ s) w))

serve_next :
    (sys : NbSystem) (rounds fuel : ℕ) (steps : ℕ → ℕ) (r : NbWorld × ℕ) (out : Flow (NbWorld × ℕ))
    → serve_once sys (steps r.0.socket_count) fuel r ≡ out
    → Ends (λ (q : NbWorld × ℕ). StillServing q.0) out
    → ((q : NbWorld × ℕ)
        → StillServing q.0
        → Ends (λ (q : NbWorld × ℕ). StillServing q.0) (serve sys rounds fuel steps q))
    → Ends (λ (q : NbWorld × ℕ). StillServing q.0) (serve sys (suc rounds) fuel steps r)
unfolding serve
serve_next sys rounds fuel steps r exited e done rest = rw (e, serve) tt
serve_next sys rounds fuel steps r stuck e done rest = absurd done
serve_next sys rounds fuel steps r (going q) e done rest = rw (e, serve) (rest q done)

-- If every send takes all that it is offered or fails, the list of a TCP server runs through objects
-- that were not given back and the streams are in order, then with fuel of at least 2, and more
-- steps for a walk than twice the number of objects, every number of rounds of the loop of main ends
-- by itself, whatever the system answers: either the process has ended, or the list again runs
-- through objects that were not given back, with the right end and count, each listed object has
-- received exactly the bytes that were sent for it and then those it still holds, and for any
-- object what was sent is how the bytes that it received start.
pub serve-StillServing :
    (sys : NbSystem)
    → IsWhole sys
    → (rounds fuel : ℕ) (steps : ℕ → ℕ) (r : NbWorld × ℕ) → ((n : ℕ) → 2 * n < steps n)
    → StillServing r.0
    → Ends (λ (q : NbWorld × ℕ). StillServing q.0) (serve sys rounds (suc (suc fuel)) steps r)
unfolding serve
serve-StillServing sys whole zero fuel steps r enough s = s
serve-StillServing sys whole (suc rounds) fuel steps r enough (zs, s) =
    serve_next sys rounds (suc (suc fuel)) steps r _ refl
      (serve_once-Serving sys whole fuel (steps r.0.socket_count) r zs s (enough r.0.socket_count))
      (λ q t. serve-StillServing sys whole rounds fuel steps q enough t)
