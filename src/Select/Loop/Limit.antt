-- ===== src/Select/Loop/Limit.antt =====
-- How many sockets the `select` of chapter05/nonblocking/server/nbserver.cpp can watch. The file defines
-- `FD_SET_SIZE`, which nothing reads, so that `FD_SETSIZE` keeps its value of 64.
use network_programming_for.Base.{
  ℕ, zero, suc, ◌<◌, ◌≡◌, ◌∙◌, sym, ap, refl, true, false, List, [], ◌∷◌, ◌++◌, ◌==◌, Bool-cases,
  inl, inr, arith, null, append-nil, append_assoc, take, length, length-append, take_all,
  take-append, NotIn, NotIn-append, IsDistinct, All, All-map, Chain,
}
use network_programming_for.Select.State.{NbSystem, NbWorld, going}
use network_programming_for.Select.Objects.Links.{next_of, IsOpen}
use network_programming_for.Select.Loop.{fill_sets}

-- `FD_SETSIZE` of winsock2.h, and what `FD_SET` does with a socket that is not in the set: it is put at
-- the end, or the set is full and nothing happens.
abbrev pub fd_setsize : ℕ
fd_setsize = 64

pub record IsFdSet (sys : NbSystem) : Type 0 where
  pub adds :
      (s : ℕ) (set : List ℕ)
      → length set < fd_setsize
      → NotIn s set
      → sys.fd_set s set ≡ set ++ s ∷ []
  pub full : (s : ℕ) (set : List ℕ) → length set ≡ fd_setsize → sys.fd_set s set ≡ set

-- The handles of the objects.
abbrev pub handles : NbWorld → List ℕ → List ℕ
handles g [] = []
handles g (x ∷ xs) = (g.sockets x).s ∷ handles g xs

module _ (sys : NbSystem) (g : NbWorld) (steps p y : ℕ) (ys set : List ℕ)
    (c : Chain (next_of g) p (y ∷ ys)) where
  pub fill_step :
      fill_sets sys (suc steps) g p set
      ≡ fill_sets sys steps g (next_of g y) (sys.fd_set (g.sockets y).s set)
  unfolding fill_sets
  fill_step =
      let e = c.0 in
      let alive = c.1 in
      let some : (p == null) ≡ false = ground (arith, alive, e) in
      rw (some, fill_sets)
        (ap (λ q. fill_sets sys steps g (next_of g q) (sys.fd_set (g.sockets q).s set)) e)

fill_end :
    (sys : NbSystem) (g : NbWorld) (steps p : ℕ) (set : List ℕ)
    → p ≡ null
    → fill_sets sys (suc steps) g p set ≡ going set
unfolding fill_sets
fill_end sys g steps p set e =
    let end : (p == null) ≡ true = ground (arith, e) in rw (end, fill_sets) refl

module _ (sys : NbSystem) (lib : IsFdSet sys) (g : NbWorld) where
  fill_full :
      (steps p : ℕ) (ys set : List ℕ)
      → Chain (next_of g) p ys
      → length ys < steps
      → length set ≡ fd_setsize
      → fill_sets sys steps g p set ≡ going set
  fill_full zero p ys set c h n = absurd (omega arith)
  fill_full (suc steps) p [] set c h n = fill_end sys g steps p set c
  fill_full (suc steps) p (y ∷ ys) set c h n =
      fill_step sys g steps p y ys set c
      ∙ ap (fill_sets sys steps g (next_of g y)) (lib.full (g.sockets y).s set n)
      ∙ fill_full steps (next_of g y) ys set c.2 (omega arith) n

  still_out :
      (s : ℕ) (set zs : List ℕ)
      → NotIn s zs
      → All (λ x. NotIn x set) zs
      → All (λ x. NotIn x (set ++ s ∷ [])) zs
  still_out s set zs out h =
      All-map {P = λ x. NotIn x set} {Q = λ x. NotIn x (set ++ s ∷ [])} s zs out
        (λ x n o. NotIn-append x s set o (λ e. n (sym e))) h

  fill_from :
      (steps p : ℕ) (ys set : List ℕ)
      → Chain (next_of g) p ys
      → length ys < steps
      → length set < suc fd_setsize
      → IsDistinct (handles g ys)
      → All (λ x. NotIn x set) (handles g ys)
      → fill_sets sys steps g p set ≡ going (take fd_setsize (set ++ handles g ys))
  fill_from zero p ys set c h n d o = absurd (omega arith)
  fill_from (suc steps) p [] set c h n d o =
      fill_end sys g steps p set c
      ∙ ap going
          (sym (ap (take fd_setsize) (append-nil set) ∙ take_all fd_setsize set (omega (arith, n))))
  fill_from (suc steps) p (y ∷ ys) set c h n d o = elim (Bool-cases (length set == fd_setsize)) [
    | inl e ↦
        let is_full : length set ≡ fd_setsize = ground (arith, e) in
        fill_full (suc steps) p (y ∷ ys) set c h is_full
        ∙ ap going (take_front set (handles g (y ∷ ys)) is_full)
    | inr e ↦
        let more : length set < fd_setsize = ground (arith, e, n) in
        let s = (g.sockets y).s in
        let set' = set ++ s ∷ [] in
        let room : length set' < suc fd_setsize = omega (arith, length-append set (s ∷ []), more) in
        fill_step sys g steps p y ys set c
        ∙ ap (fill_sets sys steps g (next_of g y)) (lib.adds s set more o.0)
        ∙ fill_from steps (next_of g y) ys set' c.2 (omega arith) room d.1
            (still_out s set (handles g ys) d.0 o.1)
        ∙ ap (λ l. going (take fd_setsize l)) (append_assoc set (s ∷ []) (handles g ys))
  ]
    where
      take_front : (xs zs : List ℕ) → length xs ≡ fd_setsize → xs ≡ take fd_setsize (xs ++ zs)
      take_front xs zs e = sym (take-append xs zs) ∙ ap (λ m. take m (xs ++ zs)) e

-- If FD_SET adds a socket that is not in the set as long as it holds fewer than 64, and does
-- nothing to a set of 64, the list of the server runs through objects with distinct handles, and
-- there are more steps than objects, then the loop of main that fills the sets ends, with the
-- handles of the first 64 objects of the list in their order and no others: a socket behind them
-- is never watched.
pub fill_sets-take :
    (sys : NbSystem)
    → IsFdSet sys
    → (g : NbWorld) (steps : ℕ) (zs : List ℕ) → IsOpen g zs
    → IsDistinct (handles g zs)
    → length zs < steps
    → fill_sets sys steps g g.socket_list [] ≡ going (take fd_setsize (handles g zs))
fill_sets-take sys lib g steps zs o d h =
    fill_from sys lib g steps g.socket_list zs [] o.chain h (omega arith) d (none_in (handles g zs))
  where
    none_in : (xs : List ℕ) → All (λ x. NotIn x []) xs
    none_in [] = tt
    none_in (x ∷ xs) = (tt, none_in xs)
