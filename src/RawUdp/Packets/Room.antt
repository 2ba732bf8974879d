-- ===== src/RawUdp/Packets/Room.antt =====
-- `PacketizeIpv6` of chapter11/iphdrinc/rawudp.cpp: the array has room for the fragments, or not.
use network_programming_for.Base.{
  ℕ, zero, suc, ◌+◌, ◌-◌, ◌*◌, ◌≤◌, ◌≡◌, refl, ap, sym, ◌∙◌, ◌==◌, ltb, ◌&&◌, if◌then◌else◌, List,
  [], ◌∷◌, ◌++◌, true, false, some, length, take, drop, arith, subst, length-drop, take-append-drop,
  Bool-cases, inl, inr, append-nil, take_all,
}
use network_programming_for.RawUdp.Packets.{
  Packetized, Layout, Job, ip_headers, udp_header, layout, packetize_loop, add_packet, mark_end,
  next_fragment, last_fragment,
}
use network_programming_for.RawUdp.Packets.Reassembly.{
  IsJob, contents, later_contents, later, contents-fragment,
}

pub drop-nil : (n : ℕ) → drop {A = ℕ} n [] ≡ []
drop-nil zero = refl
drop-nil (suc n) = refl

shift : (m n x : ℕ) (xs : List ℕ) → drop (m + n) xs ≡ drop (suc m + n) (x ∷ xs)
shift m n x xs = ap (λ k. drop k (x ∷ xs)) {x = suc (m + n)} (omega arith)

drop-drop : (m n : ℕ) (xs : List ℕ) → drop n (drop m xs) ≡ drop (m + n) xs
drop-drop zero n xs = ap (λ k. drop k xs) (omega arith)
drop-drop (suc m) n [] = drop-nil n ∙ sym (drop-nil (suc m + n))
drop-drop (suc m) n (x ∷ xs) = drop-drop m n xs ∙ shift m n x xs

pub packetize_step :
    (j : Job)
    → IsJob j
    → (slots n offset k : ℕ) (l : Layout) → layout j.mtu n k ≡ l
    → (ltb j.mtu k && ltb j.mtu l.hdrlen) ≡ false
    → packetize_loop j (suc slots) n offset k
      ≡ add_packet
          (ip_headers j offset l)
          (udp_header j n k l)
          (take l.datalen (drop offset j.payload))
          (if ltb 0 (k - l.datalen)
            then packetize_loop j slots (suc n) (offset + l.datalen) (k - l.datalen)
            else mark_end slots)
unfolding packetize_loop
packetize_step j h slots n offset k l e g =
    subst
      (λ m.
        (ltb j.mtu k && ltb j.mtu m.hdrlen) ≡ false
        → packetize_loop j (suc slots) n offset k
          ≡ add_packet (ip_headers j offset m) (udp_header j n k m)
              (take m.datalen (drop offset j.payload))
              (if ltb 0 (k - m.datalen)
                then packetize_loop j slots (suc n) (offset + m.datalen) (k - m.datalen)
                else mark_end slots))
      e (λ f. rw (h.2 n, f) refl) g

later-add_packet :
    (headers bytes r : List ℕ) (rest : Packetized)
    → later rest ≡ some r
    → later (add_packet headers (some []) bytes rest)
      ≡ some (contents 0 (headers ++ ([] ++ bytes)) ++ r)
unfolding later later_contents
later-add_packet headers bytes r (Packetized.packets ps) h = cc
later-add_packet headers bytes r Packetized.out_of_memory h = cc
later-add_packet headers bytes r Packetized.fault h = cc

take-drop : (m n : ℕ) (xs : List ℕ) → take n (drop m xs) ++ drop (m + n) xs ≡ drop m xs
take-drop m n xs =
    ap (λ ys. take n (drop m xs) ++ ys) (sym (drop-drop m n xs)) ∙ take-append-drop n (drop m xs)

pub nonfirst : (n : ℕ) → (suc n == 0) ≡ false
nonfirst n = ground arith

fits-packetize_loop :
    (j : Job)
    → IsJob j
    → (slots n offset k : ℕ) → offset + k ≡ length j.payload
    → ltb j.mtu k ≡ false
    → later (packetize_loop j (suc (suc slots)) (suc n) offset k) ≡ some (drop offset j.payload)
unfolding layout udp_header later later_contents
fits-packetize_loop j h slots n offset k e fits =
    let l = last_fragment k in
    let s =
      packetize_step j h (suc slots) (suc n) offset k l (rw (fits, nonfirst n) refl)
        (ground arith) in
    let z : ltb 0 (k - k) ≡ false = ground arith in
    let all = take_all k (drop offset j.payload) (omega (arith, length-drop offset j.payload)) in
    rw (s, z, nonfirst n)
      (ap some (
        append-nil _
        ∙ contents-fragment j h offset l [] (take k (drop offset j.payload)) refl
        ∙ all))

-- One entry for each full fragment, one for the last fragment and one for the end.
pub later-packetize_loop :
    (j : Job)
    → IsJob j
    → 56 ≤ j.mtu
    → (full n offset k : ℕ) → offset + k ≡ length j.payload
    → k ≤ full * (j.mtu - 48) + j.mtu
    → later (packetize_loop j (suc (suc full)) (suc n) offset k) ≡ some (drop offset j.payload)
unfolding layout udp_header
later-packetize_loop j h m zero n offset k e room =
    fits-packetize_loop j h 0 n offset k e (ground arith)
later-packetize_loop j h m (suc full) n offset k e room = elim (Bool-cases (ltb j.mtu k)) [
  | inr fits ↦ fits-packetize_loop j h (suc full) n offset k e fits
  | inl more ↦
      let d = j.mtu - 48 in
      let l = next_fragment j.mtu in
      let g : (ltb j.mtu k && ltb j.mtu 48) ≡ false = ground arith in
      let s =
        packetize_step j h (suc (suc full)) (suc n) offset k l (rw (more, nonfirst n) refl) g in
      let left : ltb 0 (k - d) ≡ true = ground arith in
      let rest =
        later-packetize_loop j h m full (suc n) (offset + d) (k - d) (ground arith)
          (ground arith) in
      rw (s, left, nonfirst n)
        (later-add_packet (ip_headers j offset l) (take d (drop offset j.payload))
            (drop (offset + d) j.payload) _ rest
          ∙ ap some (
              ap (λ ys. ys ++ drop (offset + d) j.payload)
                (contents-fragment j h offset l [] (take d (drop offset j.payload)) refl)
              ∙ take-drop offset d j.payload))
]
