-- ===== src/React/Progress.antt =====
-- monkreact/reactor.go: that the first event that waits can be handed out.
use thelonious.Base.{
  ◌<◌, ◌≤◌, List, [], ◌∷◌, ◌++◌, length, ◌≡◌, ◌≢◌, refl, sym, ap, ◌∙◌, ◌⊎◌, inl, inr, true, false,
  Bool-cases, arith,
}
use thelonious.React.{Event}
use thelonious.React.Engine.{
  event_buffer_size, Holder, free, sending, after_send, Loop, off, polling, waiting, idle, stopping,
  Reactor, Step, post_send, post_done, take_event, hand_out, send_drained, IsTurn, Turns, rest,
  turn,
}
use thelonious.React.Order.{held, IsOrdered, IsDeadlock}

-- The loop runs and has not taken the message to quit.
abbrev pub IsAtWork : Loop → Type 0
IsAtWork off = ⊥
IsAtWork stopping = ⊥
IsAtWork polling = Unit
IsAtWork (waiting e) = Unit
IsAtWork idle = Unit

abbrev pub HandsOut : Reactor → Event → Type 0
HandsOut r x = (s : Reactor) × Turns r s × (s.dispatched ≡ r.dispatched ++ (x ∷ []))

after_or_not : (h : Holder) → (h ≡ after_send) ⊎ (h ≢ after_send)
after_or_not free = inr (λ e. cc)
after_or_not (sending x) = inr (λ e. cc)
after_or_not after_send = inl refl

waiting-HandsOut :
    (r : Reactor) (x : Event) (h : Holder)
    → r.holder ≡ h
    → r.loop ≡ waiting x
    → ((e : Event) → h ≡ sending e → length r.queue < event_buffer_size)
    → HandsOut r x
waiting-HandsOut r x free e l k = (_, turn (hand_out r x l e) tt (rest _), refl)
waiting-HandsOut r x after_send e l k =
    (_, turn (post_done r e) tt (turn (hand_out _ x l refl) tt (rest _)), refl)
waiting-HandsOut r x (sending y) e l k = (
  _,
  turn (post_send r y e (k y refl)) tt
      (turn (post_done _ refl) tt (turn (hand_out _ x l refl) tt (rest _))),
  refl,
)

step_first :
    {r s : Reactor} (x : Event) (st : Step r s)
    → IsTurn st
    → s.dispatched ≡ r.dispatched
    → HandsOut s x
    → HandsOut r x
step_first x st i e (t, sts, f) = (t, turn st i sts, f ∙ ap (λ d. d ++ (x ∷ [])) e)

polling-HandsOut :
    (r : Reactor) (x : Event) (q : List Event)
    → length r.queue ≤ event_buffer_size
    → r.loop ≡ polling
    → r.queue ≡ x ∷ q
    → HandsOut r x
polling-HandsOut r x q few l e = step_first x (take_event r x q l e) tt refl (
    waiting-HandsOut (record r { loop = waiting x; queue = q }) x r.holder refl refl
      (λ y h. omega (arith, few, ap length e)))

idle-HandsOut :
    (r : Reactor) (x : Event) (q : List Event)
    → IsOrdered r
    → r.loop ≡ idle
    → r.queue ≡ x ∷ q
    → HandsOut r x
idle-HandsOut r x q i l e = elim (Bool-cases r.drained) [
  | inr d ↦
      step_first x (send_drained r l d) tt refl
        (polling-HandsOut (record r { loop = polling; drained = true }) x q i.few refl e)
  | inl d ↦ elim (after_or_not r.holder) [
    | inl h ↦ step_first x (post_done r h) tt refl (
        step_first x (send_drained (record r { holder = free; drained = false }) l refl) tt refl (
          polling-HandsOut (record r { holder = free; loop = polling; drained = true }) x q i.few
            refl e))
    | inr n ↦ let g : x ∷ q ≡ [] = sym e ∙ i.woken l d n in absurd (cc)
  ]
]

-- While the engine's loop runs and has not taken the message to quit, the first event that was sent
-- and not handed out can be handed out, by steps of the loop and of the Post that has the lock,
-- unless that Post has no room to send while the loop waits for the lock.
pub first_event_handed_out :
    (r : Reactor) (x : Event) (q : List Event)
    → IsOrdered r
    → IsAtWork r.loop
    → held r.loop ++ r.queue ≡ x ∷ q
    → ¬ IsDeadlock r
    → HandsOut r x
first_event_handed_out r x q i w e n = by_loop r.loop refl w e
  where
    room :
        (z : Event)
        → r.holder ≡ sending z
        → (length r.queue ≡ event_buffer_size → ⊥)
        → length r.queue < event_buffer_size
    room z h k = ground (arith, i.few, k)

    by_loop : (l : Loop) → r.loop ≡ l → IsAtWork l → held l ++ r.queue ≡ x ∷ q → HandsOut r x
    by_loop off f w e = absurd w
    by_loop stopping f w e = absurd w
    by_loop polling f w e = polling-HandsOut r x q i.few f e
    by_loop idle f w e = idle-HandsOut r x q i f e
    by_loop (waiting y) f w e =
        let e' : y ∷ r.queue ≡ x ∷ q = e in
        let g : y ≡ x = (cc) in
        waiting-HandsOut r x r.holder refl (f ∙ ap waiting g)
          (λ z h. room z h (λ full. n (record { full = full; sends = (z, h); waits = (y, f) })))
