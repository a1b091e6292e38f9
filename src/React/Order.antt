-- ===== src/React/Order.antt =====
-- monkreact/reactor.go: the order of events, and what blocks the engine for good.
use thelonious.Base.{
  ◌≤◌, List, [], ◌∷◌, ◌++◌, length, append_assoc, length-append, ◌≡◌, ◌≢◌, refl, sym, ap, ◌∙◌, true,
  false, arith,
}
use thelonious.React.{Event, Channels}
use thelonious.React.Engine.{
  event_buffer_size, free, sending, after_send, Loop, off, polling, waiting, idle, stopping,
  Reactor, new, Step, start, post_enter, post_send, post_done, take_event, hand_out, take_default,
  send_drained, take_quit, end_loop, stop, flush, change_handlers, Steps, done, ◌then_step◌,
}

-- The event that the loop has taken.
abbrev pub held : Loop → List Event
held (waiting e) = e ∷ []
held _ = []

-- What was sent is what was handed out, what the loop has and what is in the channel, in this order. The
-- loop runs only if the engine does, and where it waits for a receiver a Post that sent has yet to take
-- from `drained`, unless nothing is on it or nothing was sent.
pub record IsOrdered (r : Reactor) : Type 0 where
  pub in_order : r.dispatched ++ (held r.loop ++ r.queue) ≡ r.posted
  pub few : length r.queue ≤ event_buffer_size
  pub stopped : r.running ≡ false → r.loop ≡ off
  pub woken : r.loop ≡ idle → r.drained ≡ true → r.holder ≢ after_send → r.queue ≡ []

pub new-IsOrdered : (chans : Channels) → IsOrdered (new chans)
new-IsOrdered chans = record {
  in_order = refl;
  few = omega arith;
  stopped = λ e. refl;
  woken = λ e f n. refl;
}

polling_not_idle : polling ≡ idle → ⊥
polling_not_idle e = cc

not_off : (r : Reactor) → IsOrdered r → r.running ≡ false → (r.loop ≡ off → ⊥) → ⊥
not_off r i n k = k (i.stopped n)

Step-IsOrdered : {r s : Reactor} → Step r s → IsOrdered r → IsOrdered s
Step-IsOrdered (start r f n) i = record {
  in_order = ap (λ l. r.dispatched ++ (held l ++ r.queue)) (sym (i.stopped n)) ∙ i.in_order;
  few = i.few;
  stopped = λ e. cc;
  woken = λ e. absurd (polling_not_idle e);
}
Step-IsOrdered (post_enter r e f n) i = record {
  in_order = i.in_order;
  few = i.few;
  stopped = i.stopped;
  woken = λ l d x. i.woken l d (λ a. let g : free ≡ after_send = sym f ∙ a in cc);
}
Step-IsOrdered (post_send r e h lt) i = record {
  in_order =
      ap (λ x. r.dispatched ++ x) (sym (append_assoc (held r.loop) r.queue (e ∷ [])))
      ∙ sym (append_assoc r.dispatched (held r.loop ++ r.queue) (e ∷ []))
      ∙ ap (λ x. x ++ (e ∷ [])) i.in_order;
  few = omega (arith, length-append r.queue (e ∷ []));
  stopped = i.stopped;
  woken = λ l d x. absurd (x refl);
}
Step-IsOrdered (post_done r h) i = record {
  in_order = i.in_order;
  few = i.few;
  stopped = i.stopped;
  woken = λ l d. cc;
}
Step-IsOrdered (take_event r e q l k) i = record {
  in_order =
      ap (λ l'. r.dispatched ++ (held l' ++ (e ∷ q))) (sym l)
      ∙ ap (λ x. r.dispatched ++ (held r.loop ++ x)) (sym k)
      ∙ i.in_order;
  few = omega (arith, i.few, ap length k);
  stopped = λ n. absurd (not_off r i n (λ g. let h : polling ≡ off = sym l ∙ g in cc));
  woken = λ l' d. let g : waiting e ≡ idle = l' in cc;
}
Step-IsOrdered (hand_out r e l h) i = record {
  in_order =
      append_assoc r.dispatched (e ∷ []) r.queue
      ∙ ap (λ l'. r.dispatched ++ (held l' ++ r.queue)) (sym l)
      ∙ i.in_order;
  few = i.few;
  stopped = λ n. absurd (not_off r i n (λ g. let k : waiting e ≡ off = sym l ∙ g in cc));
  woken = λ l'. absurd (polling_not_idle l');
}
Step-IsOrdered (take_default r l k n) i = record {
  in_order = ap (λ l'. r.dispatched ++ (held l' ++ r.queue)) (sym l) ∙ i.in_order;
  few = i.few;
  stopped = λ n'. absurd (not_off r i n' (λ g. let h : polling ≡ off = sym l ∙ g in cc));
  woken = λ l' d x. k;
}
Step-IsOrdered (send_drained r l n) i = record {
  in_order = ap (λ l'. r.dispatched ++ (held l' ++ r.queue)) (sym l) ∙ i.in_order;
  few = i.few;
  stopped = λ n'. absurd (not_off r i n' (λ g. let h : idle ≡ off = sym l ∙ g in cc));
  woken = λ l'. absurd (polling_not_idle l');
}
Step-IsOrdered (take_quit r l n) i = record {
  in_order = ap (λ l'. r.dispatched ++ (held l' ++ r.queue)) (sym l) ∙ i.in_order;
  few = i.few;
  stopped = λ n'. absurd (not_off r i n' (λ g. let h : polling ≡ off = sym l ∙ g in cc));
  woken = λ l'. let g : stopping ≡ idle = l' in cc;
}
Step-IsOrdered (end_loop r l h) i = record {
  in_order = ap (λ l'. r.dispatched ++ (held l' ++ r.queue)) (sym l) ∙ i.in_order;
  few = i.few;
  stopped = λ n'. refl;
  woken = λ l'. let g : off ≡ idle = l' in cc;
}
Step-IsOrdered (stop r n q) i = record {
  in_order = i.in_order;
  few = i.few;
  stopped = i.stopped;
  woken = i.woken;
}
Step-IsOrdered (flush r d) i = record {
  in_order = i.in_order;
  few = i.few;
  stopped = i.stopped;
  woken = λ l d'. cc;
}
Step-IsOrdered (change_handlers r hs h) i = record {
  in_order = i.in_order;
  few = i.few;
  stopped = i.stopped;
  woken = i.woken;
}

-- Whatever happens to the engine, the events that it handed out, the one that it is about to hand
-- out and those in its channel are the events that were sent, in the order in which they were sent;
-- no more than ten are in the channel.
pub Steps-IsOrdered : {r s : Reactor} → Steps r s → IsOrdered r → IsOrdered s
Steps-IsOrdered (done r) i = i
Steps-IsOrdered (x then_step xs) i = Steps-IsOrdered xs (Step-IsOrdered x i)

-- A Post has the lock and no room to send, and the loop waits for the lock.
pub record IsDeadlock (r : Reactor) : Type 0 where
  pub full : length r.queue ≡ event_buffer_size
  pub sends : (e : Event) × (r.holder ≡ sending e)
  pub waits : (e : Event) × (r.loop ≡ waiting e)

not_free : (r : Reactor) → IsDeadlock r → r.holder ≡ free → ⊥
not_free r d f = let (e, h) = d.sends in let g : sending e ≡ free = sym h ∙ f in cc

Step-IsDeadlock :
    {r s : Reactor} → Step r s → IsDeadlock r → IsDeadlock s × (s.dispatched ≡ r.dispatched)
Step-IsDeadlock (start r f n) d = absurd (not_free r d f)
Step-IsDeadlock (post_enter r e f n) d = absurd (not_free r d f)
Step-IsDeadlock (post_send r e h lt) d = absurd (omega (arith, d.full))
Step-IsDeadlock (post_done r h) d =
    let (e, k) = d.sends in let g : sending e ≡ after_send = sym k ∙ h in absurd (cc)
Step-IsDeadlock (take_event r e q l k) d =
    let (x, w) = d.waits in let g : waiting x ≡ polling = sym w ∙ l in absurd (cc)
Step-IsDeadlock (hand_out r e l h) d = absurd (not_free r d h)
Step-IsDeadlock (take_default r l k n) d =
    let (x, w) = d.waits in let g : waiting x ≡ polling = sym w ∙ l in absurd (cc)
Step-IsDeadlock (send_drained r l n) d =
    let (x, w) = d.waits in let g : waiting x ≡ idle = sym w ∙ l in absurd (cc)
Step-IsDeadlock (take_quit r l n) d =
    let (x, w) = d.waits in let g : waiting x ≡ polling = sym w ∙ l in absurd (cc)
Step-IsDeadlock (end_loop r l h) d = absurd (not_free r d h)
Step-IsDeadlock (stop r n q) d = (record { full = d.full; sends = d.sends; waits = d.waits }, refl)
Step-IsDeadlock (flush r n) d = (record { full = d.full; sends = d.sends; waits = d.waits }, refl)
Step-IsDeadlock (change_handlers r hs h) d = absurd (not_free r d h)

-- Where a Post has the lock while the channel is full and the loop waits for the lock, this stays
-- so whatever happens, and no event is ever handed out any more.
pub IsDeadlock-lasts :
    {r s : Reactor} → Steps r s → IsDeadlock r → IsDeadlock s × (s.dispatched ≡ r.dispatched)
IsDeadlock-lasts (done r) d = (d, refl)
IsDeadlock-lasts (x then_step xs) d =
    let (d', e) = Step-IsDeadlock x d in let (d'', f) = IsDeadlock-lasts xs d' in (d'', f ∙ e)
