-- ===== src/Tests/React.antt =====
-- The reactor: channels that come and go, and a schedule of its loop and of those who post.
use thelonious.Base.{
  ℕ, zero, suc, ◌+◌, ◌-◌, ◌≤◌, ◌≡◌, refl, sym, List, [], ◌∷◌, ◌++◌, length, length-append, true,
  false, ok, panic, arith,
}
use thelonious.React.{
  Event, Channels, Handlers, handler_remove, handler_of, subscribe, unsubscribe, dispatch,
}
use thelonious.React.Engine.{
  event_buffer_size, free, sending, polling, waiting, Reactor, new, start, post_enter, post_send,
  post_done, take_event, stop, Steps, done, ◌then_step◌,
}
use thelonious.React.Removal.{handler_remove_lem}
use thelonious.React.Subscriptions.{unsubscribe-subscribe}
use thelonious.React.Order.{IsOrdered, new-IsOrdered, Steps-IsOrdered, IsDeadlock, IsDeadlock-lasts}
use thelonious.React.Progress.{HandsOut, first_event_handed_out}

-- A channel that is subscribed twice panics when it is taken out, or stays once, or panics behind others.
twice :
    (handler_remove 1 (1 ∷ 1 ∷ []) ≡ panic)
    × (handler_remove 1 (1 ∷ 1 ∷ 2 ∷ []) ≡ ok (1 ∷ 2 ∷ []))
    × (handler_remove 1 (2 ∷ 1 ∷ 1 ∷ []) ≡ panic)
unfolding handler_remove
twice = (refl, refl, refl)

handler_remove_lem_example :
    (handler_remove 1 (2 ∷ 1 ∷ 3 ∷ 4 ∷ []) ≡ ok (2 ∷ 3 ∷ 4 ∷ []))
    × (handler_remove 1 (2 ∷ []) ≡ ok (2 ∷ []))
handler_remove_lem_example =
    handler_remove_lem 1 (2 ∷ []) (3 ∷ 4 ∷ []) (refl, tt) (refl, (refl, tt))

unsubscribe-subscribe_example :
    (hs' : Handlers) × (unsubscribe (7 ∷ []) 1 (subscribe (7 ∷ []) 1 []) ≡ ok hs')
    × ((m : List ℕ) → handler_of m hs' ≡ handler_of m [])
unfolding handler_of
unsubscribe-subscribe_example = unsubscribe-subscribe (7 ∷ []) 1 [] [] refl tt

abbrev event : ℕ → Event
event n = record { name = 7 ∷ []; resource = n }

abbrev no_room : Channels
no_room = λ i. record { room = 0; sent = [] }

abbrev started : Reactor
started = record (new no_room) { running = true; loop = polling }

started-IsOrdered : IsOrdered started
started-IsOrdered =
    Steps-IsOrdered (start (new no_room) refl refl then_step done started) (new-IsOrdered no_room)

-- One Post from beginning to end.
abbrev posted_to : ℕ → Reactor → Reactor
posted_to n r = record r {
  queue = r.queue ++ (event n ∷ []);
  posted = r.posted ++ (event n ∷ []);
  holder = free;
  drained = false;
}

abbrev posts : ℕ → Reactor → Reactor
posts zero r = r
posts (suc n) r = posts n (posted_to n r)

post_all :
    (n : ℕ) (r t : Reactor)
    → r.holder ≡ free
    → r.running ≡ true
    → length r.queue + n ≤ event_buffer_size
    → Steps (posts n r) t
    → Steps r t
post_all zero r t f u le k = k
post_all (suc n) r t f u le k =
    post_enter r (event n) f u
    then_step post_send (record r { holder = sending (event n) }) (event n) refl (omega arith)
    then_step post_done _ refl
    then_step post_all n (posted_to n r) t refl u
        (omega (arith, length-append r.queue (event n ∷ []))) k

Steps-IsOrdered_example : IsOrdered (posts 3 started)
Steps-IsOrdered_example =
    Steps-IsOrdered (post_all 3 started (posts 3 started) refl refl (omega arith) (done _))
      started-IsOrdered

first_event_handed_out_example : HandsOut (posts 3 started) (event 2)
first_event_handed_out_example =
    first_event_handed_out (posts 3 started) (event 2) (event 1 ∷ event 0 ∷ [])
      Steps-IsOrdered_example tt refl
      (λ d. let g : waiting d.waits.0 ≡ polling = sym d.waits.1 in cc)

-- The loop has taken the first of eleven events when the twelfth Post takes the lock.
abbrev one_taken : Reactor
one_taken = record (posts 1 started) { loop = waiting (event 0); queue = [] }

abbrev blocked : Reactor
blocked = record (posts 10 one_taken) { holder = sending (event 20) }

blocked-reached : Steps (new no_room) blocked
blocked-reached =
    start (new no_room) refl refl
    then_step post_all 1 started blocked refl refl (omega arith) (
        take_event (posts 1 started) (event 0) [] refl refl
        then_step post_all 10 one_taken blocked refl refl (omega arith)
            (post_enter (posts 10 one_taken) (event 20) refl refl then_step done blocked))

IsDeadlock-lasts_example : IsDeadlock (record blocked { quit = true }) × (blocked.dispatched ≡ [])
IsDeadlock-lasts_example =
    IsDeadlock-lasts (stop blocked refl refl then_step done _)
      (record { full = refl; sends = (event 20, refl); waits = (event 0, refl) })

-- An event is sent to the channels of its name that have room, and to no other.
abbrev sent_to : ℕ → List Event
sent_to =
    let hs = subscribe (7 ∷ []) 2 (subscribe (8 ∷ []) 3 (subscribe (7 ∷ []) 1 [])) in
    let room : Channels = λ i. record { room = i - 1; sent = [] } in
    λ i. (dispatch (event 5) hs room i).sent

dispatches : (sent_to 1 ≡ []) × (sent_to 2 ≡ event 5 ∷ []) × (sent_to 3 ≡ [])
unfolding subscribe dispatch
dispatches = (refl, refl, refl)
