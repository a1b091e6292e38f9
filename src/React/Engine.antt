-- ===== src/React/Engine.antt =====
-- monkreact/reactor.go: the engine, as steps of its loop, of those who post, and of Start, Stop and Flush.
-- The lock of the engine is held by no more than one, so that a single place says who has it: a Post that
-- is about to send, or one that has sent. The loop's dispatch, Subscribe and Unsubscribe do not wait
-- while they have the lock, so that each is one step. `posted` and `dispatched` record what was sent on
-- the event channel and what was handed to the handlers.
use thelonious.Base.{ℕ, ◌<◌, List, [], ◌∷◌, ◌++◌, length, ◌≡◌, Bool, true, false}
use thelonious.React.{Event, Handlers, Channels, dispatch}

abbrev pub event_buffer_size : ℕ
event_buffer_size = 10

pub data Holder : Type 0 where
  free : Holder
  sending : Event → Holder
  after_send : Holder

-- Not running; at the `select`; with an event, in front of the lock; in front of the send on `drained`;
-- with the message to quit, in front of the lock.
pub data Loop : Type 0 where
  off polling : Loop
  waiting : Event → Loop
  idle stopping : Loop

pub record Reactor : Type 0 where
  pub holder : Holder
  pub loop : Loop
  pub running : Bool
  pub queue : List Event
  pub drained : Bool
  pub quit : Bool
  pub handlers : Handlers
  pub chans : Channels
  pub posted : List Event
  pub dispatched : List Event

abbrev pub new : Channels → Reactor
new chans = record {
  holder = free;
  loop = off;
  running = false;
  queue = [];
  drained = false;
  quit = false;
  handlers = [];
  chans = chans;
  posted = [];
  dispatched = [];
}

pub data Step : Reactor → Reactor → Type 0 where
  -- Start
  start :
      (r : Reactor)
      → r.holder ≡ free
      → r.running ≡ false
      → Step r (record r { running = true; loop = polling })
  -- Post: it takes the lock, sends where there is room, and takes what is on `drained`.
  post_enter :
      (r : Reactor) (e : Event)
      → r.holder ≡ free
      → r.running ≡ true
      → Step r (record r { holder = sending e })
  post_send :
      (r : Reactor) (e : Event)
      → r.holder ≡ sending e
      → length r.queue < event_buffer_size
      → Step r (record r {
        holder = after_send;
        queue = r.queue ++ (e ∷ []);
        posted = r.posted ++ (e ∷ []);
      })
  post_done :
      (r : Reactor) → r.holder ≡ after_send → Step r (record r { holder = free; drained = false })
  -- The loop
  take_event :
      (r : Reactor) (e : Event) (q : List Event)
      → r.loop ≡ polling
      → r.queue ≡ e ∷ q
      → Step r (record r { loop = waiting e; queue = q })
  hand_out :
      (r : Reactor) (e : Event)
      → r.loop ≡ waiting e
      → r.holder ≡ free
      → Step r (record r {
        loop = polling;
        chans = dispatch e r.handlers r.chans;
        dispatched = r.dispatched ++ (e ∷ []);
      })
  take_default :
      (r : Reactor)
      → r.loop ≡ polling
      → r.queue ≡ []
      → r.quit ≡ false
      → Step r (record r { loop = idle })
  send_drained :
      (r : Reactor)
      → r.loop ≡ idle
      → r.drained ≡ false
      → Step r (record r { loop = polling; drained = true })
  take_quit :
      (r : Reactor)
      → r.loop ≡ polling
      → r.quit ≡ true
      → Step r (record r { loop = stopping; quit = false })
  end_loop :
      (r : Reactor)
      → r.loop ≡ stopping
      → r.holder ≡ free
      → Step r (record r { loop = off; running = false })
  -- Stop sends the message to quit, and then takes what is on `drained`, as Flush does.
  stop : (r : Reactor) → r.running ≡ true → r.quit ≡ false → Step r (record r { quit = true })
  flush : (r : Reactor) → r.drained ≡ true → Step r (record r { drained = false })
  -- Subscribe and Unsubscribe
  change_handlers :
      (r : Reactor) (hs : Handlers) → r.holder ≡ free → Step r (record r { handlers = hs })

infixr 5 ◌then_step◌
pub data Steps : Reactor → Reactor → Type 0 where
  done : (r : Reactor) → Steps r r
  ◌then_step◌ : {r s t : Reactor} → Step r s → Steps s t → Steps r t

-- The steps of the loop while it works, and of a Post that has the lock.
abbrev pub IsTurn : {r s : Reactor} → Step r s → Type 0
IsTurn (post_send r e h l) = Unit
IsTurn (post_done r h) = Unit
IsTurn (take_event r e q l h) = Unit
IsTurn (hand_out r e l h) = Unit
IsTurn (take_default r l q h) = Unit
IsTurn (send_drained r l h) = Unit
IsTurn _ = ⊥

pub data Turns : Reactor → Reactor → Type 0 where
  rest : (r : Reactor) → Turns r r
  turn : {r s t : Reactor} (st : Step r s) → IsTurn st → Turns s t → Turns r t
