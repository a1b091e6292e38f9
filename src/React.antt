-- ===== src/React.antt =====
-- monkreact/reactor.go: the handlers of events with the channels that are subscribed to them. A channel
-- is a number, under which `Channels` has what was sent on it and for how many events it has room, a
-- waiting receiver included; a send that finds no room is skipped.
pub mod Engine
pub mod Removal
pub mod Subscriptions
pub mod Order
pub mod Progress
use thelonious.Base.{
  ℕ, zero, suc, ◌+◌, ◌-◌, List, [], ◌∷◌, ◌++◌, length, index, take, drop, leb, ◌==◌, if◌then◌else◌,
  Bool, true, false, Option, none, some, Outcome, ok, panic, ◌>>=◌,
}
use thelonious.Trie.Cache.{find, store, erase}

pub record Event : Type 0 where
  pub name : List ℕ
  pub resource : ℕ

pub record Channel : Type 0 where
  pub room : ℕ
  pub sent : List Event

abbrev pub Channels : Type 0
Channels = ℕ → Channel

-- A send in a `select` with a default.
unfoldable pub try_send : Event → ℕ → Channels → Channels
try_send e ch chans i =
    if i == ch
    then (if (chans i).room == 0
        then chans i
        else record { room = (chans i).room - 1; sent = (chans i).sent ++ (e ∷ []) })
    else chans i

unfoldable pub handler_post : Event → List ℕ → Channels → Channels
unfolding try_send
handler_post e [] chans = chans
handler_post e (ch ∷ cs) chans = handler_post e cs (try_send e ch chans)

-- `append(e.chans[:i], e.chans[i+1:]...)`, which moves what is behind `i` in the array that `e.chans` and
-- the loop share; `len` is the length of `e.chans`.
unfoldable pub moved : ℕ → ℕ → List ℕ → List ℕ
moved i len arr = take i arr ++ (drop (suc i) (take len arr) ++ drop (len - 1) arr)

-- The rounds of the loop that are left, from `i` on. The range is that of the slice before the loop.
unfoldable pub remove_from : ℕ → ℕ → ℕ → ℕ → List ℕ → Outcome (List ℕ)
unfolding moved
remove_from ch zero i len arr = ok (take len arr)
remove_from ch (suc k) i len arr = index arr i >>= λ c.
    if c == ch
    then (if leb (suc i) len then remove_from ch k (suc i) (len - 1) (moved i len arr) else panic)
    else remove_from ch k (suc i) len arr

unfoldable pub handler_remove : ℕ → List ℕ → Outcome (List ℕ)
unfolding remove_from
handler_remove ch chans = remove_from ch (length chans) 0 (length chans) chans

-- A nil handler is `none`, whether it was put there or is none.
abbrev pub Handlers : Type 0
Handlers = List (List ℕ × Option (List ℕ))

abbrev pub or_nil : Option (Option (List ℕ)) → Option (List ℕ)
or_nil none = none
or_nil (some o) = o

unfoldable pub handler_of : List ℕ → Handlers → Option (List ℕ)
unfolding find
handler_of name hs = or_nil (find name hs)

unfoldable pub subscribe : List ℕ → ℕ → Handlers → Handlers
unfolding handler_of erase
subscribe name ch hs = elim (handler_of name hs) [
  | none ↦ store name (some (ch ∷ [])) hs
  | some cs ↦ store name (some (cs ++ (ch ∷ []))) hs
]

-- A handler without channels is set to nil.
abbrev pub kept_handler : List ℕ → Option (List ℕ)
kept_handler [] = none
kept_handler (c ∷ cs) = some (c ∷ cs)

unfoldable pub unsubscribe : List ℕ → ℕ → Handlers → Outcome Handlers
unfolding handler_of handler_remove erase
unsubscribe name ch hs = elim (handler_of name hs) [
  | none ↦ ok hs
  | some cs ↦ handler_remove ch cs >>= λ r. ok (store name (kept_handler r) hs)
]

unfoldable pub dispatch : Event → Handlers → Channels → Channels
unfolding handler_of handler_post
dispatch e hs chans = elim (handler_of e.name hs) [
  | none ↦ chans
  | some cs ↦ handler_post e cs chans
]
