-- ===== src/React/Subscriptions.antt =====
-- monkreact/reactor.go: Subscribe and Unsubscribe.
use thelonious.Base.{
  ℕ, List, [], ◌∷◌, ◌++◌, append-nil, Option, some, ok, ◌>>=◌, ◌≡◌, ◌≢◌, refl, sym, ap, ◌∙◌, inl,
  inr,
}
use mathlib.Core.Path.{subst}
use thelonious.Trie.Cache.{store}
use thelonious.Trie.Cache.Maps.{find-store, find-store_other, same_or_not}
use thelonious.React.{Handlers, or_nil, handler_of, subscribe, kept_handler, unsubscribe}
use thelonious.React.Removal.{IsWithout, handler_remove_lem}

handler_of-store :
    (n : List ℕ) (o : Option (List ℕ)) (hs : Handlers) → handler_of n (store n o hs) ≡ o
unfolding handler_of
handler_of-store n o hs = ap or_nil (find-store n o hs)

handler_of-store_other :
    (n m : List ℕ) (o : Option (List ℕ)) (hs : Handlers)
    → n ≢ m
    → handler_of n (store m o hs) ≡ handler_of n hs
unfolding handler_of
handler_of-store_other n m o hs d = ap or_nil (find-store_other n m o hs d)

subscribe-store :
    (n : List ℕ) (ch : ℕ) (cs : List ℕ) (hs : Handlers)
    → handler_of n hs ≡ kept_handler cs
    → subscribe n ch hs ≡ store n (some (cs ++ (ch ∷ []))) hs
unfolding subscribe
subscribe-store n ch [] hs e = rw (e, subscribe) refl
subscribe-store n ch (c ∷ cs) hs e = rw (e, subscribe) refl

unsubscribe-store :
    (n : List ℕ) (ch : ℕ) (cs : List ℕ) (hs : Handlers)
    → IsWithout ch cs
    → unsubscribe n ch (store n (some (cs ++ (ch ∷ []))) hs)
      ≡ ok (store n (kept_handler cs) (store n (some (cs ++ (ch ∷ []))) hs))
unfolding unsubscribe
unsubscribe-store n ch cs hs w =
    rw (handler_of-store n (some (cs ++ (ch ∷ []))) hs, unsubscribe)
      (rw (((handler_remove_lem ch cs [] w tt).0 ∙ ap ok (append-nil cs)), ◌>>=◌) refl)

-- A channel that is subscribed to an event and unsubscribed again, where it was not subscribed before,
-- leaves the handler of every event as it was; one that has no channel left is nil again.
pub unsubscribe-subscribe :
    (n : List ℕ) (ch : ℕ) (cs : List ℕ) (hs : Handlers)
    → handler_of n hs ≡ kept_handler cs
    → IsWithout ch cs
    → (hs' : Handlers) × (unsubscribe n ch (subscribe n ch hs) ≡ ok hs')
      × ((m : List ℕ) → handler_of m hs' ≡ handler_of m hs)
unsubscribe-subscribe n ch cs hs e w =
    let one = store n (some (cs ++ (ch ∷ []))) hs in
    (
      store n (kept_handler cs) one,
      ap (unsubscribe n ch) (subscribe-store n ch cs hs e) ∙ unsubscribe-store n ch cs hs w,
      λ m. elim (same_or_not m n) [
        | inl q ↦
            subst (λ x. handler_of x (store n (kept_handler cs) one) ≡ handler_of x hs) (sym q)
              (handler_of-store n (kept_handler cs) one ∙ sym e)
        | inr d ↦
            handler_of-store_other m n (kept_handler cs) one d
            ∙ handler_of-store_other m n (some (cs ++ (ch ∷ []))) hs d
      ],
    )
