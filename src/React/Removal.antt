-- ===== src/React/Removal.antt =====
-- monkreact/reactor.go: the removal of a channel from a handler.
use thelonious.Base.{
  ℕ, suc, ◌+◌, ◌-◌, List, [], ◌∷◌, ◌++◌, length, index, index-drop, take, drop, All, leb, ◌==◌,
  true, false, ok, ◌≡◌, refl, sym, ap, ◌∙◌, arith, take-append_length, drop-append_length,
  length-append, append_assoc, append-nil, drop-past, drop-add, take_all, All-append,
}
use thelonious.React.{moved, remove_from, handler_remove}

-- No element is the channel.
abbrev pub IsWithout : ℕ → List ℕ → Type 0
IsWithout ch = All (λ c. (c == ch) ≡ false)

drop_next : (i : ℕ) (arr : List ℕ) (y : ℕ) (r : List ℕ) → drop i arr ≡ y ∷ r → drop (suc i) arr ≡ r
drop_next i arr y r e =
    let one : suc i ≡ i + 1 = omega arith in ap (λ j. drop j arr) one ∙ drop-past i arr (y ∷ []) e

drop-append : (xs zs : List ℕ) (n : ℕ) → drop (length xs + n) (xs ++ zs) ≡ drop n zs
drop-append xs zs n = drop-add (length xs) n (xs ++ zs) ∙ ap (drop n) (drop-append_length xs zs)

one_round :
    (ch i len : ℕ) (arr : List ℕ) (y k : ℕ)
    → index arr i ≡ ok y
    → (y == ch) ≡ false
    → remove_from ch (suc k) i len arr ≡ remove_from ch k (suc i) len arr
unfolding remove_from
one_round ch i len arr y k e h = rw e (rw h refl)

-- Rounds over elements that are not the channel change nothing.
remove_from-without :
    (ch i len : ℕ) (arr ys zs : List ℕ)
    → drop i arr ≡ ys ++ zs
    → IsWithout ch ys
    → (k : ℕ) → remove_from ch (length ys + k) i len arr ≡ remove_from ch k (i + length ys) len arr
unfolding remove_from
remove_from-without ch i len arr [] zs e h k =
    ap (λ n. remove_from ch n i len arr) (omega arith)
    ∙ ap (λ j. remove_from ch k j len arr) (omega arith)
remove_from-without ch i len arr (y ∷ ys) zs e (h, hs) k =
    let rest = remove_from-without ch (suc i) len arr ys zs (drop_next i arr y (ys ++ zs) e) hs k in
    let n : length (y ∷ ys) + k ≡ suc (length ys + k) = omega arith in
    ap (λ n. remove_from ch n i len arr) n
    ∙ one_round ch i len arr y (length ys + k) (index-drop i arr e) h
    ∙ rest
    ∙ ap (λ j. remove_from ch k j len arr) (omega arith)

-- The round at the channel.
remove_from-here :
    (ch : ℕ) (xs ys : List ℕ)
    → let l = length xs + suc (length ys) in
      remove_from ch (suc (length ys)) (length xs) l (xs ++ ch ∷ ys)
      ≡ remove_from ch
          (length ys)
          (suc (length xs))
          (l - 1)
          (xs ++ (ys ++ drop (l - 1) (xs ++ ch ∷ ys)))
unfolding remove_from moved
remove_from-here ch xs ys =
    let l = length xs + suc (length ys) in
    let arr = xs ++ ch ∷ ys in
    let all : length arr ≡ l = length-append xs (ch ∷ ys) in
    let here : index arr (length xs) ≡ ok ch =
      index-drop (length xs) arr (drop-append_length xs (ch ∷ ys)) in
    let same : (ch == ch) ≡ true = ground arith in
    let within : leb (suc (length xs)) l ≡ true = ground arith in
    let kept : take l arr ≡ arr = take_all l arr (omega arith) in
    let behind : drop (suc (length xs)) arr ≡ ys =
      drop_next (length xs) arr ch ys (drop-append_length xs (ch ∷ ys)) in
    rw (here, same, within)
      (ap (λ m. remove_from ch (length ys) (suc (length xs)) (l - 1) m)
        (rw (kept, behind, take-append_length xs (ch ∷ ys)) refl))

last_one :
    (ch y : ℕ) (ys : List ℕ)
    → IsWithout ch (y ∷ ys)
    → (z : ℕ) × (drop (length ys) (y ∷ ys) ≡ z ∷ []) × ((z == ch) ≡ false)
last_one ch y [] h = (y, refl, h.0)
last_one ch y (x ∷ ys) h = last_one ch x ys h.1

-- The rounds behind it, over the elements that were moved and over the last one, which stayed.
remove_from-behind :
    (ch : ℕ) (xs ys : List ℕ)
    → IsWithout ch ys
    → let l = length xs + suc (length ys) in
      remove_from ch
        (length ys)
        (suc (length xs))
        (l - 1)
        (xs ++ (ys ++ drop (l - 1) (xs ++ ch ∷ ys)))
      ≡ ok (xs ++ ys)
unfolding remove_from
remove_from-behind ch xs [] h =
    let tail = drop (length xs + 1 - 1) (xs ++ ch ∷ []) in
    let n : length xs + 1 - 1 ≡ length xs = omega arith in
    ap ok (ap (λ j. take j (xs ++ tail)) n ∙ take-append_length xs tail ∙ sym (append-nil xs))
remove_from-behind ch xs (y ∷ ys) h =
    let len = length xs + suc (suc (length ys)) - 1 in
    let tail = drop len (xs ++ ch ∷ y ∷ ys) in
    let arr = xs ++ (y ∷ (ys ++ tail)) in
    let (z, e, d) = last_one ch y ys h in
    let n : len ≡ length xs + suc (length ys) = omega arith in
    let t : tail ≡ z ∷ [] =
      ap (λ j. drop j (xs ++ ch ∷ y ∷ ys)) n ∙ drop-append xs (ch ∷ y ∷ ys) (suc (length ys)) ∙ e in
    let rounds : suc (length ys) ≡ length (ys ++ z ∷ []) + 0 =
      omega (arith, length-append ys (z ∷ [])) in
    let seen : drop (suc (length xs)) arr ≡ (ys ++ z ∷ []) ++ [] =
      drop_next (length xs) arr y (ys ++ tail) (drop-append_length xs (y ∷ (ys ++ tail)))
      ∙ ap (λ l. ys ++ l) t
      ∙ sym (append-nil (ys ++ z ∷ [])) in
    let front : len ≡ length (xs ++ y ∷ ys) = omega (arith, n, length-append xs (y ∷ ys)) in
    ap (λ k. remove_from ch k (suc (length xs)) len arr) rounds
    ∙ remove_from-without ch (suc (length xs)) len arr (ys ++ z ∷ []) [] seen
        (All-append (λ c. (c == ch) ≡ false) ys (z ∷ []) h.1 (d, tt)) 0
    ∙ ap ok (
        ap (λ a. take len a) (sym (append_assoc xs (y ∷ ys) tail))
        ∙ ap (λ j. take j ((xs ++ y ∷ ys) ++ tail)) front
        ∙ take-append_length (xs ++ y ∷ ys) tail)

-- Remove takes out a channel that is subscribed once, and leaves the others in their order; one that is
-- not subscribed leaves all as they are.
pub handler_remove_lem :
    (ch : ℕ) (xs ys : List ℕ)
    → IsWithout ch xs
    → IsWithout ch ys
    → (handler_remove ch (xs ++ ch ∷ ys) ≡ ok (xs ++ ys)) × (handler_remove ch xs ≡ ok xs)
unfolding handler_remove remove_from
handler_remove_lem ch xs ys hx hy =
    let arr = xs ++ ch ∷ ys in
    let all : length arr ≡ length xs + suc (length ys) = length-append xs (ch ∷ ys) in
    let rounds : length xs ≡ length xs + 0 = omega arith in
    (
      ap (λ l. remove_from ch l 0 l arr) all
          ∙ remove_from-without ch 0 (length xs + suc (length ys)) arr xs (ch ∷ ys) refl hx
              (suc (length ys))
          ∙ ap (λ j. remove_from ch (suc (length ys)) j (length xs + suc (length ys)) arr)
              (omega arith)
          ∙ remove_from-here ch xs ys
          ∙ remove_from-behind ch xs ys hy,
      ap (λ l. remove_from ch l 0 (length xs) xs) rounds
          ∙ remove_from-without ch 0 (length xs) xs xs [] (sym (append-nil xs)) hx 0
          ∙ ap ok (take_all (length xs) xs (omega arith)),
    )
