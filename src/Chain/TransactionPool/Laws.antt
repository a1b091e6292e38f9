-- ===== src/Chain/TransactionPool/Laws.antt =====
-- The pool holds a hash once and only what was valid, and what leaves it.
use thelonious.Base.{
  ◌≡◌, ◌≢◌, refl, sym, ap, ◌∙◌, List, [], ◌∷◌, ◌++◌, ◌==◌, ==_iff, true, false, All, All-append,
  Bool-cases, inl, inr,
}
use mathlib.Core.Path.{subst}
use thelonious.Chain.TransactionPool.{
  PoolTx, View, find_tx, validate_transaction, queue_transaction, is_invalid, remove_invalid,
  remove_tx, remove_set,
}

-- Every hash stands once.
abbrev pub IsDistinct : List PoolTx → Type 0
IsDistinct [] = Unit
IsDistinct (tx ∷ pool) = All (λ t. t.hash ≢ tx.hash) pool × IsDistinct pool

-- Every hash stands once, and every transaction was valid when it came, for this view.
abbrev pub IsPool : View → List PoolTx → Type 0
IsPool v pool = IsDistinct pool × All (λ t. validate_transaction v t ≡ true) pool

find_tx-fresh :
    (tx : PoolTx) (pool : List PoolTx)
    → find_tx pool (λ t. t.hash == tx.hash) ≡ false
    → All (λ t. t.hash ≢ tx.hash) pool
unfolding find_tx
find_tx-fresh tx [] h = tt
find_tx-fresh tx (t ∷ pool) h = elim (Bool-cases (t.hash == tx.hash)) [
  | inl e ↦ let f : true ≡ false = rw e at h in cc
  | inr e ↦ (
    (λ same. let f : true ≡ false = sym ((==_iff t.hash tx.hash).1 same) ∙ e in cc),
    find_tx-fresh tx pool (rw e at h),
  )
]

IsDistinct-append :
    (tx : PoolTx) (pool : List PoolTx)
    → IsDistinct pool
    → All (λ t. t.hash ≢ tx.hash) pool
    → IsDistinct (pool ++ (tx ∷ []))
IsDistinct-append tx [] d h = (tt, tt)
IsDistinct-append tx (t ∷ pool) d h = (
  All-append (λ s. s.hash ≢ t.hash) pool (tx ∷ []) d.0 ((λ e. h.0 (sym e)), tt),
  IsDistinct-append tx pool d.1 h.1,
)

-- Queueing keeps every hash once in the pool and every transaction in it valid.
pub queue_transaction-IsPool :
    (v : View) (pool : List PoolTx) (tx : PoolTx)
    → IsPool v pool
    → IsPool v (queue_transaction v pool tx).0
unfolding queue_transaction
queue_transaction-IsPool v pool tx (d, w) =
    elim (Bool-cases (find_tx pool (λ t. t.hash == tx.hash))) [
      | inl e ↦
          let q : queue_transaction v pool tx ≡ (pool, true) = rw (e, queue_transaction) refl in
          subst (λ r. IsPool v r.0) (sym q) (d, w)
      | inr e ↦ elim (Bool-cases (validate_transaction v tx)) [
        | inl k ↦
            let q : queue_transaction v pool tx ≡ (pool ++ (tx ∷ []), false) =
              rw (e, queue_transaction) (rw k refl) in
            subst (λ r. IsPool v r.0) (sym q)
              (
                IsDistinct-append tx pool d (find_tx-fresh tx pool e),
                All-append (λ t. validate_transaction v t ≡ true) pool (tx ∷ []) w (k, tt),
              )
        | inr k ↦
            let q : queue_transaction v pool tx ≡ (pool, false) =
              rw (e, queue_transaction) (rw k refl) in
            subst (λ r. IsPool v r.0) (sym q) (d, w)
      ]
    ]

-- RemoveInvalid removes the first invalid transaction and no other, however many follow it.
pub remove_invalid_lem :
    (v : View) (valid : List PoolTx) (tx : PoolTx) (rest : List PoolTx)
    → All (λ t. is_invalid v t ≡ false) valid
    → is_invalid v tx ≡ true
    → remove_invalid v (valid ++ (tx ∷ rest)) ≡ valid ++ rest
unfolding remove_invalid
remove_invalid_lem v [] tx rest h e = rw e
remove_invalid_lem v (t ∷ valid) tx rest h e =
    rw h.0 (ap (λ r. t ∷ r) (remove_invalid_lem v valid tx rest h.1 e))

-- No transaction of the pool has the pointer.
abbrev pub IsGone : PoolTx → List PoolTx → Type 0
IsGone tx pool = All (λ t. t.ident ≢ tx.ident) pool

-- Every pointer stands once.
abbrev pub IsPlain : List PoolTx → Type 0
IsPlain [] = Unit
IsPlain (tx ∷ pool) = IsGone tx pool × IsPlain pool

remove_tx-IsGone_other :
    (a tx : PoolTx) (pool : List PoolTx) → IsGone a pool → IsGone a (remove_tx tx pool)
unfolding remove_tx
remove_tx-IsGone_other a tx [] h = tt
remove_tx-IsGone_other a tx (t ∷ pool) h = elim (Bool-cases (t.ident == tx.ident)) [
  | inl e ↦ rw e h.1
  | inr e ↦ rw e (h.0, remove_tx-IsGone_other a tx pool h.1)
]

remove_tx-IsPlain :
    (tx : PoolTx) (pool : List PoolTx)
    → IsPlain pool
    → IsGone tx (remove_tx tx pool) × IsPlain (remove_tx tx pool)
unfolding remove_tx
remove_tx-IsPlain tx [] h = (tt, tt)
remove_tx-IsPlain tx (t ∷ pool) h = elim (Bool-cases (t.ident == tx.ident)) [
  | inl e ↦
      let same : t.ident ≡ tx.ident = (==_iff t.ident tx.ident).0 e in
      rw e (subst (λ i. All (λ s. s.ident ≢ i) pool) same h.0, h.1)
  | inr e ↦
      let rest = remove_tx-IsPlain tx pool h.1 in
      let apart : t.ident ≢ tx.ident =
        λ same. let f : true ≡ false = sym ((==_iff t.ident tx.ident).1 same) ∙ e in cc in
      rw e ((apart, rest.0), (remove_tx-IsGone_other t tx pool h.0, rest.1))
]

remove_set-IsGone :
    (a : PoolTx) (txs pool : List PoolTx) → IsGone a pool → IsGone a (remove_set txs pool)
unfolding remove_set
remove_set-IsGone a [] pool h = h
remove_set-IsGone a (tx ∷ txs) pool h =
    remove_set-IsGone a txs (remove_tx tx pool) (remove_tx-IsGone_other a tx pool h)

-- After RemoveSet none of the given transactions is in a pool that held each pointer once, and the
-- pool holds each pointer once.
remove_set-IsPlain :
    (txs pool : List PoolTx)
    → IsPlain pool
    → All (λ tx. IsGone tx (remove_set txs pool)) txs × IsPlain (remove_set txs pool)
unfolding remove_set
remove_set-IsPlain [] pool h = (tt, h)
remove_set-IsPlain (tx ∷ txs) pool h =
    let once = remove_tx-IsPlain tx pool h in
    let rest = remove_set-IsPlain txs (remove_tx tx pool) once.1 in
    ((remove_set-IsGone tx txs (remove_tx tx pool) once.0, rest.0), rest.1)
