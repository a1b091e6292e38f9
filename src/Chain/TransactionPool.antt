-- ===== src/Chain/TransactionPool.antt =====
-- monkchain/transaction_pool.go: the pool as the list of its transactions, oldest first. A transaction
-- is the object that a pointer points to: `ident` tells the pointers apart, `hash` what they point to.
-- The chain's last block and the state are parameters of the validation. Sending to peers and events
-- is left out, as are the locks: each operation runs alone.
pub mod Laws
use thelonious.Base.{
  ℕ, List, [], ◌∷◌, ◌++◌, length, ltb, leb, ◌==◌, if◌then◌else◌, Bool, true, false, ◌||◌, ◌&&◌,
}
use mathlib.Core.Bool.{not}
use thelonious.Base.Int.{ℤ, pos, ltb_ℤ}

pub record PoolTx : Type 0 where
  pub ident : ℕ
  pub hash : ℕ
  pub sender : ℕ
  pub nonce : ℕ
  pub value : ℕ
  pub gas_price : ℕ
  pub recipient_length : ℕ
  pub is_contract : Bool

-- What the pool reads of the rest of the node: whether there is a last block, balances and nonces.
pub record View : Type 0 where
  pub has_block : Bool
  pub balance : ℕ → ℤ
  pub account_nonce : ℕ → ℕ

unfoldable pub find_tx : List PoolTx → (PoolTx → Bool) → Bool
find_tx [] finder = false
find_tx (tx ∷ pool) finder = finder tx || find_tx pool finder

-- MinGasPrice and minGasPrice.
abbrev pub min_gas_price : ℕ
min_gas_price = 0

-- True for no error.
unfoldable pub validate_transaction : View → PoolTx → Bool
validate_transaction v tx =
    if not v.has_block
    then false
    else if not (tx.recipient_length == 0) && not (tx.recipient_length == 20)
    then false
    else if ltb tx.gas_price min_gas_price
    then false
    else if ltb_ℤ (v.balance tx.sender) (pos tx.value)
    then false
    else not (tx.is_contract && ltb tx.gas_price min_gas_price)

-- The pool afterwards, and the answer: whether the transaction was there.
unfoldable pub queue_transaction : View → List PoolTx → PoolTx → List PoolTx × Bool
unfolding find_tx validate_transaction
queue_transaction v pool tx =
    if find_tx pool (λ t. t.hash == tx.hash)
    then (pool, true)
    else if validate_transaction v tx
    then (pool ++ (tx ∷ []), false)
    else (pool, false)

unfoldable pub is_invalid : View → PoolTx → Bool
unfolding validate_transaction
is_invalid v tx = not (validate_transaction v tx) || leb tx.nonce (v.account_nonce tx.sender)

-- `pool.Remove(e)` clears the links of `e`, so `e.Next()` is nil and the loop ends.
unfoldable pub remove_invalid : View → List PoolTx → List PoolTx
unfolding is_invalid
remove_invalid v [] = []
remove_invalid v (tx ∷ pool) =
    let rest = remove_invalid v pool in if is_invalid v tx then pool else tx ∷ rest

-- EachTx with the body of RemoveSet: the first element with that pointer goes.
unfoldable pub remove_tx : PoolTx → List PoolTx → List PoolTx
remove_tx tx [] = []
remove_tx tx (t ∷ pool) =
    let rest = remove_tx tx pool in if t.ident == tx.ident then pool else t ∷ rest

unfoldable pub remove_set : List PoolTx → List PoolTx → List PoolTx
unfolding remove_tx
remove_set [] pool = pool
remove_set (tx ∷ txs) pool = remove_set txs (remove_tx tx pool)

-- The transactions, and the pool afterwards.
unfoldable pub flush : List PoolTx → List PoolTx × List PoolTx
flush pool = (pool, [])
