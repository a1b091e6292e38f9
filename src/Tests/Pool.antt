-- ===== src/Tests/Pool.antt =====
-- The transaction pool and the Bloom filter at concrete inputs.
use thelonious.Base.{
  ℕ, ◌≡◌, refl, arith, List, [], ◌∷◌, ◌++◌, length, set, replicate, true, false, ◌+◌, ok,
}
use thelonious.Base.Int.{pos}
use thelonious.Chain.TransactionPool.{
  PoolTx, View, validate_transaction, queue_transaction, is_invalid, remove_invalid,
}
use thelonious.Chain.TransactionPool.Laws.{IsPool, queue_transaction-IsPool, remove_invalid_lem}
use thelonious.Chain.Bloom.{set_address, search_address, search_address-set_address}

abbrev pay : ℕ → ℕ → PoolTx
pay i n = record {
  ident = i;
  hash = 100 + i;
  sender = 1;
  nonce = n;
  value = 10;
  gas_price = 1;
  recipient_length = 20;
  is_contract = false;
}

abbrev view : View
view = record { has_block = true; balance = λ a. pos 50; account_nonce = λ a. 4 }

queue_transaction-IsPool_example : IsPool view (queue_transaction view (pay 1 5 ∷ []) (pay 2 6)).0
unfolding validate_transaction
queue_transaction-IsPool_example =
    queue_transaction-IsPool view (pay 1 5 ∷ []) (pay 2 6) ((tt, tt), (refl, tt))

-- Two transactions are invalid, and the second stays.
remove_invalid_lem_example :
    remove_invalid view ((pay 1 5 ∷ []) ++ (pay 2 3 ∷ (pay 3 2 ∷ [])))
    ≡ (pay 1 5 ∷ []) ++ (pay 3 2 ∷ [])
unfolding is_invalid validate_transaction
remove_invalid_lem_example =
    remove_invalid_lem view (pay 1 5 ∷ []) (pay 2 3) (pay 3 2 ∷ []) (refl, tt) refl

abbrev pool : List PoolTx
pool = pay 1 5 ∷ pay 2 6 ∷ []

abbrev filter : List ℕ
filter = set (replicate {A = ℕ} 256 0) 5 1

abbrev fives : List ℕ
fives = 5 ∷ 5 ∷ 5 ∷ 5 ∷ 5 ∷ 5 ∷ 5 ∷ 5 ∷ []

abbrev digits : List ℕ
digits = 9 ∷ 1 ∷ 2 ∷ 3 ∷ 4 ∷ 5 ∷ 6 ∷ 7 ∷ 255 ∷ []

fives_found : search_address filter fives ≡ ok true
unfolding search_address
fives_found = refl

search_address-set_address_example :
    (bin' : List ℕ) × (set_address filter digits ≡ ok bin')
    × (length bin' ≡ 256)
    × (search_address bin' digits ≡ ok true)
    × (search_address bin' fives ≡ ok true)
search_address-set_address_example =
    search_address-set_address filter digits fives refl
      (
        omega arith,
        (
          omega arith,
          (
            omega arith,
            (
              omega arith,
              (omega arith, (omega arith, (omega arith, (omega arith, (omega arith, tt))))),
            ),
          ),
        ),
      )
      (omega arith) fives_found
