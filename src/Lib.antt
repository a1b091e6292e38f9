-- ===== src/Lib.antt =====
-- A model of the core of thelonious, a blockchain node: its serialisation (monkutil), its trie and
-- the cache before the database (monktrie), its virtual machine (monkvm), the objects of the world
-- state (monkstate), the application of a transaction to them and the chain of blocks (monkchain),
-- the pools that transactions and blocks wait in, the reactor that hands events on (monkreact) and
-- the words that keys are written down with (monkcrypto). A transaction buys gas from the coinbase's object, moves value,
-- runs the virtual machine on the code of the receiver and is refunded; the machine charges gas for
-- each instruction and grows its memory; the objects are serialised by RLP and stored in the trie
-- under nibble keys.
--
-- Base has what all parts share: Boolean tests and lists on native numbers, Go's index and slice
-- expressions, the outcome of a function that may panic, and signed integers. A slice is taken to have
-- no capacity beyond its length, but in Decode and for the code that the machine runs.
--
-- Util/Big and Util/Bytes: monkutil/big.go and monkutil/bytes.go. Big integers are numbers, bytes
-- are numbers below 256 and byte slices are lists of them.
--
-- Rlp/Values, Rlp/Encode, Rlp/Decode: _Encode and _Decode of monkutil/rlp.go, with COMPRESS false,
-- its default, over a type of the values that Encode distinguishes. Positions are uint64 numbers
-- that wrap. The input of Decode is the array behind the slice up to the slice's capacity, with the
-- slice's length, since Go bounds an index by the length and a slice expression by the capacity.
-- Decode runs on fuel, twice the length of the array and two more: every call consumes a byte or is
-- the last of a loop, and Rlp/Total shows that this is enough.
--
-- Trie/Encoding and Trie/Slices: monktrie/encoding.go and monktrie/slice.go. Trie/Nodes: Update and
-- Get of monktrie/trie.go, with the nodes that the cache holds as a list of hashes and nodes, the
-- latest first. A node is a text or a slice of 2 or 17, and no difference is made between a string
-- and a []byte; the hash function is a parameter, and so is the node that a text of 1 to 31 bytes
-- decodes to, which Update and Get never ask for in a trie that they made themselves. getState and
-- InsertState run on fuel, one more than the nibbles of the key: a round takes a nibble off the key
-- unless a node has an empty key, which no node of a trie that Update made has. Trie/Tree is what
-- the nodes stand for: a tree over nibbles with no hashes, in which a value stands behind the
-- nibble 16 and nowhere else. That two different nodes never have one hash cannot be assumed of all
-- nodes, as there are more nodes than hashes; Nodes/Stores has the predicate that it did not happen
-- in a cache, and the theorems ask it of the cache at the end. Trie/Cache is the cache before the
-- database, over any type of values: what is put is dirty until Commit writes it, and Undo forgets
-- it.
--
-- Vm/Opcodes: the constants and the two tables of monkvm/types.go. Vm/Stack and Vm/Memory:
-- monkvm/stack.go. Vm/Closure: the gas and the code of monkvm/closure.go. Vm/Gas: the switch at the
-- head of RunClosure in monkvm/vm.go that prices an instruction and sizes the memory, and
-- Vm/Gas/Charge what follows it. Vm/Arithmetic: the instructions 0x01 to 0x15. Vm/Machine: those
-- that push, duplicate, swap, copy, load and store, and the jumps. Stack.Push copies the number that
-- it is given, so that the places of the stack and the program counter never share one, and numbers
-- stand for the pointers. Vm/Loop: the loop that fetches, prices, pays for and executes an instruction, until it
-- returns or comes to an instruction that is not modelled; it runs on as much fuel as there is gas,
-- and one, since every turn that leads to another takes gas. Of a Go panic no more than its having happened is modelled.
--
-- State/Objects and State/Accounts: balance, gas pool, nonce and code of the objects of
-- monkstate/state_object.go, and the map of monkstate/state.go as a list of the objects.
--
-- Chain/Transition: monkchain/state_transition.go. The permission check (genDoug) and the
-- evaluation of code are parameters. Pointers to objects are addresses, and setting the state to
-- its snapshot is a field of the run, since the cached pointers keep to the old objects. The
-- evaluation also says whether the state still has the objects that it had, which it has not after a
-- CALL or CREATE that failed. The coinbase's object is taken to be in the state at the start.
--
-- Chain/TransactionPool: the list of monkchain/transaction_pool.go and the operations on it, over a
-- view of the chain and the state. Chain/Bloom: monkchain/bloom.go. Chain/BlockPool: the hashes and
-- blocks of block_pool.go, and which of them chainThread tries to append, over the blocks in the
-- order that they are sorted into.
--
-- Chain/Manager: monkchain/chain_manager.go. A chain from the block pool is tested (Manager/Testing)
-- and then inserted (Manager/Inserting), which lengthens the canonical chain (Manager/Adding) or
-- changes to another branch; Manager/Walking goes back along the parents, and Manager/Checkpoints has
-- the checkpoint. The database is the maps that the manager writes in it, with a block and a BlockInfo
-- in place of their encodings; that these decode to what was encoded is assumed. Links and their
-- totals are places in two stores, since the code shares them. The BlockProcessor, an interface of the
-- source, and the protocol's judgement of a checkpoint are parameters; the processor may answer a nil
-- total, and is taken to leave the blocks as they are, although the block manager writes the gas of a
-- block into its parent. Hashes have at least the four
-- bytes that the messages print. The change of the branch and the walks run on fuel: for the walk to a
-- number one more than the head's number is enough, and a chain behind the head needs none.
--
-- Chain/Rewards: AccumelateRewards of monkchain/block_manager.go, over the accounts of State/Accounts.
--
-- Crypto/Mnemonic: monkcrypto/mnemonic.go with the table of mnemonic_words.go. That no word stands
-- twice in the table is checked by a search tree over it.
--
-- React: the handlers of monkreact/reactor.go, and in React/Engine the engine as a relation of steps:
-- of its loop, of those who post, and of Start, Stop, Flush and the subscriptions. The lock is held by
-- a Post between its steps, and by the others within one step.
--
-- Not modelled: deletion from the trie and its iterators, storage of contracts, the other
-- instructions (SHA3, RLPDECODE, RLPENCODE, the environment, storage, CREATE, CALL, SUICIDE), the
-- rest of the block manager, the start of the chain manager, the peers and times of the block pool, keys and
-- signatures, and all that talks to the network, the disk, a console or JavaScript (peer.go,
-- thelonious.go, nat.go, natpmp.go, natupnp.go, monkwire, monkrpc, monkpipe, monkdb, monkminer,
-- monklog, websocket, monk, cmd). Logging has no effect here, and locks are left out but in the
-- reactor: each operation runs alone. Memory that cannot be allocated is not modelled.
--
-- Tests holds runs of the models and the theorems at concrete inputs.
pub mod Base
pub mod Util
pub mod Rlp
pub mod Trie
pub mod Tests
pub mod Vm
pub mod State
pub mod Chain
pub mod Crypto
pub mod React
