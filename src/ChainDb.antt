-- ===== src/ChainDb.antt =====
-- internal/execution/chaindb.go. The key-value store of go-ethereum is a map from byte strings;
-- `get` is `none` where its `Get` returns an error. A batch is written at once, or fails. The JSON
-- and RLP encodings are left out: the store holds the object itself, as a `Value`, and reading an
-- object of another kind is `foreign`. So a field that the encoding loses would not be seen here: the
-- names of the fields in pkg/types/block.go are distinct, and applyTransaction never leaves the logs of
-- a receipt nil, which would not decode.
pub mod Keys
pub mod Store
pub mod Meta
use inso_sequencer.Base.{
  ℕ, zero, suc, ◌+◌, ◌*◌, ◌/◌, ◌%◌, ◌^◌, Bool, true, false, ◌&&◌, List, [], ◌∷◌, ◌++◌, Option, none,
  some, ◌==◌, if◌then◌else◌,
}
use inso_sequencer.Types.{Tx, Receipt, L2Block, L1Origin, Batch}

-- new(big.Int).SetUint64(n).Bytes(): big-endian, with no leading zeros.
unfoldable pub bytes_from : ℕ → ℕ → List ℕ → List ℕ
bytes_from zero n acc = acc
bytes_from (suc k) n acc =
    let rest = bytes_from k (n / 256) ((n % 256) ∷ acc) in if n == 0 then acc else rest

unfoldable pub number_bytes : ℕ → List ℕ
number_bytes n = bytes_from 8 n []

-- new(big.Int).SetBytes(data).Uint64()
unfoldable pub value_from : ℕ → List ℕ → ℕ
value_from a [] = a
value_from a (b ∷ bs) = value_from (a * 256 + b) bs

unfoldable pub to_number : List ℕ → ℕ
to_number bs = value_from 0 bs % 2 ^ 64

-- common.Hash.Bytes(): 32 bytes, big-endian.
unfoldable pub fixed_bytes : ℕ → ℕ → List ℕ → List ℕ
fixed_bytes zero n acc = acc
fixed_bytes (suc k) n acc = fixed_bytes k (n / 256) ((n % 256) ∷ acc)

unfoldable pub hash_bytes : ℕ → List ℕ
unfolding fixed_bytes
hash_bytes h = fixed_bytes 32 h []

pub data Value : Type 0 where
  block : L2Block → Value
  number : List ℕ → Value
  tx : Tx → Value
  receipt : Receipt → Value
  batch : Batch → Value
  root : ℕ → Value
  origin : L1Origin → Value

abbrev pub bytes_eq : List ℕ → List ℕ → Bool
bytes_eq [] [] = true
bytes_eq [] (b ∷ t) = false
bytes_eq (a ∷ s) [] = false
bytes_eq (a ∷ s) (b ∷ t) = a == b && bytes_eq s t

abbrev pub Db : Type 0
Db = List (List ℕ × Value)

-- A later entry stands in front, and hides an earlier one with its key.
unfoldable pub get : Db → List ℕ → Option Value
get [] k = none
get ((j, v) ∷ db) k = if bytes_eq j k then some v else get db k

-- The writes of a batch, in order.
unfoldable pub write_all : Db → Db → Db
write_all [] db = db
write_all (w ∷ ws) db = write_all ws (w ∷ db)

abbrev pub block_key : ℕ → List ℕ
block_key num = b'b' ∷ number_bytes num

abbrev pub block_hash_key : ℕ → List ℕ
block_hash_key h = b'h' ∷ hash_bytes h

abbrev pub receipt_key : ℕ → List ℕ
receipt_key h = b'r' ∷ hash_bytes h

abbrev pub tx_key : ℕ → List ℕ
tx_key h = b't' ∷ hash_bytes h

abbrev pub tx_block_key : ℕ → List ℕ
tx_block_key h = b't' ∷ b'b' ∷ hash_bytes h

abbrev pub batch_key : ℕ → List ℕ
batch_key i = b'b' ∷ b't' ∷ number_bytes i

-- "current-block", "latest-root", "latest-batch-index", "genesis-root", "l1-origin"
abbrev pub key_current_block : List ℕ
key_current_block =
    b'c' ∷ b'u' ∷ b'r' ∷ b'r' ∷ b'e' ∷ b'n' ∷ b't' ∷ b'-' ∷ b'b' ∷ b'l' ∷ b'o' ∷ b'c' ∷ b'k' ∷ []

abbrev pub key_latest_root : List ℕ
key_latest_root = b'l' ∷ b'a' ∷ b't' ∷ b'e' ∷ b's' ∷ b't' ∷ b'-' ∷ b'r' ∷ b'o' ∷ b'o' ∷ b't' ∷ []

abbrev pub key_latest_batch : List ℕ
key_latest_batch =
    b'l' ∷ b'a' ∷ b't' ∷ b'e' ∷ b's' ∷ b't' ∷ b'-' ∷ b'b' ∷ b'a' ∷ b't' ∷ b'c' ∷ b'h' ∷ b'-' ∷ b'i'
    ∷ b'n' ∷ b'd' ∷ b'e' ∷ b'x' ∷ []

abbrev pub key_genesis_root : List ℕ
key_genesis_root =
    b'g' ∷ b'e' ∷ b'n' ∷ b'e' ∷ b's' ∷ b'i' ∷ b's' ∷ b'-' ∷ b'r' ∷ b'o' ∷ b'o' ∷ b't' ∷ []

abbrev pub key_l1_origin : List ℕ
key_l1_origin = b'l' ∷ b'1' ∷ b'-' ∷ b'o' ∷ b'r' ∷ b'i' ∷ b'g' ∷ b'i' ∷ b'n' ∷ []

pub record ChainDb : Type 0 where
  pub db : Db
  pub current_block : ℕ
  pub state_root : ℕ

-- `nil, nil`, the object, or what is decoded from an object of another kind.
pub data Found (A : Type 0) : Type 0 where
  absent : Found A
  found : A → Found A
  foreign : Value → Found A

abbrev number_or_zero : Option Value → ℕ
number_or_zero (some (number bs)) = to_number bs
number_or_zero _ = 0

abbrev root_or_zero : Option Value → ℕ
root_or_zero (some (root r)) = r
root_or_zero _ = 0

unfoldable pub new_chain_db : Db → ChainDb
unfolding get
new_chain_db db = record {
  db = db;
  current_block = number_or_zero (get db key_current_block);
  state_root = root_or_zero (get db key_latest_root);
}

tx_writes : ℕ → List Tx → Db
tx_writes num [] = []
tx_writes num (t ∷ ts) =
    (tx_key t.hash, tx t) ∷ (tx_block_key t.hash, number (number_bytes num)) ∷ tx_writes num ts

receipt_writes : List Receipt → Db
receipt_writes [] = []
receipt_writes (r ∷ rs) = (receipt_key r.tx_hash, receipt r) ∷ receipt_writes rs

block_writes : L2Block → Db
block_writes b =
    let num = b.header.number in
    (block_key num, block b)
    ∷ (block_hash_key b.header.hash, number (number_bytes num))
    ∷ (tx_writes num b.transactions
        ++ (receipt_writes b.receipts
            ++ ((key_current_block, number (number_bytes num))
                ∷ (key_latest_root, root b.header.state_root)
                ∷ [])))

-- `writes` says whether the batch is written; the result, whether no error is returned.
unfoldable pub write_block : Bool → ChainDb → L2Block → Bool × ChainDb
unfolding block_writes tx_writes receipt_writes write_all
write_block writes c b =
    if writes
    then (
      true,
      record {
        db = write_all (block_writes b) c.db;
        current_block = b.header.number;
        state_root = b.header.state_root;
      },
    )
    else (false, c)

as_block : Option Value → Found L2Block
as_block none = absent
as_block (some (block b)) = found b
as_block (some v) = foreign v

unfoldable pub read_block : ChainDb → ℕ → Found L2Block
unfolding get as_block
read_block c num = as_block (get c.db (block_key num))

-- A number whose block is missing is an error, `none`.
unfoldable pub read_block_by_hash : ChainDb → ℕ → Option (Found L2Block)
unfolding get as_block
read_block_by_hash c h = elim (get c.db (block_hash_key h)) [
  | some (number bs) ↦ elim (get c.db (b'b' ∷ bs)) [
    | none ↦ none
    | some v ↦ some (as_block (some v))
  ]
  | none ↦ some absent
  | some v ↦ some (foreign v)
]

-- Nothing, or an object of the kind that is asked for.
abbrev pub IsReadable : {A : Type 0} → Found A → Type 0
IsReadable absent = Unit {0}
IsReadable (found a) = Unit {0}
IsReadable (foreign v) = ⊥

-- The hash of what ReadBlock returns, 0 if it returns nothing. What is decoded from an object of another
-- kind has no header, and reading its hash panics, `none`.
unfoldable pub hash_of : Found L2Block → Option ℕ
hash_of (found b) = some b.header.hash
hash_of absent = some 0
hash_of (foreign v) = none

unfoldable pub read_block_hash : ChainDb → ℕ → Option ℕ
unfolding read_block hash_of
read_block_hash c num = hash_of (read_block c num)

unfoldable pub read_transaction : ChainDb → ℕ → Found Tx
unfolding get
read_transaction c h = elim (get c.db (tx_key h)) [
  | none ↦ absent
  | some (tx t) ↦ found t
  | some v ↦ foreign v
]

unfoldable pub read_receipt : ChainDb → ℕ → Found Receipt
unfolding get
read_receipt c h = elim (get c.db (receipt_key h)) [
  | none ↦ absent
  | some (receipt r) ↦ found r
  | some v ↦ foreign v
]

unfoldable pub read_tx_block_number : ChainDb → ℕ → Option ℕ
unfolding get
read_tx_block_number c h = elim (get c.db (tx_block_key h)) [
  | some (number bs) ↦ some (to_number bs)
  | _ ↦ none
]

unfoldable pub write_batch : Bool → ChainDb → Batch → Bool × ChainDb
unfolding write_all
write_batch writes c b =
    if writes
    then (
      true,
      record c {
        db =
            write_all
              ((batch_key b.index, batch b)
                ∷ (key_latest_batch, number (number_bytes b.index))
                ∷ [])
              c.db;
      },
    )
    else (false, c)

as_batch : Option Value → Found Batch
as_batch none = absent
as_batch (some (batch b)) = found b
as_batch (some v) = foreign v

unfoldable pub read_batch : ChainDb → ℕ → Found Batch
unfolding get as_batch
read_batch c i = as_batch (get c.db (batch_key i))

unfoldable pub read_latest_batch : ChainDb → Found Batch
unfolding get as_batch
read_latest_batch c = elim (get c.db key_latest_batch) [
  | some (number bs) ↦ as_batch (get c.db (b'b' ∷ b't' ∷ bs))
  | none ↦ absent
  | some v ↦ foreign v
]

unfoldable pub write_genesis_root : ChainDb → ℕ → ChainDb
write_genesis_root c r = record c { db = (key_genesis_root, root r) ∷ c.db }

unfoldable pub read_genesis_root : ChainDb → Option ℕ
unfolding get
read_genesis_root c = elim (get c.db key_genesis_root) [ some (root r) ↦ some r | _ ↦ none ]

unfoldable pub write_l1_origin : Bool → ChainDb → L1Origin → Bool × ChainDb
write_l1_origin writes c o =
    if writes then (true, record c { db = (key_l1_origin, origin o) ∷ c.db }) else (false, c)

unfoldable pub read_l1_origin : ChainDb → Found L1Origin
unfolding get
read_l1_origin c = elim (get c.db key_l1_origin) [
  | none ↦ absent
  | some (origin o) ↦ found o
  | some v ↦ foreign v
]
