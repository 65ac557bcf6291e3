-- ===== src/Genesis.antt =====
-- internal/genesis/genesis.go: the genesis accounts and InitializeState. Reading genesis.json is a
-- call of encoding/json. math/big, uint256 and what common makes of a text are a parameter,
-- `GenesisText`, over any type `B` of big integers; the writes of code and storage to the state database
-- are another, `GenesisDb`. Go goes through the maps in no specified order; here they are lists.
pub mod Supply
use Prim.Native.String.{String}
use text.Mathlib.Text.{◌==◌ as str_eq}
use inso_sequencer.Base.{
  ℕ, ◌+◌, ◌-◌, ◌%◌, ◌^◌, Bool, true, false, List, [], ◌∷◌, Option, none, some, ltb, if◌then◌else◌,
  ◌>>=◌,
}
use inso_sequencer.Evm.{StateDb}

pub record GenesisAccount : Type 0 where
  pub balance : String
  pub code : String
  pub nonce : ℕ
  pub storage : List (String × String)

-- The fields that the code reads, but for the chain config.
pub record Genesis : Type 0 where
  pub gas_limit : String
  pub alloc : List (String × GenesisAccount)

pub record GenesisText (B : Type 0) : Type 0 where
  -- `big.Int.SetString` with base 0, none for a text that is no number
  pub set_string : String → Option B
  -- `big.Int.Uint64`
  pub uint64_of : B → ℕ
  -- `uint256.FromBig`, whose overflow flag the code drops
  pub from_big : B → ℕ
  pub to_address : String → ℕ
  pub from_hex : String → List ℕ
  pub to_hash : String → ℕ

pub record GenesisDb (S : Type 0) : Type 0 where
  pub set_code : S → ℕ → List ℕ → S
  pub set_state : S → ℕ → ℕ → ℕ → S

pub default_account : GenesisAccount
default_account = record { balance = "0x21E19E0C9BAB2400000"; code = ""; nonce = 0; storage = [] }

pub default_genesis : Genesis
unfolding default_account
default_genesis = record {
  gas_limit = "0x1c9c380";
  alloc =
      ("0xf39Fd6e51aad88F6F4ce6aB8827279cffFb92266", default_account)
      ∷ ("0x70997970C51812dc3A010C7d01b50e0d17dc79C8", default_account)
      ∷ ("0x3C44CdDdB6a900fa2b585dd299e03d12FA4293BC", default_account)
      ∷ (
        "0x90F79bf6EB2c4f870365E785982E1f101E93b906",
        record default_account { balance = "0x152D02C7E14AF6800000" },
      )
      ∷ [];
}

pub parse_gas_limit : {B : Type 0} → GenesisText B → Genesis → ℕ
parse_gas_limit text g = elim (text.set_string g.gas_limit) [
  | none ↦ 30_000_000
  | some n ↦ text.uint64_of n
]

module _ {B S : Type 0} ⦃db : StateDb S⦄ (text : GenesisText B) (gdb : GenesisDb S) where
  set_storage : ℕ → List (String × String) → S → S
  set_storage addr [] s = s
  set_storage addr ((key, val) ∷ rest) s =
      set_storage addr rest (gdb.set_state s addr (text.to_hash key) (text.to_hash val))

  -- What is set after the balance.
  set_rest : ℕ → GenesisAccount → S → S
  unfolding set_storage
  set_rest addr account s =
      let s1 = if ltb 0 account.nonce then db.set_nonce s addr account.nonce else s in
      let s2 =
        if str_eq account.code "" then s1 else gdb.set_code s1 addr (text.from_hex account.code) in
      set_storage addr account.storage s2

  -- The loop over the accounts; none for a balance that is no number.
  add_accounts : List (String × GenesisAccount) → S → Option S
  unfolding set_rest
  add_accounts [] s = some s
  add_accounts ((addr_hex, account) ∷ rest) s = do
    balance ← text.set_string account.balance
    let addr = text.to_address addr_hex
    add_accounts rest (set_rest addr account (db.add_balance s addr (text.from_big balance)))

  -- The state; its root is what CommitState returns.
  pub initialize_state : Genesis → S → Option S
  unfolding add_accounts
  initialize_state g s = add_accounts g.alloc s
