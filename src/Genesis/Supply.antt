-- ===== src/Genesis/Supply.antt =====
-- internal/genesis/genesis.go: when InitializeState succeeds, and what it hands out.
use Prim.Native.String.{String}
use text.Mathlib.Text.{◌==◌ as str_eq}
use inso_sequencer.Base.{
  ℕ, ◌+◌, ◌^◌, ◌≤◌, ◌<◌, ◌≡◌, refl, ◌∙◌, inl, inr, ◌⊎◌, List, [], ◌∷◌, Option, none, some, ltb,
  if◌then◌else◌, ◌>>=◌, arith, Bool-cases, Option-cases, Returns, returns, Returns-map,
}
use inso_sequencer.Evm.{StateDb}
use inso_sequencer.Genesis.{
  GenesisAccount, Genesis, GenesisText, GenesisDb, set_storage, set_rest, add_accounts,
  initialize_state,
}

-- What the code relies on: `supply` is the sum of all balances, so no balance is above it; an addition
-- that does not pass 256 bits adds to it, and nonces, code and storage are no balances.
pub record GenesisLaws {S : Type 0} ⦃db : StateDb S⦄ (gdb : GenesisDb S) : Type 0 where
  pub supply : S → ℕ
  pub balance_le : (s : S) (a : ℕ) → db.get_balance s a ≤ supply s
  pub supply_add :
      (s : S) (a v : ℕ)
      → db.get_balance s a + v < 2 ^ 256
      → supply (db.add_balance s a v) ≡ supply s + v
  pub supply_nonce : (s : S) (a n : ℕ) → supply (db.set_nonce s a n) ≡ supply s
  pub supply_code :
      (s : S) (addr : ℕ) (code : List ℕ) → supply (gdb.set_code s addr code) ≡ supply s
  pub supply_state : (s : S) (addr key val : ℕ) → supply (gdb.set_state s addr key val) ≡ supply s

-- The sum of the balances, none if one of them is no number.
abbrev pub allocated : {B : Type 0} → GenesisText B → List (String × GenesisAccount) → Option ℕ
allocated text [] = some 0
allocated text ((a, account) ∷ rest) = do
  balance ← text.set_string account.balance
  total ← allocated text rest
  some (text.from_big balance + total)

module _ {B S : Type 0} ⦃db : StateDb S⦄ (text : GenesisText B) (gdb : GenesisDb S)
    (laws : GenesisLaws gdb) where
  set_storage-supply :
      (addr : ℕ) (rest : List (String × String)) (s : S)
      → laws.supply (set_storage text gdb addr rest s) ≡ laws.supply s
  unfolding set_storage
  set_storage-supply addr [] s = refl
  set_storage-supply addr ((key, val) ∷ rest) s =
      set_storage-supply addr rest (gdb.set_state s addr (text.to_hash key) (text.to_hash val))
      ∙ laws.supply_state s addr (text.to_hash key) (text.to_hash val)

  with_nonce-supply :
      (addr nonce : ℕ) (s : S)
      → laws.supply (if ltb 0 nonce then db.set_nonce s addr nonce else s) ≡ laws.supply s
  with_nonce-supply addr nonce s = elim (Bool-cases (ltb 0 nonce)) [
    | inl e ↦ rw e (laws.supply_nonce s addr nonce)
    | inr e ↦ rw e refl
  ]

  with_code-supply :
      (addr : ℕ) (code : String) (s : S)
      → laws.supply (if str_eq code "" then s else gdb.set_code s addr (text.from_hex code))
        ≡ laws.supply s
  with_code-supply addr code s = elim (Bool-cases (str_eq code "")) [
    | inl e ↦ rw e refl
    | inr e ↦ rw e (laws.supply_code s addr (text.from_hex code))
  ]

  set_rest-supply :
      (addr : ℕ) (account : GenesisAccount) (s : S)
      → laws.supply (set_rest text gdb addr account s) ≡ laws.supply s
  unfolding set_rest
  set_rest-supply addr account s =
      set_storage-supply addr account.storage _
      ∙ (with_code-supply addr account.code _ ∙ with_nonce-supply addr account.nonce s)

  -- The accounts are added, or one of them has no number for a balance.
  abbrev Allocates : Option ℕ → S → Option S → Type 0
  Allocates none s r = r ≡ none
  Allocates (some total) s r =
      laws.supply s + total < 2 ^ 256 → Returns (λ t. laws.supply t ≡ laws.supply s + total) r

  after_one :
      (o : Option ℕ) (v : ℕ) (s s' : S) (r : Option S)
      → (laws.supply s + v < 2 ^ 256 → laws.supply s' ≡ laws.supply s + v)
      → Allocates o s' r
      → Allocates (o >>= λ total. some (v + total)) s r
  after_one none v s s' r added ih = ih
  after_one (some total) v s s' r added ih = λ fits.
      let one : laws.supply s' ≡ laws.supply s + v = added (omega arith) in
      Returns-map (ih (omega (arith, one))) λ t e. omega (arith, e, one)

  add_accounts-Allocates :
      (accounts : List (String × GenesisAccount)) (s : S)
      → Allocates (allocated text accounts) s (add_accounts text gdb accounts s)
  unfolding add_accounts
  add_accounts-Allocates [] s = λ fits. returns (omega arith)
  add_accounts-Allocates ((a, account) ∷ rest) s =
      elim (Option-cases (text.set_string account.balance)) [
        | inl e ↦ rw e refl
        | inr (balance, e) ↦
            let addr = text.to_address a in
            let s1 = db.add_balance s addr (text.from_big balance) in
            let s' = set_rest text gdb addr account s1 in
            let added : laws.supply s + text.from_big balance < 2 ^ 256
                → laws.supply s' ≡ laws.supply s + text.from_big balance =
              λ fits.
                set_rest-supply addr account s1
                ∙ laws.supply_add s addr (text.from_big balance)
                    (omega (arith, laws.balance_le s addr)) in
            rw e (
              after_one (allocated text rest) (text.from_big balance) s s' _ added
                (add_accounts-Allocates rest s'))
      ]

  -- When the balances that the accounts have, with those of the state before, add up to less than
  -- 2^256, the genesis state is made exactly when every account has a number for its balance, and then it
  -- holds what the state before held and the sum of those balances, each as uint256.FromBig has it:
  -- nonces, code and storage change no balance, under the laws of the state database.
  pub initialize_state_allocates :
      (g : Genesis) (s : S)
      → ((total : ℕ) → allocated text g.alloc ≡ some total → laws.supply s + total < 2 ^ 256)
      → ((allocated text g.alloc ≡ none) × (initialize_state text gdb g s ≡ none))
        ⊎ ((total : ℕ) × (allocated text g.alloc ≡ some total)
            × Returns (λ t. laws.supply t ≡ laws.supply s + total) (initialize_state text gdb g s))
  unfolding initialize_state
  initialize_state_allocates g s word =
      let h = add_accounts-Allocates g.alloc s in
      elim (Option-cases (allocated text g.alloc)) [
        | inl e ↦ inl (e, rw e at h)
        | inr (total, e) ↦
            let rich : Allocates (some total) s (add_accounts text gdb g.alloc s) = rw e at h in
            inr (total, e, rich (word total e))
      ]
