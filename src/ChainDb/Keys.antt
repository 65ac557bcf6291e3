-- ===== src/ChainDb/Keys.antt =====
-- internal/execution/chaindb.go: keys and numbers as bytes.
use native.Mathlib.Nat.{pow-suc}
use inso_sequencer.Base.{
  ℕ, zero, suc, ◌/◌, ◌%◌, ◌^◌, ◌<◌, ◌≡◌, refl, ap, ◌∙◌, true, false, List, [], ◌∷◌, ◌++◌, ◌==◌,
  arith, Bool-cases, inl, inr,
}
use inso_sequencer.ChainDb.{
  bytes_from, number_bytes, value_from, to_number, bytes_eq, Db, get, write_all,
}

value_from-bytes_from :
    (k n : ℕ) (acc : List ℕ) → n < 256 ^ k → value_from 0 (bytes_from k n acc) ≡ value_from n acc
unfolding bytes_from value_from
value_from-bytes_from zero n acc h = let z : n ≡ 0 = omega arith in rw z refl
value_from-bytes_from (suc k) n acc h = elim (Bool-cases (n == 0)) [
  | inl e ↦ let z : n ≡ 0 = ground arith in rw z refl
  | inr e ↦ rw e (
      value_from-bytes_from k (n / 256) ((n % 256) ∷ acc) (omega (arith, pow-suc 256 k, h))
      ∙ ap (λ x. value_from x acc) (omega arith))
]

pub to_number-number_bytes : (n : ℕ) → n < 2 ^ 64 → to_number (number_bytes n) ≡ n
unfolding to_number number_bytes value_from
to_number-number_bytes n h = rw (value_from-bytes_from 8 n [] (omega (arith, h))) (omega (arith, h))

pub bytes_eq_refl : (s : List ℕ) → bytes_eq s s ≡ true
bytes_eq_refl [] = refl
bytes_eq_refl (a ∷ s) = ground (arith, bytes_eq_refl s)

-- No write of the list has this key.
abbrev pub IsFresh : List ℕ → Db → Type 0
IsFresh k [] = Unit {0}
IsFresh k ((j, v) ∷ ws) = (bytes_eq j k ≡ false) × IsFresh k ws

pub get-write_all : (ws db : Db) (k : List ℕ) → IsFresh k ws → get (write_all ws db) k ≡ get db k
unfolding get write_all
get-write_all [] db k h = refl
get-write_all ((j, v) ∷ ws) db k h = get-write_all ws ((j, v) ∷ db) k h.1 ∙ rw h.0 refl

pub IsFresh-append : (k : List ℕ) (ws vs : Db) → IsFresh k ws → IsFresh k vs → IsFresh k (ws ++ vs)
IsFresh-append k [] vs h g = g
IsFresh-append k ((j, v) ∷ ws) vs h g = (h.0, IsFresh-append k ws vs h.1 g)
