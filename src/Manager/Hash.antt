-- ===== src/Manager/Hash.antt =====
-- internal/state/manager.go: computeBlockHash.
use mathlib.Core.List.{append_assoc}
use native.Mathlib.Nat.{pow-suc}
use inso_sequencer.Base.{
  ℕ, zero, suc, ◌+◌, ◌-◌, ◌/◌, ◌%◌, ◌^◌, ◌<◌, ◌≡◌, refl, sym, ap, ◌∙◌, List, [], ◌∷◌, ◌++◌, length,
  length-append, arith,
}
use inso_sequencer.ChainDb.{number_bytes, hash_bytes, fixed_bytes, value_from}
use inso_sequencer.Manager.{drop_bytes, bytes_to_hash, compute_block_hash}

value_from-fixed_bytes :
    (k n : ℕ) (acc : List ℕ) → n < 256 ^ k → value_from 0 (fixed_bytes k n acc) ≡ value_from n acc
unfolding fixed_bytes value_from
value_from-fixed_bytes zero n acc h = let z : n ≡ 0 = omega arith in rw z refl
value_from-fixed_bytes (suc k) n acc h =
    value_from-fixed_bytes k (n / 256) ((n % 256) ∷ acc) (omega (arith, pow-suc 256 k, h))
    ∙ ap (λ x. value_from x acc) (omega arith)

length-fixed_bytes : (k n : ℕ) (acc : List ℕ) → length (fixed_bytes k n acc) ≡ k + length acc
unfolding fixed_bytes
length-fixed_bytes zero n acc = omega arith
length-fixed_bytes (suc k) n acc = omega (arith, length-fixed_bytes k (n / 256) ((n % 256) ∷ acc))

drop_bytes-append : (xs ys : List ℕ) → drop_bytes (length xs) (xs ++ ys) ≡ ys
drop_bytes-append [] ys = refl
drop_bytes-append (x ∷ xs) ys = drop_bytes-append xs ys

-- Of bytes that end in the 32 bytes of a hash, BytesToHash keeps this hash.
bytes_to_hash-append : (bs : List ℕ) (h : ℕ) → h < 2 ^ 256 → bytes_to_hash (bs ++ hash_bytes h) ≡ h
unfolding bytes_to_hash hash_bytes value_from
bytes_to_hash-append bs h small =
    let size : length (bs ++ hash_bytes h) - 32 ≡ length bs =
      omega (arith, length-append bs (hash_bytes h), length-fixed_bytes 32 h []) in
    rw size (rw drop_bytes-append (value_from-fixed_bytes 32 h [] (omega arith)))

-- The hash that computeBlockHash gives a block is the hash of its parent, whatever else the block
-- holds.
pub compute_block_hash-parent :
    (number root timestamp parent : ℕ)
    → parent < 2 ^ 256
    → compute_block_hash number root timestamp parent ≡ parent
unfolding compute_block_hash
compute_block_hash-parent number root timestamp parent small =
    ap bytes_to_hash (
      ap (λ t. number_bytes number ++ t)
        (sym (append_assoc (hash_bytes root) (number_bytes timestamp) (hash_bytes parent)))
      ∙ sym (
          append_assoc (number_bytes number) (hash_bytes root ++ number_bytes timestamp)
            (hash_bytes parent)))
    ∙ bytes_to_hash-append (number_bytes number ++ (hash_bytes root ++ number_bytes timestamp))
        parent small
