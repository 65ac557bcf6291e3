-- ===== src/Base/Sets.antt =====
-- Go's map[K]V with numbers for keys, as a list of its entries.
use Prim.Native.Nat.{ℕ}
use mathlib.Core.Path.{◌≡◌, refl}
use mathlib.Core.Bool.{Bool, true, false}
use mathlib.Core.List.{List, [], ◌∷◌}
use mathlib.Core.Option.{Option, none, some}
use native.Mathlib.Omega.{arith}
use inso_sequencer.Base.Tests.{◌==◌, if◌then◌else◌}

module _ {V : Type 0} where
  abbrev pub get : ℕ → List (ℕ × V) → Option V
  get k [] = none
  get k ((j, v) ∷ m) = if j == k then some v else get k m

  abbrev pub put : ℕ → V → List (ℕ × V) → List (ℕ × V)
  put k v [] = (k, v) ∷ []
  put k v ((j, w) ∷ m) = if j == k then (k, v) ∷ m else (j, w) ∷ put k v m

  abbrev pub delete : ℕ → List (ℕ × V) → List (ℕ × V)
  delete k [] = []
  delete k ((j, w) ∷ m) = let rest = delete k m in if j == k then rest else (j, w) ∷ rest

  -- `_, ok := m[k]`
  abbrev pub contains : ℕ → List (ℕ × V) → Bool
  contains k m = elim (get k m) [ none ↦ false | some _ ↦ true ]

  pub get-put :
      (k j : ℕ) (v : V) (m : List (ℕ × V))
      → get j (put k v m) ≡ (if k == j then some v else get j m)
  get-put k j v [] = refl
  get-put k j v ((i, w) ∷ m) = ground (arith, get-put k j v m)

  pub get-delete :
      (k j : ℕ) (m : List (ℕ × V)) → get j (delete k m) ≡ (if k == j then none else get j m)
  get-delete k j [] = ground arith
  get-delete k j ((i, w) ∷ m) = ground (arith, get-delete k j m)
