-- ===== src/Rpc/Json.antt =====
-- The JSON values of a request, and what Go's encoding/json makes of them: a null leaves the zero
-- value of its target, and a value of another kind is an error. Of go-ethereum's hexutil and common,
-- and of fmt.Sscanf, `Hex` has what the handlers call, with none for an error.
use mathlib.Core.Option.{Option, none, some}
use mathlib.Core.List.{List, [], ◌∷◌}
use mathlib.Core.Bool.{Bool}
use Prim.Native.String.{String}
use inso_sequencer.Base.{ℕ, ltb, if◌then◌else◌, ◌>>=◌}
use inso_sequencer.Word.{u64_mod}

pub data Json : Type 0 where
  null : Json
  -- An array or an object: which one, is a number, and what it decodes to is a parameter.
  other : ℕ → Json
  boolean : Bool → Json
  number : ℕ → Json
  string : String → Json

-- The parameters of a request; none where they are no array.
abbrev pub Params : Type 0
Params = Option (List Json)

pub record Hex : Type 0 where
  pub decode_uint64 : String → Option ℕ
  pub to_hash : String → ℕ
  pub to_address : String → ℕ
  -- `fmt.Sscanf(s, "0x%x", &n)`
  pub scan : String → Option ℕ

abbrev pub text_of : Json → Option String
text_of (string s) = some s
text_of null = some ""
text_of (other k) = none
text_of (boolean b) = none
text_of (number n) = none

abbrev pub uint64_of : Json → Option ℕ
uint64_of (number n) = if ltb n u64_mod then some n else none
uint64_of null = some 0
uint64_of (other k) = none
uint64_of (boolean b) = none
uint64_of (string s) = none

-- A list of texts, as the type []string has them.
abbrev pub texts_of : List Json → Option (List String)
texts_of [] = some []
texts_of (j ∷ js) = text_of j >>= λ s. texts_of js >>= λ ss. some (s ∷ ss)

-- The first of the parameters.
abbrev pub first : {A : Type 0} → List A → Option A
first [] = none
first (x ∷ xs) = some x

abbrev pub first_text : Params → Option String
first_text p = p >>= first >>= text_of

-- The first of the parameters, where all have to be texts.
abbrev pub first_of_texts : Params → Option String
first_of_texts p = p >>= texts_of >>= first
