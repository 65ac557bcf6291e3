-- ===== src/Word.antt =====
-- Go's uint64: arithmetic wraps around at 2^64.
use inso_sequencer.Base.{ℕ, ◌+◌, ◌-◌, ◌*◌, ◌%◌, ◌^◌, ◌<◌, ◌≤◌, ◌≡◌, arith}

abbrev pub u64_mod : ℕ
u64_mod = 2 ^ 64

abbrev pub add64 : ℕ → ℕ → ℕ
add64 a b = (a + b) % u64_mod

abbrev pub sub64 : ℕ → ℕ → ℕ
sub64 a b = (a + u64_mod - b) % u64_mod

abbrev pub mul64 : ℕ → ℕ → ℕ
mul64 a b = (a * b) % u64_mod

pub add64_exact : (a b : ℕ) → a + b < u64_mod → add64 a b ≡ a + b
add64_exact a b h = omega arith

pub sub64_exact : (a b : ℕ) → b ≤ a → a < u64_mod → sub64 a b ≡ a - b
sub64_exact a b h k = omega arith
