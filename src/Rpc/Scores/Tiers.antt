-- ===== src/Rpc/Scores/Tiers.antt =====
-- internal/rpc/handler.go: the tiers of inso_getComplianceStatus.
use inso_sequencer.Base.{ℕ, ◌≤◌, arith}
use inso_sequencer.Rpc.Scores.{FatfTier, tier_a, tier_b, tier_c, tier_d, tier_e, tier_f, screen}

abbrev pub risk : FatfTier → ℕ
risk tier_a = 0
risk tier_b = 1
risk tier_c = 2
risk tier_d = 3
risk tier_e = 4
risk tier_f = 5

-- A higher score never has a worse tier.
screen_antitone : (m n : ℕ) → m ≤ n → risk (screen n).fatf_tier ≤ risk (screen m).fatf_tier
unfolding screen
screen_antitone m n h = ground arith
