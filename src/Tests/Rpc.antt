-- ===== src/Tests/Rpc.antt =====
-- internal/rpc on small inputs.
use inso_sequencer.Base.{ℕ, ◌≡◌, true, [], ◌∷◌, some, none, arith}
use inso_sequencer.ChainDb.{write_block}
use inso_sequencer.Manager.{Manager, fresh_manager}
use inso_sequencer.Rpc.{Log, LogFilter, latest, at_block, resolve, match_log, get_logs}
use inso_sequencer.Rpc.Matching.{IsMatch, match_log-IsMatch}
use inso_sequencer.Rpc.Scan.{span, logs_from, get_logs_scans}
use inso_sequencer.Tests.Toys.{a_block, empty_db}

abbrev a_log : Log
a_log = record { address = 5; topics = 7 ∷ 8 ∷ [] }

match_log-IsMatch_example :
    (match_log a_log (some 5) ([] ∷ (8 ∷ 9 ∷ []) ∷ []) ≡ true
      → IsMatch a_log (some 5) ([] ∷ (8 ∷ 9 ∷ []) ∷ []))
    × (IsMatch a_log (some 5) ([] ∷ (8 ∷ 9 ∷ []) ∷ [])
        → match_log a_log (some 5) ([] ∷ (8 ∷ 9 ∷ []) ∷ []) ≡ true)
match_log-IsMatch_example = match_log-IsMatch a_log (some 5) ([] ∷ (8 ∷ 9 ∷ []) ∷ [])

abbrev node : Manager ℕ
node = record (fresh_manager 42 3 0 (write_block true empty_db a_block).1) {
  current_block = 7;
  state_root = 8;
}

abbrev from_5 : LogFilter
from_5 = record { from_block = at_block 5; to_block = latest; address = none; topics = [] }

get_logs_scans_example :
    get_logs (λ n. a_log) node from_5 ≡ some (logs_from (λ n. a_log) node from_5 5 (span 5 7))
unfolding resolve
get_logs_scans_example = get_logs_scans (λ n. a_log) node from_5 (omega arith) (omega arith)
