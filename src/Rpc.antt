-- ===== src/Rpc.antt =====
-- internal/rpc/handler.go: eth_getLogs. JSON is decoded by a library: the filter is a record, and a
-- bound that is missing or no number is `unset`. The logs of a receipt are read by `view`, since the
-- receipts hold them by a number. A scan that is out of fuel is `none`; each round of the loop spends
-- one unit.
pub mod Json
pub mod Subscriptions
pub mod Admission
pub mod Chain
pub mod Calls
pub mod Status
pub mod Scores
pub mod Protocol
pub mod Handler
pub mod Server
pub mod Matching
pub mod Scan
use inso_sequencer.Base.{
  ℕ, zero, suc, ◌+◌, Bool, true, false, ◌&&◌, ◌||◌, not, List, [], ◌∷◌, ◌++◌, Option, none, some,
  ltb, leb, ◌==◌, if◌then◌else◌, ◌>>=◌, get_elem?, length,
}
use inso_sequencer.Word.{add64, sub64}
use inso_sequencer.Types.{Receipt, L2Block}
use inso_sequencer.ChainDb.{Found, absent, found, foreign}
use inso_sequencer.Manager.{Manager, get_block}

-- The fields of go-ethereum's log that the source reads.
pub record Log : Type 0 where
  pub address : ℕ
  pub topics : List ℕ

pub data Bound : Type 0 where
  unset latest : Bound
  at_block : ℕ → Bound

pub record LogFilter : Type 0 where
  pub from_block : Bound
  pub to_block : Bound
  pub address : Option ℕ
  pub topics : List (List ℕ)

-- Whether a topic is one of a list.
one_of : List ℕ → ℕ → Bool
one_of [] t = false
one_of (x ∷ xs) t = if t == x then true else one_of xs t

-- An index past the topics of the log is no match.
topic_at : Option ℕ → List ℕ → Bool
unfolding one_of
topic_at none xs = false
topic_at (some t) xs = one_of xs t

-- The topic filters from the index `i` on; an empty one matches anything.
match_topics : List ℕ → ℕ → List (List ℕ) → Bool
unfolding topic_at
match_topics topics i [] = true
match_topics topics i (f ∷ fs) =
    let rest = match_topics topics (suc i) fs in
    if length f == 0 then rest else if topic_at (get_elem? topics i) f then rest else false

match_address : ℕ → Option ℕ → Bool
match_address address none = true
match_address address (some a) = address == a

pub match_log : Log → Option ℕ → List (List ℕ) → Bool
unfolding match_address match_topics
match_log l addr filters =
    if match_address l.address addr then match_topics l.topics 0 filters else false

unfoldable pub resolve : ℕ → ℕ → Bound → ℕ
resolve default current unset = default
resolve default current latest = current
resolve default current (at_block n) = n

-- The last block that is scanned.
capped : ℕ → ℕ → ℕ
capped start last = if ltb 1000 (sub64 last start) then add64 start 1000 else last

module _ {D : Type 0} (view : ℕ → Log) (m : Manager D) (filter : LogFilter) where
  keep_matching : List ℕ → List Log
  keep_matching [] = []
  keep_matching (l ∷ ls) =
      let rest = keep_matching ls in
      if match_log (view l) filter.address filter.topics then view l ∷ rest else rest

  receipt_logs : List Receipt → List Log
  unfolding keep_matching
  receipt_logs [] = []
  receipt_logs (r ∷ rs) = keep_matching r.logs ++ receipt_logs rs

  -- The matching logs of a block, none if it is missing.
  pub block_logs : Found L2Block → List Log
  unfolding receipt_logs
  block_logs (found b) = receipt_logs b.receipts
  block_logs absent = []
  block_logs (foreign v) = []

  scan : ℕ → ℕ → ℕ → Option (List Log)
  scan zero number last = none
  scan (suc fuel) number last =
      let rest = scan fuel (add64 number 1) last in
      let kept : Option (List Log) = do more ← rest; some (block_logs (get_block m number) ++ more)
      in if leb number last then kept else some []

  pub get_logs : Option (List Log)
  unfolding resolve capped scan
  get_logs =
      let start = resolve 0 m.current_block filter.from_block in
      let last = resolve m.current_block m.current_block filter.to_block in
      scan 1002 start (capped start last)
