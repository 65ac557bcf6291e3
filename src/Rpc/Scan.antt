-- ===== src/Rpc/Scan.antt =====
-- internal/rpc/handler.go: the range of blocks that eth_getLogs scans, and that the scan ends.
use inso_sequencer.Base.{
  ℕ, zero, suc, ◌+◌, ◌-◌, ◌<◌, ◌≡◌, refl, true, false, List, [], ◌++◌, some, leb, ◌&&◌,
  if◌then◌else◌, arith,
}
use inso_sequencer.Word.{u64_mod, add64}
use inso_sequencer.Manager.{Manager, get_block}
use inso_sequencer.Rpc.{Log, LogFilter, resolve, capped, block_logs, scan, get_logs}

-- How many blocks are scanned: those from `start` to `last`, or 1001 if these are more, or if `last`
-- is below `start`.
abbrev pub span : ℕ → ℕ → ℕ
span start last = if leb start last && leb last (start + 1000) then last + 1 - start else 1001

capped-span :
    (start last : ℕ)
    → start + 1001 < u64_mod
    → last + 1 < u64_mod
    → (capped start last + 1 ≡ start + span start last) × (capped start last + 1 < u64_mod)
unfolding capped
capped-span start last h k = (ground arith, ground arith)

module _ {D : Type 0} (view : ℕ → Log) (m : Manager D) (filter : LogFilter) where
  -- The matching logs of `count` blocks from `number` on.
  abbrev pub logs_from : ℕ → ℕ → List Log
  logs_from number zero = []
  logs_from number (suc count) =
      block_logs view m filter (get_block m number) ++ logs_from (number + 1) count

  scan_ends :
      (count fuel number last : ℕ)
      → last + 1 ≡ number + count
      → last + 1 < u64_mod
      → count < fuel
      → scan view m filter fuel number last ≡ some (logs_from number count)
  unfolding scan
  scan_ends count zero number last e small more = absurd (omega arith)
  scan_ends zero (suc fuel) number last e small more =
      let out : leb number last ≡ false = ground arith in rw out refl
  scan_ends (suc count) (suc fuel) number last e small more =
      let go : leb number last ≡ true = ground arith in
      let step : add64 number 1 ≡ number + 1 = omega arith in
      rw (go, step, scan_ends count fuel (number + 1) last (omega arith) small (omega arith)) refl

  -- When the first block asked for is below 2^64 - 1001 and the last one below 2^64 - 1, the scan of
  -- eth_getLogs ends within 1002 rounds, and it returns the matching logs of the blocks in order: of
  -- those from the first to the last, but of 1001 blocks from the first on if these are more, or if
  -- the last one is below the first.
  pub get_logs_scans :
      resolve 0 m.current_block filter.from_block + 1001 < u64_mod
      → resolve m.current_block m.current_block filter.to_block + 1 < u64_mod
      → get_logs view m filter
        ≡ some (
            logs_from (resolve 0 m.current_block filter.from_block) (
              span
                (resolve 0 m.current_block filter.from_block)
                (resolve m.current_block m.current_block filter.to_block)))
  unfolding get_logs
  get_logs_scans h k =
      let start = resolve 0 m.current_block filter.from_block in
      let last = resolve m.current_block m.current_block filter.to_block in
      let (e, small) = capped-span start last h k in
      scan_ends (span start last) 1002 start (capped start last) e small (ground arith)
