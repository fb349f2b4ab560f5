-- ===== src/Dec/Report.antt =====
-- `log_interval_stats` of raptorq/dec/src/main.rs, up to the formatting of the line. The interval
-- is in milliseconds.
use live_video.Prelude.{ℕ, ◌+◌, ◌*◌, ◌/◌, ◌≤◌, ◌<◌, ◌≡◌, ltb, if◌then◌else◌, u64}
use live_video.Dec.State.{IntervalStats}

-- A percentage as an `f64`: 0.0, or `part as f64 * 100.0 / whole as f64`, which is not evaluated
-- here.
pub data Percent : Type 0 where
  zero_percent : Percent
  percent_of : ℕ → ℕ → Percent

-- `if whole > 0 { part as f64 * 100.0 / whole as f64 } else { 0.0 }`
unfoldable pub percent : ℕ → ℕ → Percent
percent part whole = if ltb 0 whole then percent_of part whole else zero_percent

-- The fields of the line that is logged.
pub record Report : Type 0 where
  pub interval : ℕ
  pub decoded : ℕ
  pub best_effort : ℕ
  pub be_fill_pct : ℕ
  pub be_timed_out : ℕ
  pub be_forced : ℕ
  pub zero_blocks : ℕ
  pub pkts_ok : ℕ
  pub noops : ℕ
  pub redundant : ℕ
  pub redundant_pct : Percent
  pub unparseable : ℕ
  pub lost : ℕ
  pub loss_pct : Percent

unfoldable pub log_interval_stats : IntervalStats → ℕ → Report
unfolding percent
log_interval_stats s elapsed =
    let be_fill_pct =
      if ltb 0 s.be_syms_needed then u64 (s.be_syms_rcvd * 100) / s.be_syms_needed else 100 in
    let recv = u64 (u64 (s.pkts_ok + s.pkts_redundant) + s.noops) in
    let sent = u64 (recv + s.pkts_lost) in
    let loss_pct = percent s.pkts_lost sent in
    let data_recv = u64 (s.pkts_ok + s.pkts_redundant) in
    let redundant_pct = percent s.pkts_redundant data_recv in
    record {
      interval = elapsed;
      decoded = s.decoded;
      best_effort = s.besteffort;
      be_fill_pct = be_fill_pct;
      be_timed_out = s.be_timed_out;
      be_forced = s.be_forced;
      zero_blocks = s.zero_emitted;
      pkts_ok = s.pkts_ok;
      noops = s.noops;
      redundant = s.pkts_redundant;
      redundant_pct = redundant_pct;
      unparseable = s.pkts_unparseable;
      lost = s.pkts_lost;
      loss_pct = loss_pct;
    }

-- A percentage between 0 and 100: `part` of `whole`, where 0.0 stands for nothing of nothing.
pub data IsShare (part whole : ℕ) : Percent → Type 0 where
  share_of_none : part ≡ 0 → whole ≡ 0 → IsShare part whole zero_percent
  share_of_some : 0 < whole → part ≤ whole → IsShare part whole (percent_of part whole)

-- What the line says of the statistics.
pub record IsReport (s : IntervalStats) (r : Report) : Type 0 where
  pub loss : IsShare s.pkts_lost (s.pkts_ok + s.pkts_redundant + s.noops + s.pkts_lost) r.loss_pct
  pub redundancy : IsShare s.pkts_redundant (s.pkts_ok + s.pkts_redundant) r.redundant_pct
  pub filled : 0 < s.be_syms_needed → r.be_fill_pct * s.be_syms_needed ≤ s.be_syms_rcvd * 100
  pub nearly : 0 < s.be_syms_needed → s.be_syms_rcvd * 100 < (r.be_fill_pct + 1) * s.be_syms_needed
  pub no_effort : s.be_syms_needed ≡ 0 → r.be_fill_pct ≡ 100
