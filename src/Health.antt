-- ===== src/Health.antt =====
-- `StreamHealth` of crates/runtime/src/models/stream_health.rs. A method takes the lock for all of its
-- body, so it is a function on the data; an `Instant` and a `Duration` are numbers of ticks.
pub mod Bursts
pub mod Progress
pub mod Tests
use tycho_simulation_server.Base.{
  ℕ, ◌+◌, ◌-◌, Bool, true, false, ltb, if◌then◌else◌, Option, none, some, Text, max_u64,
}

-- StreamHealthData
pub record Health : Type 0 where
  pub started_at : Option ℕ
  pub last_update_at : Option ℕ
  pub last_block : ℕ
  pub missing_block_burst : ℕ
  pub missing_block_total : ℕ
  pub missing_block_window_start : Option ℕ
  pub error_burst : ℕ
  pub error_total : ℕ
  pub error_window_start : Option ℕ
  pub advanced_burst : ℕ
  pub advanced_total : ℕ
  pub advanced_window_start : Option ℕ
  pub restart_count : ℕ
  pub last_error : Option Text

pub record BurstUpdate : Type 0 where
  pub burst_count : ℕ
  pub total_count : ℕ
  pub window_started : Bool

pub record AdvancedUpdate : Type 0 where
  pub burst_count : ℕ
  pub total_count : ℕ
  pub window_started : Bool
  pub elapsed : ℕ

-- StreamHealthData::default
abbrev pub new_health : Health
new_health = record {
  started_at = none;
  last_update_at = none;
  last_block = 0;
  missing_block_burst = 0;
  missing_block_total = 0;
  missing_block_window_start = none;
  error_burst = 0;
  error_total = 0;
  error_window_start = none;
  advanced_burst = 0;
  advanced_total = 0;
  advanced_window_start = none;
  restart_count = 0;
  last_error = none;
}

-- u64::saturating_add(1)
abbrev pub saturating_succ : ℕ → ℕ
saturating_succ n = if ltb n max_u64 then n + 1 else max_u64

abbrev pub is_none : Option ℕ → Bool
is_none none = true
is_none (some t) = false

abbrev pub or_now : Option ℕ → ℕ → Option ℕ
or_now none now = some now
or_now (some start) now = some start

-- `now.saturating_duration_since(start)`, and 0 without a start.
abbrev since : Option ℕ → ℕ → ℕ
since none now = 0
since (some start) now = now - start

-- A burst and the start of its window, which is closed when it is older than `window`.
pub record Window : Type 0 where
  pub burst : ℕ
  pub start : Option ℕ

unfoldable pub close_expired : ℕ → ℕ → Window → Window
close_expired now window w =
    if ltb window (since w.start now) then record { burst = 0; start = none } else w

-- The block that computes `window_started`, with the window that it leaves.
unfoldable pub count_burst : ℕ → ℕ → Window → Bool × Window
unfolding close_expired
count_burst now window w =
    let closed = close_expired now window w in
    (
      is_none closed.start,
      record { burst = saturating_succ closed.burst; start = or_now closed.start now },
    )

unfoldable pub mark_started : ℕ → Health → Health
mark_started now h = record h { started_at = some now; last_update_at = none; last_block = 0 }

unfoldable pub mark_started_preserving_head : ℕ → Health → Health
mark_started_preserving_head now h = record h { started_at = some now; last_update_at = none }

unfoldable pub record_update : ℕ → ℕ → Health → Health
record_update now block h = record h { last_update_at = some now; last_block = block }

unfoldable pub record_progress : ℕ → ℕ → Health → Health
record_progress now block h =
    if ltb h.last_block block
    then (record h { last_update_at = some now; last_block = block })
    else h

unfoldable pub record_missing_block : ℕ → ℕ → Health → BurstUpdate × Health
unfolding count_burst
record_missing_block now window h =
    let total = saturating_succ h.missing_block_total in
    let counted =
      count_burst now window
        (record { burst = h.missing_block_burst; start = h.missing_block_window_start }) in
    (
      record { burst_count = counted.1.burst; total_count = total; window_started = counted.0 },
      record h {
        missing_block_total = total;
        missing_block_burst = counted.1.burst;
        missing_block_window_start = counted.1.start;
      },
    )

unfoldable pub record_error : ℕ → ℕ → Health → BurstUpdate × Health
unfolding count_burst
record_error now window h =
    let total = saturating_succ h.error_total in
    let counted =
      count_burst now window (record { burst = h.error_burst; start = h.error_window_start }) in
    (
      record { burst_count = counted.1.burst; total_count = total; window_started = counted.0 },
      record h {
        error_total = total;
        error_burst = counted.1.burst;
        error_window_start = counted.1.start;
      },
    )

unfoldable pub record_advanced : ℕ → Health → AdvancedUpdate × Health
record_advanced now h =
    let total = saturating_succ h.advanced_total in
    let window_started = is_none h.advanced_window_start in
    let start = or_now h.advanced_window_start now in
    let burst = saturating_succ (if window_started then 0 else h.advanced_burst) in
    (
      record {
        burst_count = burst;
        total_count = total;
        window_started = window_started;
        elapsed = since start now;
      },
      record h { advanced_total = total; advanced_window_start = start; advanced_burst = burst },
    )

unfoldable pub clear_advanced : Health → Health
clear_advanced h = record h { advanced_burst = 0; advanced_window_start = none }

unfoldable pub increment_restart : Health → ℕ × Health
increment_restart h =
    let count = saturating_succ h.restart_count in (count, record h { restart_count = count })

unfoldable pub reset_bursts : Health → Health
reset_bursts h = record h {
  missing_block_burst = 0;
  missing_block_window_start = none;
  error_burst = 0;
  error_window_start = none;
  advanced_burst = 0;
  advanced_window_start = none;
}

unfoldable pub set_last_error : Option Text → Health → Health
set_last_error message h = record h { last_error = message }
