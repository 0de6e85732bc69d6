-- ===== src/Runtime/Limits.antt =====
-- `RuntimeLimits` and `defaultRuntimeLimits` of runtime-state.ts.
use chemistry.Prelude.{ℕ, ◌*◌}

pub record RuntimeLimits : Type 0 where
  pub max_queued_turns : ℕ
  pub max_events_per_stream : ℕ
  pub max_event_bytes : ℕ
  pub max_stream_bytes : ℕ
  pub max_retained_streams : ℕ
  pub completed_stream_retention_ms : ℕ
  pub lease_duration_ms : ℕ
  pub max_recovery_attempts : ℕ
  pub max_recovery_work : ℕ
  pub max_phase_effects : ℕ
  pub max_oom_strikes : ℕ
  pub no_progress_timeout_ms : ℕ
  pub alarm_debounce_ms : ℕ
  pub stable_state_timeout_ms : ℕ
  pub stall_timeout_ms : ℕ

abbrev pub default_runtime_limits : RuntimeLimits
default_runtime_limits = record {
  max_queued_turns = 16;
  max_events_per_stream = 2_048;
  max_event_bytes = 60 * 1_024;
  max_stream_bytes = 512 * 1_024;
  max_retained_streams = 2;
  completed_stream_retention_ms = 24 * 60 * 60 * 1_000;
  lease_duration_ms = 30_000;
  max_recovery_attempts = 5;
  max_recovery_work = 1_024;
  max_phase_effects = 32;
  max_oom_strikes = 3;
  no_progress_timeout_ms = 120_000;
  alarm_debounce_ms = 1_000;
  stable_state_timeout_ms = 30_000;
  stall_timeout_ms = 45_000;
}
