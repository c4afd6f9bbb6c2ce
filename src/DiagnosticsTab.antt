-- ===== src/DiagnosticsTab.antt =====
-- src/ui/DiagnosticsTab.cpp and its header: the tab that shows the counters and the log. The log view
-- is the list of the entries that its blocks show; `local_time` is the text that a time point has on
-- the clock of the system, to the millisecond. An entry is one block.
use scrambler.Prelude.{
  ℕ, ◌+◌, ◌-◌, ◌%◌, ◌^◌, Bool, true, false, ◌&&◌, List, [], ◌∷◌, ◌++◌, map, foldl, ltb,
  if◌then◌else◌, length, drop,
}
use scrambler.Diagnostics.{
  LogLevel, info, warn, error, fatal, LogEntry, Counter, packets_captured_outbound,
  packets_captured_inbound, packets_reinjected, packets_dropped_outbound, packets_dropped_inbound,
  packets_delayed_outbound, packets_delayed_inbound, packets_duplicated_outbound,
  packets_duplicated_inbound, pool_exhausted, packets_oversized, reinject_failures, parse_failures,
  flow_cache_hits, flow_cache_kernel_scans, driver_errors, Diagnostics, get, reset_counters,
  snapshot_since,
}
pub mod Polled
pub mod Viewed
pub mod Late
mod Tests

abbrev pub log_view_max_blocks : ℕ
log_view_max_blocks = 2048

abbrev pub log_poll_batch : ℕ
log_poll_batch = 512

-- The text of a counter: one number, or the sum of both directions with each of them.
pub data LabelText : Type 0 where
  number : ℕ → LabelText
  directional : (total outbound inbound : ℕ) → LabelText

pub record Label : Type 0 where
  pub text : LabelText
  pub alert : Bool

-- The rows of the counters.
pub record Counters : Type 0 where
  pub captured : Label
  pub reinjected : Label
  pub dropped : Label
  pub delayed : Label
  pub duplicated : Label
  pub exhausted : Label
  pub oversized : Label
  pub not_reinjected : Label
  pub not_parsed : Label
  pub cache_hits : Label
  pub kernel_scans : Label
  pub errors : Label

pub record DiagnosticsTab (S : Type 0) : Type 0 where
  pub refresh_timer : Bool
  pub counters : Counters
  pub log_view : List (LogEntry S)
  pub last_seen_seq : ℕ

abbrev pub new_label : Label
new_label = record { text = number 0; alert = false }

-- `set` and `set_directional` of `RefreshCounters`.
unfoldable pub set_number : (alert_when_nonzero : Bool) → ℕ → Label
set_number alert_when_nonzero value = record {
  text = number value;
  alert = alert_when_nonzero && ltb 0 value;
}

unfoldable pub set_directional : (outbound inbound : ℕ) → Label
set_directional outbound inbound = record {
  text = directional ((outbound + inbound) % 2 ^ 64) outbound inbound;
  alert = false;
}

-- The newest blocks that there is room for.
abbrev pub keep_last : {A : Type 0} → ℕ → List A → List A
keep_last n xs = drop (length xs - n) xs

-- `appendPlainText`, which drops the oldest block when there are too many.
abbrev pub append_block : {S : Type 0} → List (LogEntry S) → LogEntry S → List (LogEntry S)
append_block view e = keep_last log_view_max_blocks (view ++ e ∷ [])

abbrev pub last_seq : {S : Type 0} → ℕ → List (LogEntry S) → ℕ
last_seq seq [] = seq
last_seq seq (e ∷ es) = last_seq e.seq es

unfoldable pub level_name : LogLevel → List ℕ
level_name info = b'I' ∷ b'N' ∷ b'F' ∷ b'O' ∷ b' ' ∷ []
level_name warn = b'W' ∷ b'A' ∷ b'R' ∷ b'N' ∷ b' ' ∷ []
level_name error = b'E' ∷ b'R' ∷ b'R' ∷ b'O' ∷ b'R' ∷ []
level_name fatal = b'F' ∷ b'A' ∷ b'T' ∷ b'A' ∷ b'L' ∷ []

unfoldable pub format_entry : (local_time : ℕ → List ℕ) → LogEntry (List ℕ) → List ℕ
unfolding level_name
format_entry local_time e =
    (b'[' ∷ local_time e.when)
    ++ (b']' ∷ b' ' ∷ b'[' ∷ level_name e.level)
    ++ (b']' ∷ b' ' ∷ e.message)

-- What `CopyLog` puts on the clipboard, block by block.
unfoldable pub copy_log : (local_time : ℕ → List ℕ) → DiagnosticsTab (List ℕ) → List (List ℕ)
unfolding format_entry
copy_log local_time t = map (format_entry local_time) t.log_view

module _ {S : Type 0} where
  abbrev pub new_tab : DiagnosticsTab S
  new_tab = record {
    refresh_timer = false;
    counters = record {
      captured = new_label;
      reinjected = new_label;
      dropped = new_label;
      delayed = new_label;
      duplicated = new_label;
      exhausted = new_label;
      oversized = new_label;
      not_reinjected = new_label;
      not_parsed = new_label;
      cache_hits = new_label;
      kernel_scans = new_label;
      errors = new_label;
    };
    log_view = [];
    last_seen_seq = 0;
  }

  unfoldable pub clear_log : DiagnosticsTab S → DiagnosticsTab S
  clear_log t = record t { log_view = [] }

  unfoldable pub hide_event : DiagnosticsTab S → DiagnosticsTab S
  hide_event t = record t { refresh_timer = false }

module _ {S K : Type 0} where
  unfoldable pub refresh_counters : Diagnostics S K → DiagnosticsTab S → DiagnosticsTab S
  unfolding set_number set_directional get
  refresh_counters d t = record t {
    counters = record {
      captured = set_directional (get d packets_captured_outbound) (get d packets_captured_inbound);
      reinjected = set_number false (get d packets_reinjected);
      dropped = set_directional (get d packets_dropped_outbound) (get d packets_dropped_inbound);
      delayed = set_directional (get d packets_delayed_outbound) (get d packets_delayed_inbound);
      duplicated =
          set_directional (get d packets_duplicated_outbound) (get d packets_duplicated_inbound);
      exhausted = set_number true (get d pool_exhausted);
      oversized = set_number true (get d packets_oversized);
      not_reinjected = set_number true (get d reinject_failures);
      not_parsed = set_number true (get d parse_failures);
      cache_hits = set_number false (get d flow_cache_hits);
      kernel_scans = set_number false (get d flow_cache_kernel_scans);
      errors = set_number true (get d driver_errors);
    };
  }

  unfoldable pub refresh_log : Diagnostics S K → DiagnosticsTab S → DiagnosticsTab S
  unfolding snapshot_since
  refresh_log d t =
      let entries = snapshot_since d t.last_seen_seq log_poll_batch in
      record t {
        log_view = foldl append_block t.log_view entries;
        last_seen_seq = last_seq t.last_seen_seq entries;
      }

  unfoldable pub refresh : Diagnostics S K → DiagnosticsTab S → DiagnosticsTab S
  unfolding refresh_counters refresh_log
  refresh d t = refresh_log d (refresh_counters d t)

  unfoldable pub show_event : Diagnostics S K → DiagnosticsTab S → DiagnosticsTab S
  unfolding refresh
  show_event d t = refresh d (record t { refresh_timer = true })

  unfoldable pub tab_reset_counters :
      Diagnostics S K → DiagnosticsTab S → Diagnostics S K × DiagnosticsTab S
  unfolding reset_counters refresh_counters
  tab_reset_counters d t = (reset_counters d, refresh_counters (reset_counters d) t)
