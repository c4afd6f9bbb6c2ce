-- ===== src/DiagnosticsTab/Tests.antt =====
-- The tab is opened, follows the log, and is cleared.
use scrambler.Prelude.{All, ◌≢◌, ℕ, ◌≡◌, refl, List, [], ◌∷◌, map, foldl}
use scrambler.Diagnostics.{LogLevel, Counter, Diagnostics, new_diagnostics, log, to_underlying}
use scrambler.Diagnostics.Parts.{take_seq, push_entry}
use scrambler.DiagnosticsTab.Late.{raced_entry, overtaken, refreshed, raced_entry_missed}
use scrambler.Diagnostics.Calls.{logs, increments}
use scrambler.DiagnosticsTab.{DiagnosticsTab, new_tab, refresh_log, copy_log, directional}
use scrambler.DiagnosticsTab.Polled.{IsPolled}
use scrambler.DiagnosticsTab.Viewed.{
  TabEvent, calls, shows, hides, ticks, clears, tab_step, IsView, log_view_lem,
}

abbrev letters : ℕ → List ℕ
letters n = n ∷ []

abbrev use_of_tab : List (TabEvent (List ℕ) ℕ)
use_of_tab =
    calls (logs 5 LogLevel.info (letters 70))
    ∷ shows
    ∷ clears
    ∷ calls (increments Counter.packets_dropped_inbound 2)
    ∷ calls (logs 6 LogLevel.warn (letters 71))
    ∷ ticks
    ∷ hides
    ∷ calls (logs 9 LogLevel.error (letters 72))
    ∷ ticks
    ∷ []

abbrev begin : Diagnostics (List ℕ) ℕ × DiagnosticsTab (List ℕ)
begin = (new_diagnostics, new_tab)

-- The first entry was cleared, the last one comes when the tab is shown again.
only_the_second :
    let (d, t) = foldl tab_step begin use_of_tab in
    (map (λ e. e.message) t.log_view ≡ (71 ∷ []) ∷ [])
    × (t.counters.dropped.text ≡ directional 2 0 2)
    × (copy_log letters t
        ≡ (b'[' ∷ 6 ∷ b']' ∷ b' ' ∷ b'[' ∷ b'W' ∷ b'A' ∷ b'R' ∷ b'N' ∷ b' ' ∷ b']' ∷ b' ' ∷ 71 ∷ [])
          ∷ [])
    × (map (λ e. e.message) (refresh_log d t).log_view ≡ (71 ∷ []) ∷ (72 ∷ []) ∷ [])
unfolding tab_step copy_log refresh_log new_diagnostics to_underlying
only_the_second = (refl, refl, refl, refl)

log_view_lem_example :
    let (d, t) = foldl tab_step begin use_of_tab in IsView d t × IsPolled d t (refresh_log d t)
log_view_lem_example = log_view_lem use_of_tab

-- The entry with the text 81 is on the ring after the one with the text 82, and is not shown.
late_on_ring :
    let d = overtaken use_of_tab 10 10 LogLevel.warn LogLevel.info (letters 81) (letters 82) in
    let entry =
      raced_entry use_of_tab 10 10 LogLevel.warn LogLevel.info (letters 81) (letters 82) in
    let t = refreshed use_of_tab 10 10 LogLevel.warn LogLevel.info (letters 81) (letters 82) in
    let (d', t') = foldl tab_step ((push_entry entry d).1, t) (shows ∷ ticks ∷ []) in
    (map (λ e. e.message) d'.ring
      ≡ letters 70 ∷ letters 71 ∷ letters 72 ∷ letters 82 ∷ letters 81 ∷ [])
    × (map (λ e. e.message) t'.log_view ≡ letters 71 ∷ letters 72 ∷ letters 82 ∷ [])
unfolding tab_step refresh_log push_entry log take_seq new_diagnostics to_underlying
late_on_ring = (refl, refl)

raced_entry_missed_example :
    let d = overtaken use_of_tab 10 10 LogLevel.warn LogLevel.info (letters 81) (letters 82) in
    let entry =
      raced_entry use_of_tab 10 10 LogLevel.warn LogLevel.info (letters 81) (letters 82) in
    let t = refreshed use_of_tab 10 10 LogLevel.warn LogLevel.info (letters 81) (letters 82) in
    All
      (λ x. x.seq ≢ entry.seq)
      (foldl tab_step ((push_entry entry d).1, t) (shows ∷ ticks ∷ [])).1.log_view
raced_entry_missed_example =
    raced_entry_missed use_of_tab 10 10 LogLevel.warn LogLevel.info (letters 81) (letters 82)
      (shows ∷ ticks ∷ [])
