-- ===== src/DiagnosticsTab/Late.antt =====
-- An entry that comes to the ring after one with a higher number.
use scrambler.Prelude.{
  ℕ, ◌≤◌, ◌<◌, ◌≡◌, ◌≢◌, refl, ap, ◌∙◌, List, [], ◌∷◌, ◌++◌, ◌+◌, foldl, Bool, true, false, drop,
  leb, length, All, All-append, All-weaken, if◌then◌else◌, arith,
}
use scrambler.Diagnostics.{
  LogEntry, LogLevel, Diagnostics, new_diagnostics, ring_capacity, log, snapshot_since,
  reset_counters,
}
use scrambler.Diagnostics.Since.{Newer}
use scrambler.Diagnostics.Parts.{
  take_seq, push_entry, snapshot_since-Newer, walk-last, walk-All, Ring-below,
}
use scrambler.DiagnosticsTab.{
  DiagnosticsTab, new_tab, append_block, last_seq, log_poll_batch, refresh_log, refresh,
  refresh_counters, show_event, hide_event, clear_log, tab_reset_counters,
}
use scrambler.DiagnosticsTab.Viewed.{
  TabEvent, calls, shows, hides, ticks, clears, resets_counters, tab_step, drop-All, log_view_lem,
}

-- What is seen does not show the number and is past it.
pub record IsMissed {S : Type 0} (n : ℕ) (t : DiagnosticsTab S) : Type 0 where
  pub passed : n ≤ t.last_seen_seq
  pub not_shown : All (λ (x : LogEntry S). x.seq ≢ n) t.log_view

module _ {S : Type 0} where
  last_seq-append :
      (seq : ℕ) (es : List (LogEntry S)) (e : LogEntry S) → last_seq seq (es ++ e ∷ []) ≡ e.seq
  last_seq-append seq [] e = refl
  last_seq-append seq (x ∷ es) e = last_seq-append x.seq es e

  room-All :
      (P : LogEntry S → Type 0) (full : Bool) (es : List (LogEntry S))
      → All P es
      → All P (if full then drop 1 es else es)
  room-All P true es h = drop-All P 1 es h
  room-All P false es h = h

module _ {S : Type 0} (n : ℕ) where
  last_seq-Newer :
      (since : ℕ) (es : List (LogEntry S)) → n ≤ since → Newer since es → n ≤ last_seq since es
  last_seq-Newer since [] h newer = h
  last_seq-Newer since (e ∷ es) h (first, newer) =
      go e.seq es (omega (arith, h, first)) (All-weaken es (λ x k. omega (arith, h, k)) newer)
    where
      go :
          (seq : ℕ) (es : List (LogEntry S))
          → n ≤ seq
          → All (λ x. n < x.seq) es
          → n ≤ last_seq seq es
      go seq [] h k = h
      go seq (e ∷ es) h (a, k) = go e.seq es (omega (arith, a)) k

  appended-All :
      (view es : List (LogEntry S))
      → All (λ (x : LogEntry S). x.seq ≢ n) view
      → All (λ (x : LogEntry S). x.seq ≢ n) es
      → All (λ (x : LogEntry S). x.seq ≢ n) (foldl append_block view es)
  appended-All view [] h k = h
  appended-All view (e ∷ es) h (a, k) =
      appended-All (append_block view e) es
        (drop-All (λ (x : LogEntry S). x.seq ≢ n) _ (view ++ e ∷ [])
          (All-append (λ (x : LogEntry S). x.seq ≢ n) view (e ∷ []) h (a, tt)))
        k

  same-IsMissed :
      (t t' : DiagnosticsTab S)
      → t'.log_view ≡ t.log_view
      → t'.last_seen_seq ≡ t.last_seen_seq
      → IsMissed n t
      → IsMissed n t'
  same-IsMissed t t' e e' m = record { passed = rw e' m.passed; not_shown = rw e m.not_shown }

module _ {S K : Type 0} (n : ℕ) where
  refresh_log-IsMissed :
      (d : Diagnostics S K) (t : DiagnosticsTab S) → IsMissed n t → IsMissed n (refresh_log d t)
  unfolding refresh_log
  refresh_log-IsMissed d t m =
      let newer = snapshot_since-Newer d t.last_seen_seq log_poll_batch in
      let entries = snapshot_since d t.last_seen_seq log_poll_batch in
      record {
        passed = last_seq-Newer n t.last_seen_seq entries m.passed newer;
        not_shown =
            appended-All n t.log_view entries m.not_shown
              (All-weaken entries (λ x h e. omega (arith, h, e, m.passed)) newer);
      }

  refresh-IsMissed :
      (d : Diagnostics S K) (t : DiagnosticsTab S) → IsMissed n t → IsMissed n (refresh d t)
  unfolding refresh refresh_counters
  refresh-IsMissed d t m =
      refresh_log-IsMissed d (refresh_counters d t)
        (same-IsMissed n t (refresh_counters d t) refl refl m)

  step-IsMissed :
      (d : Diagnostics S K) (t : DiagnosticsTab S) (e : TabEvent S K)
      → IsMissed n t
      → IsMissed n (tab_step (d, t) e).1
  unfolding tab_step show_event hide_event clear_log tab_reset_counters refresh_counters
  step-IsMissed d t (calls c) m = m
  step-IsMissed d t shows m =
      refresh-IsMissed d (record t { refresh_timer = true })
        (same-IsMissed n t (record t { refresh_timer = true }) refl refl m)
  step-IsMissed d t hides m = same-IsMissed n t (hide_event t) refl refl m
  step-IsMissed d t ticks m =
      elim t.refresh_timer as (λ b. IsMissed n (if b then refresh d t else t)) [
        | true ↦ refresh-IsMissed d t m
        | false ↦ m
      ]
  step-IsMissed d t clears m = record { passed = m.passed; not_shown = tt }
  step-IsMissed d t resets_counters m =
      same-IsMissed n t (refresh_counters (reset_counters d) t) refl refl m

  steps-IsMissed :
      (d : Diagnostics S K) (t : DiagnosticsTab S) (es : List (TabEvent S K))
      → IsMissed n t
      → IsMissed n (foldl tab_step (d, t) es).1
  steps-IsMissed d t [] m = m
  steps-IsMissed d t (e ∷ es) m =
      steps-IsMissed (tab_step (d, t) e).0 (tab_step (d, t) e).1 es (step-IsMissed d t e m)

module _ {S K : Type 0} (history : List (TabEvent S K)) (now now' : ℕ) (level level' : LogLevel)
    (text text' : S) where
  -- What was before, the number that the first thread takes, and the ring and the tab when the
  -- second thread has logged and the tab was refreshed.
  abbrev before : Diagnostics S K × DiagnosticsTab S
  before = foldl tab_step (new_diagnostics, new_tab) history

  abbrev pub raced_number : ℕ
  raced_number = (take_seq before.0).0

  abbrev pub overtaken : Diagnostics S K
  overtaken = (log now' level' text' (take_seq before.0).1).1

  abbrev pub refreshed : DiagnosticsTab S
  refreshed = refresh_log overtaken before.1

  abbrev pub raced_entry : LogEntry S
  raced_entry = record { seq = raced_number; when = now; level = level; message = text }

  refreshed-IsMissed : IsMissed raced_number refreshed
  unfolding log take_seq refresh_log snapshot_since
  refreshed-IsMissed =
      let v = (log_view_lem history).0 in
      let d = before.0 in
      let t = before.1 in
      let older = Ring-below d v.ring in
      let room = if leb ring_capacity (length d.ring) then drop 1 d.ring else d.ring in
      let e : LogEntry S = record {
        seq = d.next_seq + 1;
        when = now';
        level = level';
        message = text';
      } in
      let fresh : t.last_seen_seq < d.next_seq + 1 = omega (arith, v.seen) in
      let (ys, last) = walk-last t.last_seen_seq log_poll_batch room e fresh in
      let caught = ap (last_seq t.last_seen_seq) last ∙ last_seq-append t.last_seen_seq ys e in
      let IsOther : LogEntry S → Type 0 = λ x. x.seq ≢ d.next_seq in
      record {
        passed = omega (arith, caught);
        not_shown =
            appended-All d.next_seq t.log_view _
              (All-weaken t.log_view (λ x h e. omega (arith, h, e, v.seen)) v.up_to_seen)
              (walk-All t.last_seen_seq log_poll_batch IsOther (room ++ e ∷ []) (
                All-append IsOther room (e ∷ [])
                  (room-All IsOther (leb ring_capacity (length d.ring)) d.ring
                    (All-weaken d.ring (λ x h same. omega (arith, h, same)) older))
                  ((λ same. omega (arith, same)), tt)));
      }

  -- Whatever happened before: a thread takes the number of its entry, then another one logs and
  -- the tab refreshes its log, and only then the first one puts its entry on the ring. The tab
  -- never shows that entry, whatever is logged and done on the tab after.
  pub raced_entry_missed :
      (later : List (TabEvent S K))
      → All
          (λ (x : LogEntry S). x.seq ≢ raced_number)
          (foldl tab_step ((push_entry raced_entry overtaken).1, refreshed) later).1.log_view
  raced_entry_missed later =
      (steps-IsMissed raced_number (push_entry raced_entry overtaken).1 refreshed later
        refreshed-IsMissed).not_shown
