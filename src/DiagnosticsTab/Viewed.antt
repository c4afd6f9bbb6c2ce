-- ===== src/DiagnosticsTab/Viewed.antt =====
-- The log view over any calls of the log and any use of the tab.
use scrambler.Prelude.{
  ℕ, zero, suc, ◌+◌, ◌-◌, ◌≤◌, ◌<◌, ◌≡◌, refl, inl, true, false, List, [], ◌∷◌, ◌++◌, foldl,
  if◌then◌else◌, length, drop, All, All-append, All-weaken, arith,
}
use scrambler.Diagnostics.{
  LogEntry, Diagnostics, new_diagnostics, log, increment, reset_counters, set_sink,
}
use scrambler.Diagnostics.Since.{Consecutive, IsRing}
use scrambler.Diagnostics.Calls.{
  DiagnosticsCall, logs, increments, resets, sets_sink, call, call-IsRing,
}
use scrambler.DiagnosticsTab.{
  DiagnosticsTab, new_tab, log_view_max_blocks, refresh_log, refresh, refresh_counters, show_event,
  hide_event, clear_log, tab_reset_counters,
}
use scrambler.DiagnosticsTab.Polled.{IsPolled, refresh_log-IsPolled, length-keep_last}

-- What happens to the log and the tab.
pub data TabEvent (S K : Type 0) : Type 0 where
  calls : DiagnosticsCall S K → TabEvent S K
  shows hides ticks clears resets_counters : TabEvent S K

-- The numbers of the blocks rise.
abbrev pub IsRising : {S : Type 0} → List (LogEntry S) → Type 0
IsRising [] = Unit
IsRising (e ∷ es) = All (λ x. e.seq < x.seq) es × IsRising es

module _ {S K : Type 0} where
  unfoldable pub tab_step :
      Diagnostics S K × DiagnosticsTab S → TabEvent S K → Diagnostics S K × DiagnosticsTab S
  unfolding call show_event hide_event refresh clear_log tab_reset_counters
  tab_step (d, t) (calls c) = (call d c, t)
  tab_step (d, t) shows = (d, show_event d t)
  tab_step (d, t) hides = (d, hide_event t)
  tab_step (d, t) ticks = (d, if t.refresh_timer then refresh d t else t)
  tab_step (d, t) clears = (d, clear_log t)
  tab_step (d, t) resets_counters = tab_reset_counters d t

module _ {S : Type 0} where
  pub drop-All :
      (P : LogEntry S → Type 0) (n : ℕ) (es : List (LogEntry S)) → All P es → All P (drop n es)
  drop-All P zero es h = h
  drop-All P (suc n) [] h = tt
  drop-All P (suc n) (e ∷ es) h = drop-All P n es h.1

  drop-IsRising : (n : ℕ) (es : List (LogEntry S)) → IsRising es → IsRising (drop n es)
  drop-IsRising zero es h = h
  drop-IsRising (suc n) [] h = tt
  drop-IsRising (suc n) (e ∷ es) h = drop-IsRising n es h.1

  Consecutive-All :
      (n : ℕ) (es : List (LogEntry S))
      → Consecutive n es
      → All (λ e. n ≤ e.seq) es × All (λ e. e.seq < n + length es) es
  Consecutive-All n [] c = (tt, tt)
  Consecutive-All n (e ∷ es) c =
      let (low, high) = Consecutive-All (suc n) es c.1 in
      (
        (omega (arith, c.0), All-weaken es (λ x h. omega (arith, h)) low),
        (omega (arith, c.0), All-weaken es (λ x h. omega (arith, h)) high),
      )

  Consecutive-IsRising : (n : ℕ) (es : List (LogEntry S)) → Consecutive n es → IsRising es
  Consecutive-IsRising n [] c = tt
  Consecutive-IsRising n (e ∷ es) c = (
    All-weaken es (λ x h. omega (arith, h, c.0)) (Consecutive-All (suc n) es c.1).0,
    Consecutive-IsRising (suc n) es c.1,
  )

  append-IsRising :
      (k : ℕ) (xs ys : List (LogEntry S))
      → IsRising xs
      → IsRising ys
      → All (λ x. x.seq < k) xs
      → All (λ y. k ≤ y.seq) ys
      → IsRising (xs ++ ys)
  append-IsRising k [] ys rx ry low high = ry
  append-IsRising k (x ∷ xs) ys rx ry low high = (
    All-append (λ y. x.seq < y.seq) xs ys rx.0
        (All-weaken ys (λ y h. omega (arith, h, low.0)) high),
    append-IsRising k xs ys rx.1 ry low.1 high,
  )

-- The view has no entry twice, in order, none that was not seen, and 2048 at most.
pub record IsView {S K : Type 0} (d : Diagnostics S K) (t : DiagnosticsTab S) : Type 0 where
  pub ring : IsRing d
  pub seen : t.last_seen_seq < d.next_seq
  pub rising : IsRising t.log_view
  pub up_to_seen : All (λ e. e.seq ≤ t.last_seen_seq) t.log_view
  pub room : length t.log_view ≤ log_view_max_blocks

module _ {S K : Type 0} where
  refresh_log-IsView :
      (d : Diagnostics S K) (t : DiagnosticsTab S) → IsView d t → IsView d (refresh_log d t)
  refresh_log-IsView d t v =
      let p = refresh_log-IsPolled d t v.ring v.seen v.room in
      let n = d.next_seq - length p.entries in
      let (low, high) = Consecutive-All n p.entries p.in_a_row in
      let fits : length p.entries ≤ d.next_seq - 1 - t.last_seen_seq = omega (arith, p.count) in
      let count = length t.log_view + length p.entries in
      let old =
        All-weaken t.log_view
          (λ e h. let before : e.seq < n = omega (arith, h, fits, v.seen) in before) v.up_to_seen in
      let rising =
        append-IsRising n t.log_view p.entries v.rising
          (Consecutive-IsRising n p.entries p.in_a_row) old low in
      let last : (refresh_log d t).last_seen_seq ≡ d.next_seq - 1 = omega (arith, p.caught_up) in
      let bounded =
        All-append (λ e. e.seq ≤ d.next_seq - 1) t.log_view p.entries
          (All-weaken t.log_view (λ e h. omega (arith, h, v.seen)) v.up_to_seen)
          (All-weaken p.entries (λ e h. omega (arith, h, fits)) high) in
      record {
        ring = v.ring;
        seen = omega (arith, p.caught_up);
        rising = rw p.view (drop-IsRising _ (t.log_view ++ p.entries) rising);
        up_to_seen = rw (p.view, last) (drop-All _ _ (t.log_view ++ p.entries) bounded);
        room = rw p.view (length-keep_last log_view_max_blocks (t.log_view ++ p.entries));
      }

  -- What is not the log view may change.
  same-IsView :
      (d : Diagnostics S K) (t t' : DiagnosticsTab S)
      → t'.log_view ≡ t.log_view
      → t'.last_seen_seq ≡ t.last_seen_seq
      → IsView d t
      → IsView d t'
  same-IsView d t t' e e' v = record {
    ring = v.ring;
    seen = rw e' v.seen;
    rising = rw e v.rising;
    up_to_seen = rw (e, e') v.up_to_seen;
    room = rw e v.room;
  }

  refresh-IsView :
      (d : Diagnostics S K) (t : DiagnosticsTab S) → IsView d t → IsView d (refresh d t)
  unfolding refresh refresh_counters
  refresh-IsView d t v =
      refresh_log-IsView d (refresh_counters d t)
        (same-IsView d t (refresh_counters d t) refl refl v)

  call-next_seq : (d : Diagnostics S K) (c : DiagnosticsCall S K) → d.next_seq ≤ (call d c).next_seq
  unfolding call log increment reset_counters set_sink
  call-next_seq d (logs now level text) = omega arith
  call-next_seq d (increments c n) = omega arith
  call-next_seq d resets = omega arith
  call-next_seq d (sets_sink k) = omega arith

  abbrev IsViewed : Diagnostics S K × DiagnosticsTab S → Type 0
  IsViewed (d, t) = IsView d t

  step-IsView :
      (s : Diagnostics S K × DiagnosticsTab S) (e : TabEvent S K)
      → IsViewed s
      → IsViewed (tab_step s e)
  unfolding tab_step show_event hide_event clear_log tab_reset_counters refresh_counters
      reset_counters
  step-IsView (d, t) (calls c) v = record {
    ring = call-IsRing d c v.ring;
    seen = omega (arith, v.seen, call-next_seq d c);
    rising = v.rising;
    up_to_seen = v.up_to_seen;
    room = v.room;
  }
  step-IsView (d, t) shows v =
      refresh-IsView d (record t { refresh_timer = true })
        (same-IsView d t (record t { refresh_timer = true }) refl refl v)
  step-IsView (d, t) hides v = same-IsView d t (hide_event t) refl refl v
  step-IsView (d, t) ticks v =
      elim t.refresh_timer as (λ b. IsView d (if b then refresh d t else t)) [
        | true ↦ refresh-IsView d t v
        | false ↦ v
      ]
  step-IsView (d, t) clears v = record {
    ring = v.ring;
    seen = v.seen;
    rising = tt;
    up_to_seen = tt;
    room = omega arith;
  }
  step-IsView (d, t) resets_counters v =
      same-IsView (reset_counters d) t (refresh_counters (reset_counters d) t) refl refl (record {
        ring = call-IsRing d resets v.ring;
        seen = v.seen;
        rising = v.rising;
        up_to_seen = v.up_to_seen;
        room = v.room;
      })

  run-IsView :
      (s : Diagnostics S K × DiagnosticsTab S) (es : List (TabEvent S K))
      → IsViewed s
      → IsViewed (foldl tab_step s es)
  run-IsView s [] v = v
  run-IsView s (e ∷ es) v = run-IsView (tab_step s e) es (step-IsView s e v)

  -- From the start of the program, after any calls of the log, in between which the tab is shown
  -- and hidden, its timer ticks, and its log is cleared and its counters are reset: the view shows
  -- every entry once at most, in the order of their numbers, and 2048 of them at most. The next
  -- poll of the log then appends the newest entries that it has not seen, which are all of them
  -- if they are at most 512, and the newest 512 otherwise; with more than 2048 blocks the oldest go.
  -- After it nothing is left unseen, so that what was cleared does not come back.
  pub log_view_lem :
      (es : List (TabEvent S K))
      → let (d, t) = foldl tab_step (new_diagnostics, new_tab) es in
        IsView d t × IsPolled d t (refresh_log d t)
  unfolding new_diagnostics
  log_view_lem es =
      let v =
        run-IsView (new_diagnostics, new_tab) es
          (record {
            ring = record {
              first = 1;
              in_a_row = tt;
              up_to = refl;
              bounded = omega arith;
              whole = inl refl;
            };
            seen = omega arith;
            rising = tt;
            up_to_seen = tt;
            room = omega arith;
          }) in
      let (d, t) = foldl tab_step (new_diagnostics, new_tab) es in
      (v, refresh_log-IsPolled d t v.ring v.seen v.room)
