-- ===== src/Window/Switched.antt =====
-- The window after the pipeline has been stopped, or started.
use scrambler.Prelude.{
  ℕ, ◌≡◌, refl, inl, inr, Bool-cases, true, false, ◌&&◌, Option-cases, none, some, [], ◌∷◌, ◌++◌,
  ◌==◌, All, All-append,
}
use scrambler.Targets.{contains}
use scrambler.Processes.{is_valid}
use scrambler.Window.Pipeline.{
  Service, start_text, not_started, tracker_ended, interceptor_ended, MainWindow,
  update_pipeline_status, play_toggle_sound, refresh_process_list, reset_interceptor,
  reset_flow_tracker, show_stopped, stop_pipeline, start_interceptor,
}
use scrambler.Window.Consistent.{
  IsService, IsConsistent, IsOver, when_true, when_false, both_running,
}

module _ {E E' T I : Type 0} (trackers : Service E T) (interceptors : Service E' I) where
  shown_stopped-IsConsistent :
      (m : MainWindow T I)
      → m.flow_tracker ≡ none
      → m.interceptor ≡ none
      → ((pid : ℕ)
          → contains m.target_pids pid
            ≡ (is_valid m.selected_process_identity && pid == m.selected_process_identity.pid))
      → All (IsOver trackers interceptors) m.ended
      → IsConsistent trackers interceptors (show_stopped m)
  unfolding show_stopped refresh_process_list update_pipeline_status play_toggle_sound
  shown_stopped-IsConsistent m no_tracker no_interceptor aimed over = record {
    parts = rw (no_tracker, no_interceptor) tt;
    refresh = refl;
    monitor = refl;
    button = refl;
    aimed = aimed;
    over = over;
  }

  abbrev pub without_interceptor : MainWindow T I → I → MainWindow T I
  without_interceptor m i = record m {
    interceptor = none;
    ended = m.ended ++ interceptor_ended (interceptors.stop i) ∷ [];
  }

  abbrev pub without_tracker : MainWindow T I → T → MainWindow T I
  without_tracker m t = record m {
    flow_tracker = none;
    ended = m.ended ++ tracker_ended (trackers.stop t) ∷ [];
  }

  reset_interceptor_lem :
      (m : MainWindow T I) (i : I)
      → m.interceptor ≡ some i
      → reset_interceptor trackers interceptors m ≡ without_interceptor m i
  unfolding reset_interceptor
  reset_interceptor_lem m i h = rw (h, reset_interceptor) refl

  pub reset_flow_tracker_lem :
      (m : MainWindow T I) (t : T)
      → m.flow_tracker ≡ some t
      → reset_flow_tracker trackers interceptors m ≡ without_tracker m t
  unfolding reset_flow_tracker
  reset_flow_tracker_lem m t h = rw (h, reset_flow_tracker) refl

  module _ (t! : IsService trackers) (i! : IsService interceptors) where
    pub stopped-IsConsistent :
        (m : MainWindow T I)
        → IsConsistent trackers interceptors m
        → IsConsistent trackers interceptors (stop_pipeline trackers interceptors m)
    unfolding stop_pipeline
    stopped-IsConsistent m c = elim (Bool-cases m.running) [
      | inr off ↦
          let whole : stop_pipeline trackers interceptors m ≡ m = when_false _ _ m.running off in
          rw whole c
      | inl on ↦
          let (t, i, has_t, has_i) =
            both_running trackers interceptors m.running m.flow_tracker m.interceptor c.parts on in
          let whole : stop_pipeline trackers interceptors m
              ≡ show_stopped (
                  reset_flow_tracker trackers interceptors
                    (reset_interceptor trackers interceptors m)) =
            when_true _ _ m.running on in
          rw (whole, reset_interceptor_lem m i has_i)
            (rw (reset_flow_tracker_lem (without_interceptor m i) t has_t) (
              shown_stopped-IsConsistent (without_tracker (without_interceptor m i) t) refl refl
                c.aimed
                (All-append (IsOver trackers interceptors)
                  (m.ended ++ interceptor_ended (interceptors.stop i) ∷ []) _
                  (All-append (IsOver trackers interceptors) m.ended _ c.over (i!.stopped i, tt))
                  (t!.stopped t, tt))))
    ]

    -- A window that does not run, about to be started.
    pub start_interceptor-IsConsistent :
        (e : E') (m : MainWindow T I) (t : T)
        → m.running ≡ false
        → m.flow_tracker ≡ some t
        → trackers.is_running t ≡ true
        → m.refresh_timer ≡ true
        → m.target_monitor_timer ≡ false
        → m.start_stop_button ≡ start_text
        → ((pid : ℕ)
            → contains m.target_pids pid
              ≡ (is_valid m.selected_process_identity && pid == m.selected_process_identity.pid))
        → All (IsOver trackers interceptors) m.ended
        → IsConsistent trackers interceptors (start_interceptor trackers interceptors e m)
    unfolding start_interceptor update_pipeline_status play_toggle_sound
    start_interceptor-IsConsistent e m t off has_t runs refresh monitor button aimed over =
        elim (Option-cases (interceptors.launch e).0) [
          | inl fine ↦
              rw (fine, start_interceptor)
                (record {
                  parts = rw has_t (runs, i!.launched e fine);
                  refresh = refl;
                  monitor = refl;
                  button = refl;
                  aimed = aimed;
                  over = over;
                })
          | inr (error, failed) ↦
              let i = (interceptors.launch e).1 in
              let made : MainWindow T I = record m { interceptor = some i } in
              let shown = update_pipeline_status (not_started error) true made in
              let whole : start_interceptor trackers interceptors e m
                  ≡ reset_flow_tracker trackers interceptors
                      (reset_interceptor trackers interceptors shown) =
                rw (failed, start_interceptor) refl in
              rw (whole, reset_interceptor_lem shown i refl)
                (rw (reset_flow_tracker_lem (without_interceptor shown i) t has_t) (record {
                  parts = rw off tt;
                  refresh = rw off refresh;
                  monitor = rw off monitor;
                  button = rw off button;
                  aimed = aimed;
                  over =
                      All-append (IsOver trackers interceptors)
                        (m.ended ++ interceptor_ended (interceptors.stop i) ∷ []) _
                        (All-append (IsOver trackers interceptors) m.ended _ over
                          (i!.stopped i, tt))
                        (t!.stopped t, tt);
                }))
        ]
