-- ===== src/Window/Runs.antt =====
-- The window over any events.
use scrambler.Prelude.{
  ◌++◌, ℕ, ◌≡◌, refl, ◌∙◌, inl, inr, Bool, Bool-cases, true, false, Option, Option-cases, none,
  some, List, [], ◌∷◌, foldl, All-append,
}
use scrambler.Targets.{contains, clear, set_selected_pid, no_targets, set_contains}
use scrambler.Processes.{ProcessIdentity, ProcessInfo, Windows, is_process_identity_current}
use scrambler.Window.Pipeline.{
  select_first, no_longer_running, Service, start_text, not_started, stopped_unexpectedly, replaced,
  MainWindow, no_identity, identity_from_item, new_window, update_pipeline_status,
  refresh_process_list, select, item_with, on_process_list_ready, reset_flow_tracker, stop_pipeline,
  start_interceptor, start_tracker, start_pipeline, on_start_stop_clicked, on_pipeline_fatal,
  check_selected_process_identity,
}
use scrambler.Window.Consistent.{
  IsService, IsConsistent, IsOver, when_true, when_false, when_some, contains-clear,
  contains-set_selected, current-valid, none_running, status-IsConsistent, retargeted-IsConsistent,
  selected-IsConsistent,
}
use scrambler.Window.Switched.{
  stopped-IsConsistent, start_interceptor-IsConsistent, reset_flow_tracker_lem,
}

-- What happens to the window, with what Windows answers then.
pub data Happening (E E' : Type 0) : Type 0 where
  clicks_start_stop : Windows → E → E' → Happening E E'
  selects : Option ProcessIdentity → Happening E E'
  driver_fails : (gle : ℕ) → Happening E E'
  monitor_ticks : Windows → Happening E E'
  refresh_ticks : Happening E E'
  list_arrives : List ProcessInfo → Happening E E'

untargeted : (pid : ℕ) → contains no_targets pid ≡ false
unfolding contains set_contains
untargeted pid = refl

module _ {E E' T I : Type 0} (trackers : Service E T) (interceptors : Service E' I) where
  unfoldable pub happen : MainWindow T I → Happening E E' → MainWindow T I
  unfolding on_start_stop_clicked select on_pipeline_fatal check_selected_process_identity
      refresh_process_list on_process_list_ready
  happen m (clicks_start_stop win e e') = on_start_stop_clicked trackers interceptors win e e' m
  happen m (selects item) = select item m
  happen m (driver_fails gle) = on_pipeline_fatal trackers interceptors gle m
  happen m (monitor_ticks win) = check_selected_process_identity trackers interceptors win m
  happen m refresh_ticks = refresh_process_list m
  happen m (list_arrives processes) = on_process_list_ready processes m

  module _ (t! : IsService trackers) (i! : IsService interceptors) where
    start_tracker-IsConsistent :
        (e : E) (e' : E') (m : MainWindow T I)
        → m.running ≡ false
        → IsConsistent trackers interceptors m
        → IsConsistent trackers interceptors (start_tracker trackers interceptors e e' m)
    unfolding start_tracker update_pipeline_status
    start_tracker-IsConsistent e e' m off c =
        let t = (trackers.launch e).1 in
        let made : MainWindow T I = record m { flow_tracker = some t } in
        let timer : m.refresh_timer ≡ true = c.refresh ∙ rw off refl in
        let monitor : m.target_monitor_timer ≡ false = c.monitor ∙ off in
        let button : m.start_stop_button ≡ start_text = c.button ∙ rw off refl in
        elim (Option-cases (trackers.launch e).0) [
          | inl fine ↦
              let whole : start_tracker trackers interceptors e e' m
                  ≡ start_interceptor trackers interceptors e' made =
                rw (fine, start_tracker) refl in
              rw whole (
                start_interceptor-IsConsistent trackers interceptors t! i! e' made t off refl
                  (t!.launched e fine) timer monitor button c.aimed c.over)
          | inr (error, failed) ↦
              let shown = update_pipeline_status (not_started error) true made in
              let whole : start_tracker trackers interceptors e e' m
                  ≡ reset_flow_tracker trackers interceptors shown =
                rw (failed, start_tracker) refl in
              let (_, no_interceptor) =
                none_running trackers interceptors m.running m.flow_tracker m.interceptor c.parts
                  off in
              rw (whole, reset_flow_tracker_lem trackers interceptors shown t refl)
                (record {
                  parts = rw (off, no_interceptor) tt;
                  refresh = rw off timer;
                  monitor = rw off monitor;
                  button = rw off button;
                  aimed = c.aimed;
                  over =
                      All-append (IsOver trackers interceptors) m.ended _ c.over (t!.stopped t, tt);
                })
        ]

    start_pipeline-IsConsistent :
        (win : Windows) (e : E) (e' : E') (m : MainWindow T I)
        → m.running ≡ false
        → IsConsistent trackers interceptors m
        → IsConsistent trackers interceptors (start_pipeline trackers interceptors win e e' m)
    unfolding start_pipeline refresh_process_list
    start_pipeline-IsConsistent win e e' m off c = elim (Option-cases m.selection) [
      | inl nothing ↦
          rw (nothing, start_pipeline)
            (retargeted-IsConsistent trackers interceptors m m.target_pids
              m.selected_process_identity m.selection m.refresh_in_flight
              (m.warnings ++ select_first ∷ []) c c.aimed)
      | inr (identity, chosen) ↦ elim (Bool-cases (is_process_identity_current win identity)) [
        | inr gone ↦
            rw (chosen, gone, start_pipeline)
              (retargeted-IsConsistent trackers interceptors m (clear m.target_pids) no_identity
                m.selection true (m.warnings ++ no_longer_running ∷ []) c
                (contains-clear m.target_pids))
        | inl there ↦
            let aiming : MainWindow T I = record m {
              selected_process_identity = identity;
              target_pids = set_selected_pid identity.pid m.target_pids;
            } in
            let whole : start_pipeline trackers interceptors win e e' m
                ≡ start_tracker trackers interceptors e e' aiming =
              when_some _ _ m.selection identity chosen
              ∙ when_true _ _ (is_process_identity_current win identity) there in
            rw whole (
              start_tracker-IsConsistent e e' aiming off (
                retargeted-IsConsistent trackers interceptors m
                  (set_selected_pid identity.pid m.target_pids) identity m.selection
                  m.refresh_in_flight m.warnings c
                  (λ pid.
                    contains-set_selected identity m.target_pids pid
                      (current-valid win identity there))))
      ]
    ]

    list-IsConsistent :
        (processes : List ProcessInfo) (m : MainWindow T I)
        → IsConsistent trackers interceptors m
        → IsConsistent trackers interceptors (on_process_list_ready processes m)
    unfolding on_process_list_ready
    list-IsConsistent processes m c =
        let arrived : MainWindow T I = record m { refresh_in_flight = false } in
        let cleared = selected-IsConsistent trackers interceptors none arrived (
          retargeted-IsConsistent trackers interceptors m m.target_pids m.selected_process_identity
            m.selection false m.warnings c c.aimed) in
        elim (Option-cases (item_with (identity_from_item m.selection).pid processes)) [
          | inl lost ↦ rw (lost, on_process_list_ready) cleared
          | inr (identity, found) ↦
              rw (found, on_process_list_ready)
                (selected-IsConsistent trackers interceptors (some identity) (select none arrived)
                  cleared)
        ]

    happen-IsConsistent :
        (m : MainWindow T I) (h : Happening E E')
        → IsConsistent trackers interceptors m
        → IsConsistent trackers interceptors (happen m h)
    unfolding happen on_start_stop_clicked on_pipeline_fatal check_selected_process_identity
        refresh_process_list
    happen-IsConsistent m (clicks_start_stop win e e') c = elim (Bool-cases m.running) [
      | inl on ↦
          let whole : on_start_stop_clicked trackers interceptors win e e' m
              ≡ stop_pipeline trackers interceptors m =
            when_true _ _ m.running on in
          rw whole (stopped-IsConsistent trackers interceptors t! i! m c)
      | inr off ↦
          let whole : on_start_stop_clicked trackers interceptors win e e' m
              ≡ start_pipeline trackers interceptors win e e' m =
            when_false _ _ m.running off in
          rw whole (start_pipeline-IsConsistent win e e' m off c)
    ]
    happen-IsConsistent m (selects item) c = selected-IsConsistent trackers interceptors item m c
    happen-IsConsistent m (driver_fails gle) c = elim (Bool-cases m.running) [
      | inr off ↦
          let whole : on_pipeline_fatal trackers interceptors gle m ≡ m =
            when_false _ _ m.running off in
          rw whole c
      | inl on ↦
          let whole : on_pipeline_fatal trackers interceptors gle m
              ≡ update_pipeline_status (stopped_unexpectedly gle) true
                  (stop_pipeline trackers interceptors m) =
            when_true _ _ m.running on in
          rw whole (
            status-IsConsistent trackers interceptors (stopped_unexpectedly gle) true _
              (stopped-IsConsistent trackers interceptors t! i! m c))
    ]
    happen-IsConsistent m (monitor_ticks win) c = elim (Bool-cases m.running) [
      | inr off ↦
          let whole : check_selected_process_identity trackers interceptors win m ≡ m =
            when_false _ _ m.running off in
          rw whole c
      | inl on ↦ elim (Bool-cases (is_process_identity_current win m.selected_process_identity)) [
        | inl there ↦
            let whole : check_selected_process_identity trackers interceptors win m ≡ m =
              when_true _ _ m.running on ∙ when_true _ _ _ there in
            rw whole c
        | inr gone ↦
            let aimless : MainWindow T I = record m {
              target_pids = clear m.target_pids;
              selected_process_identity = no_identity;
            } in
            let whole : check_selected_process_identity trackers interceptors win m
                ≡ update_pipeline_status replaced true
                    (stop_pipeline trackers interceptors aimless) =
              when_true _ _ m.running on ∙ when_false _ _ _ gone in
            rw whole (
              status-IsConsistent trackers interceptors replaced true _ (
                stopped-IsConsistent trackers interceptors t! i! aimless (
                  retargeted-IsConsistent trackers interceptors m (clear m.target_pids) no_identity
                    m.selection m.refresh_in_flight m.warnings c (contains-clear m.target_pids))))
      ]
    ]
    happen-IsConsistent m refresh_ticks c =
        retargeted-IsConsistent trackers interceptors m m.target_pids m.selected_process_identity
          m.selection true m.warnings c c.aimed
    happen-IsConsistent m (list_arrives processes) c = list-IsConsistent processes m c

    happens-IsConsistent :
        (hs : List (Happening E E')) (m : MainWindow T I)
        → IsConsistent trackers interceptors m
        → IsConsistent trackers interceptors (foldl happen m hs)
    happens-IsConsistent [] m c = c
    happens-IsConsistent (h ∷ hs) m c =
        happens-IsConsistent hs (happen m h) (happen-IsConsistent m h c)

    -- Whatever happens to the window after it is made, in any order: it shows that it runs if both
    -- the tracker and the interceptor are there and run, and otherwise neither is there; the
    -- process list is refreshed by the timer just when it does not run and the target is watched
    -- just when it does; the targets are the one selected process, or none; and no service that
    -- was given up still runs.
    pub window-IsConsistent :
        (sound : Bool) (hs : List (Happening E E'))
        → IsConsistent trackers interceptors (foldl happen (new_window sound) hs)
    window-IsConsistent sound hs = happens-IsConsistent hs (new_window sound) (record {
      parts = tt;
      refresh = refl;
      monitor = refl;
      button = refl;
      aimed = untargeted;
      over = tt;
    })
