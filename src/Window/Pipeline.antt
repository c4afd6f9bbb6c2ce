-- ===== src/Window/Pipeline.antt =====
-- `StartPipeline`, `StopPipeline` and the slots of `MainWindow` that call them, the choice of the
-- target, and the refresh of the process list. The tracker and the interceptor are services: this
-- file knows how they are launched and stopped, Window/Services gives the ones of the program.
use scrambler.Prelude.{
  ℕ, Bool, true, false, Option, none, some, List, [], ◌∷◌, ◌++◌, foldl, ◌==◌, if◌then◌else◌,
}
use scrambler.Startup.{StartupError}
use scrambler.Targets.{TargetPidSet, no_targets, clear, set_selected_pid}
use scrambler.Processes.{
  ProcessIdentity, ProcessInfo, Windows, is_valid, is_process_identity_current,
}

-- How an object is made and started, in what the system answers then, and stopped.
pub record Service (E S : Type 0) : Type 0 where
  pub launch : E → Option StartupError × S
  pub stop : S → S
  pub is_running : S → Bool

pub data ButtonText : Type 0 where
  start_text stop_text : ButtonText

pub data Status : Type 0 where
  stopped_status running_status replaced : Status
  not_started : StartupError → Status
  stopped_unexpectedly : ℕ → Status

-- The tones that are played, for a start and for a stop.
pub data Tone : Type 0 where
  start_tone stop_tone : Tone

-- A warning in a box of its own.
pub data Warning : Type 0 where
  select_first no_longer_running : Warning

-- A service that was given up, as it was then.
pub data Ended (T I : Type 0) : Type 0 where
  tracker_ended : T → Ended T I
  interceptor_ended : I → Ended T I

-- `selection` is what the selected item of the tree says of its process.
pub record MainWindow (T I : Type 0) : Type 0 where
  pub flow_tracker : Option T
  pub interceptor : Option I
  pub running : Bool
  pub refresh_timer : Bool
  pub target_monitor_timer : Bool
  pub refresh_in_flight : Bool
  pub start_stop_button : ButtonText
  pub status : Status
  pub is_error : Bool
  pub selection : Option ProcessIdentity
  pub selected_process_identity : ProcessIdentity
  pub target_pids : TargetPidSet
  pub sound_checkbox : Bool
  pub tones : List Tone
  pub warnings : List Warning
  pub ended : List (Ended T I)

abbrev pub no_identity : ProcessIdentity
no_identity = record { pid = 0; creation_time = 0; exe_path = [] }

abbrev pub identity_from_item : Option ProcessIdentity → ProcessIdentity
identity_from_item none = no_identity
identity_from_item (some identity) = identity

-- The item of the last process with the pid.
unfoldable pub item_with : ℕ → List ProcessInfo → Option ProcessIdentity
item_with pid processes =
    foldl
      (λ found p.
        if p.pid == pid
        then some (record { pid = p.pid; creation_time = p.creation_time; exe_path = p.exe_path })
        else found)
      none processes

module _ {T I : Type 0} where
  -- The window when its constructor is done.
  abbrev pub new_window : (sound : Bool) → MainWindow T I
  new_window sound = record {
    flow_tracker = none;
    interceptor = none;
    running = false;
    refresh_timer = true;
    target_monitor_timer = false;
    refresh_in_flight = true;
    start_stop_button = start_text;
    status = stopped_status;
    is_error = false;
    selection = none;
    selected_process_identity = no_identity;
    target_pids = no_targets;
    sound_checkbox = sound;
    tones = [];
    warnings = [];
    ended = [];
  }

  unfoldable pub update_pipeline_status : Status → (error : Bool) → MainWindow T I → MainWindow T I
  update_pipeline_status message error m = record m { status = message; is_error = error }

  unfoldable pub play_toggle_sound : (started : Bool) → MainWindow T I → MainWindow T I
  play_toggle_sound started m = record m {
    tones =
        if m.sound_checkbox
        then m.tones ++ (if started then start_tone else stop_tone) ∷ []
        else m.tones;
  }

  unfoldable pub refresh_process_list : MainWindow T I → MainWindow T I
  refresh_process_list m = record m { refresh_in_flight = true }

  unfoldable pub on_process_selection_changed : MainWindow T I → MainWindow T I
  unfolding clear set_selected_pid
  on_process_selection_changed m = elim m.selection [
    | none ↦ record m { selected_process_identity = no_identity; target_pids = clear m.target_pids }
    | some identity ↦ record m {
      selected_process_identity = identity;
      target_pids =
          if is_valid identity
          then set_selected_pid identity.pid m.target_pids
          else clear m.target_pids;
    }
  ]

  -- The user, or the list, selects an item or none.
  unfoldable pub select : Option ProcessIdentity → MainWindow T I → MainWindow T I
  unfolding on_process_selection_changed
  select item m = on_process_selection_changed (record m { selection = item })

  -- `OnProcessListReady`, less the shape of the tree: the tree is cleared, and an item that has the
  -- pid of the one that was selected is selected again. An item whose line of parents runs in a
  -- circle is taken to be selected too, though Qt does nothing for an item outside the tree.
  unfoldable pub on_process_list_ready : List ProcessInfo → MainWindow T I → MainWindow T I
  unfolding select item_with
  on_process_list_ready processes m =
      let cleared = select none (record m { refresh_in_flight = false }) in
      elim (item_with (identity_from_item m.selection).pid processes) [
        | none ↦ cleared
        | some identity ↦ select (some identity) cleared
      ]

  -- The end of `StopPipeline`, after both services.
  unfoldable pub show_stopped : MainWindow T I → MainWindow T I
  unfolding refresh_process_list update_pipeline_status play_toggle_sound
  show_stopped m =
      let refreshing =
        refresh_process_list
          (record m { running = false; target_monitor_timer = false; refresh_timer = true }) in
      play_toggle_sound false (
        update_pipeline_status stopped_status false
          (record refreshing { start_stop_button = start_text }))

  module _ {E E' : Type 0} (trackers : Service E T) (interceptors : Service E' I) where
    -- The pointers are reset. What is destroyed has been stopped, by the window or by its destructor.
    unfoldable pub reset_interceptor : MainWindow T I → MainWindow T I
    reset_interceptor m = elim m.interceptor [
      | none ↦ m
      | some i ↦ record m {
        interceptor = none;
        ended = m.ended ++ interceptor_ended (interceptors.stop i) ∷ [];
      }
    ]

    unfoldable pub reset_flow_tracker : MainWindow T I → MainWindow T I
    reset_flow_tracker m = elim m.flow_tracker [
      | none ↦ m
      | some t ↦ record m {
        flow_tracker = none;
        ended = m.ended ++ tracker_ended (trackers.stop t) ∷ [];
      }
    ]

    unfoldable pub stop_pipeline : MainWindow T I → MainWindow T I
    unfolding reset_interceptor reset_flow_tracker show_stopped
    stop_pipeline m = elim m.running [
      | false ↦ m
      | true ↦ show_stopped (reset_flow_tracker (reset_interceptor m))
    ]

    -- The interceptor, once the tracker runs.
    unfoldable pub start_interceptor : E' → MainWindow T I → MainWindow T I
    unfolding reset_interceptor reset_flow_tracker update_pipeline_status play_toggle_sound
    start_interceptor e m =
        let (result, i) = interceptors.launch e in
        let made : MainWindow T I = record m { interceptor = some i } in
        elim result [
          | some error ↦
              reset_flow_tracker
                (reset_interceptor (update_pipeline_status (not_started error) true made))
          | none ↦ play_toggle_sound true (
              update_pipeline_status running_status false (record made {
                running = true;
                refresh_timer = false;
                target_monitor_timer = true;
                start_stop_button = stop_text;
              }))
        ]

    unfoldable pub start_tracker : E → E' → MainWindow T I → MainWindow T I
    unfolding reset_flow_tracker update_pipeline_status start_interceptor
    start_tracker e e' m =
        let (result, t) = trackers.launch e in
        let made : MainWindow T I = record m { flow_tracker = some t } in
        elim result [
          | some error ↦ reset_flow_tracker (update_pipeline_status (not_started error) true made)
          | none ↦ start_interceptor e' made
        ]

    unfoldable pub start_pipeline : Windows → E → E' → MainWindow T I → MainWindow T I
    unfolding clear set_selected_pid refresh_process_list start_tracker is_process_identity_current
    start_pipeline win e e' m = elim m.selection [
      | none ↦ record m { warnings = m.warnings ++ select_first ∷ [] }
      | some identity ↦ elim (is_process_identity_current win identity) [
        | false ↦ refresh_process_list (record m {
          target_pids = clear m.target_pids;
          selected_process_identity = no_identity;
          warnings = m.warnings ++ no_longer_running ∷ [];
        })
        | true ↦ start_tracker e e' (record m {
          selected_process_identity = identity;
          target_pids = set_selected_pid identity.pid m.target_pids;
        })
      ]
    ]

    unfoldable pub on_start_stop_clicked : Windows → E → E' → MainWindow T I → MainWindow T I
    unfolding start_pipeline stop_pipeline
    on_start_stop_clicked win e e' m = elim m.running [
      | true ↦ stop_pipeline m
      | false ↦ start_pipeline win e e' m
    ]

    unfoldable pub on_pipeline_fatal : (gle : ℕ) → MainWindow T I → MainWindow T I
    unfolding stop_pipeline update_pipeline_status
    on_pipeline_fatal gle m = elim m.running [
      | false ↦ m
      | true ↦ update_pipeline_status (stopped_unexpectedly gle) true (stop_pipeline m)
    ]

    unfoldable pub check_selected_process_identity : Windows → MainWindow T I → MainWindow T I
    unfolding clear stop_pipeline update_pipeline_status is_process_identity_current
    check_selected_process_identity win m = elim m.running [
      | false ↦ m
      | true ↦ elim (is_process_identity_current win m.selected_process_identity) [
        | true ↦ m
        | false ↦ update_pipeline_status replaced true (
            stop_pipeline (record m {
              target_pids = clear m.target_pids;
              selected_process_identity = no_identity;
            }))
      ]
    ]
