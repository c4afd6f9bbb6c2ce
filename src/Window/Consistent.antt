-- ===== src/Window/Consistent.antt =====
-- What holds of the window after any events.
use mathlib.Core.Option.{some-injective}
use scrambler.Prelude.{
  List, ℕ, ◌≡◌, refl, ◌∙◌, ap, inl, inr, Bool, Bool-cases, true, false, not, ◌&&◌, Option, none,
  some, ◌==◌, if◌then◌else◌, All, arith,
}
use scrambler.Targets.{TargetPidSet, contains, clear, set_selected_pid, set_contains}
use scrambler.Processes.{ProcessIdentity, Windows, is_valid, is_process_identity_current}
use scrambler.Window.Pipeline.{
  no_identity, Warning, Service, start_text, stop_text, Status, Ended, tracker_ended,
  interceptor_ended, MainWindow, update_pipeline_status, on_process_selection_changed, select,
}

-- What a service promises: launched without an error it runs, stopped it does not.
pub record IsService {E S : Type 0} (s : Service E S) : Type 0 where
  pub launched : (e : E) → (s.launch e).0 ≡ none → s.is_running (s.launch e).1 ≡ true
  pub stopped : (x : S) → s.is_running (s.stop x) ≡ false

pub when_true : {A : Type 0} (x y : A) (b : Bool) → b ≡ true → (elim b [ false ↦ x | true ↦ y ]) ≡ y
when_true x y true h = refl
when_true x y false h = absurd (cc h)

pub when_false :
    {A : Type 0} (x y : A) (b : Bool) → b ≡ false → (elim b [ false ↦ x | true ↦ y ]) ≡ x
when_false x y false h = refl
when_false x y true h = absurd (cc h)

pub when_some :
    {A B : Type 0} (n : B) (f : A → B) (o : Option A) (x : A)
    → o ≡ some x
    → (elim o [ none ↦ n | some y ↦ f y ]) ≡ f x
when_some n f none x h = absurd (cc h)
when_some n f (some y) x h = ap f (some-injective _ _ h)

pub contains-set_selected :
    (identity : ProcessIdentity) (s : TargetPidSet) (pid : ℕ)
    → is_valid identity ≡ true
    → contains (set_selected_pid identity.pid s) pid ≡ (is_valid identity && pid == identity.pid)
unfolding contains set_selected_pid set_contains
contains-set_selected identity s pid h = rw h (ground arith)

pub contains-clear : (s : TargetPidSet) (pid : ℕ) → contains (clear s) pid ≡ false
unfolding contains clear set_contains
contains-clear s pid = refl

pub current-valid :
    (win : Windows) (identity : ProcessIdentity)
    → is_process_identity_current win identity ≡ true
    → is_valid identity ≡ true
unfolding is_process_identity_current
current-valid win identity h = elim (Bool-cases (is_valid identity)) [
  | inl valid ↦ valid
  | inr other ↦ absurd (cc (rw (other, is_process_identity_current) at h))
]

module _ {E E' T I : Type 0} (trackers : Service E T) (interceptors : Service E' I) where
  -- Both services run, or there is none.
  abbrev pub Parts : Bool → Option T → Option I → Type 0
  Parts true (some t) (some i) = (trackers.is_running t ≡ true) × (interceptors.is_running i ≡ true)
  Parts false none none = Unit
  Parts _ _ _ = ⊥

  abbrev pub IsOver : Ended T I → Type 0
  IsOver (tracker_ended t) = trackers.is_running t ≡ false
  IsOver (interceptor_ended i) = interceptors.is_running i ≡ false

  pub record IsConsistent (m : MainWindow T I) : Type 0 where
    pub parts : Parts m.running m.flow_tracker m.interceptor
    pub refresh : m.refresh_timer ≡ not m.running
    pub monitor : m.target_monitor_timer ≡ m.running
    pub button : m.start_stop_button ≡ (if m.running then stop_text else start_text)
    pub aimed :
        (pid : ℕ)
        → contains m.target_pids pid
          ≡ (is_valid m.selected_process_identity && pid == m.selected_process_identity.pid)
    pub over : All IsOver m.ended

  pub both_running :
      (running : Bool) (t? : Option T) (i? : Option I)
      → Parts running t? i?
      → running ≡ true
      → (t : T) × (i : I) × (t? ≡ some t) × (i? ≡ some i)
  both_running true (some t) (some i) h e = (t, i, refl, refl)
  both_running true (some t) none h e = absurd h
  both_running true none i? h e = absurd h
  both_running false t? i? h e = absurd (cc e)

  pub none_running :
      (running : Bool) (t? : Option T) (i? : Option I)
      → Parts running t? i?
      → running ≡ false
      → (t? ≡ none) × (i? ≡ none)
  none_running true t? i? h e = absurd (cc e)
  none_running false none none h e = (refl, refl)
  none_running false none (some i) h e = absurd h
  none_running false (some t) i? h e = absurd h

  pub status-IsConsistent :
      (message : Status) (error : Bool) (m : MainWindow T I)
      → IsConsistent m
      → IsConsistent (update_pipeline_status message error m)
  unfolding update_pipeline_status
  status-IsConsistent message error m c = record {
    parts = c.parts;
    refresh = c.refresh;
    monitor = c.monitor;
    button = c.button;
    aimed = c.aimed;
    over = c.over;
  }

  -- The target, what is selected and the warnings may change together.
  pub retargeted-IsConsistent :
      (m : MainWindow T I) (targets : TargetPidSet) (identity : ProcessIdentity)
      (item : Option ProcessIdentity) (in_flight : Bool) (warnings : List Warning)
      → IsConsistent m
      → ((pid : ℕ) → contains targets pid ≡ (is_valid identity && pid == identity.pid))
      → IsConsistent (record m {
        target_pids = targets;
        selected_process_identity = identity;
        selection = item;
        refresh_in_flight = in_flight;
        warnings = warnings;
      })
  retargeted-IsConsistent m targets identity item in_flight warnings c aimed = record {
    parts = c.parts;
    refresh = c.refresh;
    monitor = c.monitor;
    button = c.button;
    aimed = aimed;
    over = c.over;
  }

  pub selected-IsConsistent :
      (item : Option ProcessIdentity) (m : MainWindow T I)
      → IsConsistent m
      → IsConsistent (select item m)
  unfolding select on_process_selection_changed
  selected-IsConsistent none m c =
      retargeted-IsConsistent m (clear m.target_pids) no_identity none m.refresh_in_flight
        m.warnings c (contains-clear m.target_pids)
  selected-IsConsistent (some identity) m c =
      retargeted-IsConsistent m _ identity (some identity) m.refresh_in_flight m.warnings c (λ pid.
        elim (Bool-cases (is_valid identity)) [
          | inl valid ↦
              rw valid (contains-set_selected identity m.target_pids pid valid ∙ rw valid refl)
          | inr other ↦ rw other (contains-clear m.target_pids pid)
        ])
