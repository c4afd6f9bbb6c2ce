-- ===== src/Window/Tests.antt =====
-- The window with the program's own services, on a driver that always opens, and the sliders of the
-- delay.
use scrambler.Prelude.{
  ◌==◌, if◌then◌else◌, ℕ, ◌+◌, ◌≡◌, refl, Bool, true, false, pos, some, none, List, [], ◌∷◌, foldl,
  arith,
}
use scrambler.Config.Direction
use scrambler.Config.Effects
use scrambler.Config.Effects.{EffectConfig, default_effects}
use scrambler.Flow.Loop
use scrambler.Flow.Tracker.{FlowTracker, new_tracker}
use scrambler.Processes.{Windows, ProcessIdentity}
use scrambler.Samples.{codes, same, Milli, milli_float, sample_packet}
use scrambler.Delay.Interfaces.{PriorityQueue, SpscQueue}
use scrambler.Delay.Queue.{Entry}
use scrambler.Delay.Samples.{list_ring, list_heap}
use scrambler.Interceptor.Capture.{WinDivert}
use scrambler.Interceptor.Lifecycle
use scrambler.Interceptor.Lifecycle.{Control, Intercepting}
use scrambler.Window.Pipeline.{
  MainWindow, check_selected_process_identity, on_start_stop_clicked, new_window,
}
use scrambler.Window.Consistent.{IsConsistent}
use scrambler.Window.Runs.{
  Happening, clicks_start_stop, selects, monitor_ticks, happen, window-IsConsistent,
}
use scrambler.Window.Services.{
  TrackerStart, InterceptorStart, tracker_service, tracker-IsService, interceptor_service,
  interceptor-IsService,
}
use scrambler.Window.Sliders.{Controls, delay_effect, click_asymmetric}
use scrambler.Window.Shown.{IsShown}
use scrambler.Window.Unchecked.{
  Action, moves_shared, moves_direction, clicks_asymmetric, IsCleared, act, unchecked_box,
}
use scrambler.Window.Tree.{
  Item, Items, node, nil, cons, texts_of, filter_children, on_process_filter_changed, AreFiltered,
  process_filter_hides,
}
use scrambler.Window.Wired.{delay-IsEffect}

abbrev entries : PriorityQueue Entry (λ e. e.due)
entries = list_heap (λ e. e.due)

abbrev ring : SpscQueue ℕ 2
ring = list_ring 2

abbrev driver : WinDivert ℕ ℕ
driver = record {
  ntohl = same;
  ntohs = same;
  parse = λ data_bytes. none;
  is_outbound = λ a. true;
  send = λ data_bytes a calls. (true, calls + 1);
  send_ex = λ data_bytes addrs calls. (true, calls + 1);
}

abbrev control : Control ℕ
control = record {
  open_handle = λ d. some (d + 1);
  set_queue_length = λ n d. d;
  set_queue_size = λ n d. d;
  shutdown_recv = λ d. d;
  shutdown_send = λ d. d;
  close = λ d. d;
}

abbrev game : ProcessIdentity
game = record { pid = 42; creation_time = 7; exe_path = 68 ∷ [] }

-- The process runs, and later it does not.
abbrev win : (runs : Bool) → Windows
win runs = record {
  wcsnicmp = λ n s t. true;
  utf8 = λ s. some s;
  windows_directory = [];
  current_process_id = 30;
  ask = λ pid. record {
    opens = runs;
    image_name = some (68 ∷ []);
    created = some (record { low = 7; high = 0 });
    session_id = some 1;
  };
}

abbrev tracker_start : TrackerStart ℕ
tracker_start = record { opened = some 1; gle = 0; table = none }

abbrev interceptor_start : InterceptorStart ℕ ℕ
interceptor_start = record {
  driver = 0;
  gle = 0;
  memory = λ slot. record { packet = sample_packet; release_at = 0 };
}

abbrev story : List (Happening (TrackerStart ℕ) (InterceptorStart ℕ ℕ))
story =
    selects (some game)
    ∷ clicks_start_stop (win true) tracker_start interceptor_start
    ∷ monitor_ticks (win true)
    ∷ []

abbrev told :
    List (Happening (TrackerStart ℕ) (InterceptorStart ℕ ℕ))
    → MainWindow (FlowTracker ℕ) (Intercepting ring entries driver control)
told story =
    foldl
      (happen (tracker_service same same codes)
        (interceptor_service ring entries driver control codes))
      (new_window true) story

it_runs : (told story).running ≡ true
unfolding happen on_start_stop_clicked Loop.start Lifecycle.start new_tracker
it_runs = refl

-- The process ends while the pipeline runs.
it_stops :
    (happen
      (tracker_service same same codes)
      (interceptor_service ring entries driver control codes)
      (told story)
      (monitor_ticks (win false))).running
    ≡ false
unfolding happen on_start_stop_clicked check_selected_process_identity Loop.start Lifecycle.start
    new_tracker
it_stops = refl

window-IsConsistent_example :
    IsConsistent
      (tracker_service same same codes)
      (interceptor_service ring entries driver control codes)
      (foldl
        (happen
          (tracker_service same same codes)
          (interceptor_service ring entries driver control codes))
        (new_window true)
        story)
window-IsConsistent_example =
    window-IsConsistent (tracker_service same same codes)
      (interceptor_service ring entries driver control codes) (tracker-IsService same same codes)
      (interceptor-IsService ring entries driver control codes) true story

abbrev delays : Controls (EffectConfig Milli)
delays = record {
  shared = 0;
  direction = λ dir. 0;
  asymmetric = false;
  shared_enabled = true;
  directions_visible = false;
  effects = default_effects;
}

-- The shared slider to 10, the box, the inbound slider to 50.
abbrev moves : List Action
moves = moves_shared (pos 10) ∷ clicks_asymmetric ∷ moves_direction false (pos 50) ∷ []

delays-IsShown : IsShown (delay_effect {F = Milli}) 0 1000 (λ v. v) delays
unfolding Effects.delay default_effects Direction.default_config
delays-IsShown = record {
  in_range = λ dir. ground arith;
  shared_in_range = ground arith;
  reads = elim [ true ↦ refl | false ↦ refl ];
}

-- The box is cleared: the shared slider shows 10, the inbound delay stays 50.
inbound_stays :
    let c =
      click_asymmetric
        (delay_effect {F = Milli})
        0
        1000
        (foldl (act (delay_effect {F = Milli}) 0 1000) delays moves) in
    (c.shared ≡ 10) × (Effects.delay c.effects true ≡ 10) × (Effects.delay c.effects false ≡ 50)
unfolding act click_asymmetric Effects.delay Effects.set_delay_ms Direction.set_delay_ms
inbound_stays = (refl, refl, refl)

box_is_on : (foldl (act (delay_effect {F = Milli}) 0 1000) delays moves).asymmetric ≡ true
unfolding act
box_is_on = refl

unchecked_box_example :
    let c = foldl (act (delay_effect {F = Milli}) 0 1000) delays moves in
    IsShown (delay_effect {F = Milli}) 0 1000 (λ v. v) c
    × IsCleared
        (delay_effect {F = Milli})
        0
        1000
        (λ v. v)
        c
        (click_asymmetric (delay_effect {F = Milli}) 0 1000 c)
unchecked_box_example =
    unchecked_box (delay_effect {F = Milli}) 0 1000 (λ v. v) (delay-IsEffect 1000) (omega arith)
      delays moves delays-IsShown box_is_on

-- A text is found where it is the whole.
abbrev whole_text : List ℕ → List ℕ → Bool
whole_text [] [] = true
whole_text (x ∷ xs) (y ∷ ys) = if x == y then whole_text xs ys else false
whole_text _ _ = false

abbrev leaf : ℕ → Item
leaf n = node (n ∷ []) (n ∷ []) false false nil

-- A launcher with two games below it.
abbrev launcher : Items
launcher = cons (node (1 ∷ []) (1 ∷ []) false false (cons (leaf 2) (cons (leaf 3) nil))) nil

only_the_game :
    on_process_filter_changed whole_text (3 ∷ []) launcher
    ≡ cons
        (node
          (1 ∷ [])
          (1 ∷ [])
          false
          true
          (cons (node (2 ∷ []) (2 ∷ []) true false nil) (cons (leaf 3) nil)))
        nil
unfolding on_process_filter_changed filter_children
only_the_game = refl

process_filter_hides_example :
    let filtered = on_process_filter_changed whole_text (3 ∷ []) launcher in
    (texts_of filtered ≡ texts_of launcher) × AreFiltered whole_text (3 ∷ []) filtered
process_filter_hides_example = process_filter_hides whole_text (3 ∷ []) launcher
