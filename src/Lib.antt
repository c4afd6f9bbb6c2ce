-- ===== src/Lib.antt =====
-- Scrambler: packet effects for one process's UDP traffic, on Windows through WinDivert.
--
-- The program captures packets (src/core/PacketInterceptor.cpp), asks the flow tracker which
-- process each belongs to (src/core/FlowTracker.cpp), and passes those of the chosen process
-- through the effect engine (src/core/PacketEffectEngine.cpp), which reads the configuration that
-- the window sets (include/core/EffectConfig.h). The engine drops, copies, delays and throttles;
-- what it schedules goes to the delay queue (src/core/DelayQueue.cpp), whose worker hands packets
-- back to the driver when they are due. Failures are counted and logged
-- (src/core/Diagnostics.cpp).
--
-- Files:
--   Types, PacketData      include/core/Types.h, include/core/PacketData.h
--   Config                 include/core/EffectConfig.h: Direction is DirectionEffectConfig, Effects
--                          is EffectConfig; a setter's name here is the method's (SetDelayMs is
--                          set_delay_ms)
--   Rates                  ShouldApplyRate and ShouldDrop of the same header
--   Engine                 include/core/PacketEffectEngine.h, src/core/PacketEffectEngine.cpp:
--                          Emission, Direction (one direction) and Both are the code, the other
--                          modules its properties
--   Delay                  include/core/ScheduledPacketQueue.h (Schedule) and
--                          src/core/DelayQueue.cpp (Queue); Slots, Laws, Accepted, Rounds, Flush,
--                          Calls are its properties
--   Targets                TargetPidSet of include/core/EffectConfig.h
--   Startup                include/core/StartupError.h, src/core/StartupError.cpp
--   Flow                   src/core/FlowTracker.cpp: Tracker is the tables and the lookup, Loop is
--                          Start, Stop and TrackingLoop, Failures is ClassifyRecvFailure of
--                          src/core/Diagnostics.cpp, Interleaved is LookupPid beside the
--                          tracking thread; Laws, Calls, Memory, Endings are properties
--   Diagnostics            include/core/Diagnostics.h, src/core/Diagnostics.cpp: the log ring, the
--                          counters and the rate limit, Parts is Log in two parts; Since, Calls and
--                          Limited are properties
--   DiagnosticsTab         src/ui/DiagnosticsTab.cpp: the view of the counters and the log; Polled,
--                          Viewed and Late are properties
--   Interceptor            src/core/PacketInterceptor.cpp: Capture is the state of the loop, Packet,
--                          Loop are CaptureLoop, Lifecycle is Start and Stop; the other modules are
--                          properties
--   Hotkeys                src/ui/HotkeyManager.cpp and include/ui/HotkeyEdit.h: the bindings and
--                          their settings here, Keys is the translation of keys, Hooks the hook
--                          procedures, Handles the handles of the hooks, Edit the field;
--                          Captured, Held, Switches and Sequences are properties
--   Processes              src/platform/ProcessEnumerator.cpp; Offered is properties
--   Window                 src/ui/MainWindow.cpp. The pipeline: Pipeline is Start, Stop, the
--                          selection and the monitor, Services are the tracker and the interceptor
--                          as it uses them; Consistent, Switched and Runs are properties. The
--                          process tree: Listing makes it, Tree is its filter; Rooted, Placed and Lineage
--                          are properties. The controls of effects: Sliders for delay, jitter,
--                          throttle and drop, Bursts and Duplicates for the others; Shown,
--                          Unchecked, Wired, Framed, Apart, BurstShown, BurstActs, BurstRuns, Counted,
--                          CountSteps, DuplicateSteps and DuplicateRuns are properties. The tab of
--                          settings: Settings, and Bindings for the fields of the hotkeys
--   Sounds                 src/ui/SoundPlayer.cpp; Tones is properties
--   Prelude, Samples       shared names and lemmas; values to run the model on
--
-- State is passed explicitly: a method takes the object and returns the new one. A time point is
-- its count of nanoseconds, zero for the epoch of the clock. Numbers are natural numbers; an `int`
-- that a caller may give as negative is an integer, and what the source clamps is natural after.
-- The 64-bit products of the throttle are at most 1500 * 10^9 + 10240 * 1024, and sequence
-- numbers and the counts that Delay and Flow keep would take centuries to wrap, so none of these is
-- reduced modulo 2^64; Diagnostics.increment is. A pointer into the memory pool is the number of its
-- slot.
--
-- Parameters: floats (an interface with the order of IEEE 754, NaN included) and the doubles of the
-- sounds, the random generator,
-- WinDivert's calls, the UDP table and the byte order conversions of Windows and its error codes,
-- std::priority_queue and rigtorp::SPSCQueue, each an interface with what its
-- documentation promises; Delay/Samples and Samples have instances.
--
-- Loops on queues take fuel, which is the number of items in the queue; each round takes one item,
-- so it is enough, and the theorems say so: no result here supposes that a loop ended.
--
-- Not modelled: the interleaving of single atomic operations inside a method, but for the two locks
-- of LookupPid and the two parts of Log; the making of widgets, their layout and icons;
-- src/main.cpp, which sets up Qt; the calls of Windows and of the audio system.
pub mod Prelude
pub mod Types
pub mod PacketData
pub mod Rates
pub mod Samples
pub mod Config
pub mod Engine
pub mod Delay
pub mod Startup
pub mod Targets
pub mod Flow
pub mod Diagnostics
pub mod DiagnosticsTab
pub mod Hotkeys
pub mod Interceptor
pub mod Processes
pub mod Window
pub mod Sounds
