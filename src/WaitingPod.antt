-- ===== src/WaitingPod.antt =====
-- minisched/waitingpod/waitingpod.go: a pod that waits in the permit phase, with its pending plugins,
-- their timers and the channel of one signal. time.AfterFunc runs its function in a goroutine of its
-- own, so a timer that fires first leaves a call that has not yet taken the lock.
pub mod History
pub mod Verdicts
pub mod Signals
pub mod Live
use mini_kube_scheduler.Common.{
  ℕ, ◌+◌, Bool, true, false, List, [], ◌∷◌, ◌++◌, map, Option, none, some, arith, length, nat_beq,
  leb, ◌&&◌, if◌then◌else◌,
}
use mini_kube_scheduler.Common.Keys.{Text, text_eq, str}
use mini_kube_scheduler.Common.Maps.{lookup, insert, delete}
use mini_kube_scheduler.Framework.{Framework, Pod, Code, success, unschedulable}

-- A timer of time.AfterFunc: when it fires, and whether it can still fire.
pub record Timer : Type 0 where
  pub deadline : ℕ
  pub wait_time : ℕ
  pub running : Bool

abbrev pub stop : Timer → Timer
stop t = record t { running = false }

pub start_timers : (now : ℕ) → List (Text × ℕ) → List (Text × Timer) → List (Text × Timer)
start_timers now [] m = m
start_timers now ((plugin, wait_time) ∷ rest) m =
    start_timers now rest (
      insert plugin (record { deadline = now + wait_time; wait_time = wait_time; running = true })
        m)

stop_all : List (Text × Timer) → List (Text × Timer)
stop_all [] = []
stop_all ((plugin, timer) ∷ m) = (plugin, stop timer) ∷ stop_all m

module _ ⦃fw : Framework⦄ where
  pub record WaitingPod : Type 0 where
    pub pod : Pod
    pub pending_plugins : List (Text × Timer)
    -- The channel s, of capacity one.
    pub s : Option fw.Status
    -- Calls of Reject by timers that have fired, not yet made: plugin and wait time.
    pub fired : List (Text × ℕ)

  unfoldable pub new_waiting_pod : (now : ℕ) → Pod → List (Text × ℕ) → WaitingPod
  unfolding start_timers
  new_waiting_pod now pod plugins_max_wait_time = record {
    pod = pod;
    pending_plugins = start_timers now plugins_max_wait_time [];
    s = none;
    fired = [];
  }

  -- The select with a default case: a send to a full channel is dropped.
  pub send : fw.Status → WaitingPod → WaitingPod
  send status w = elim w.s [ none ↦ record w { s = some status } | some old ↦ w ]

  -- `none`: the caller blocks.
  unfoldable pub get_signal : WaitingPod → Option (fw.Status × WaitingPod)
  get_signal w = elim w.s [ none ↦ none | some status ↦ some (status, record w { s = none }) ]

  pub get_pending_plugins : WaitingPod → List Text
  get_pending_plugins w = map (λ x. x.0) w.pending_plugins

  signal_if_done : WaitingPod → WaitingPod
  unfolding send
  signal_if_done w =
      if nat_beq (length w.pending_plugins) 0 then send (fw.new_status success []) w else w

  -- The timer of a plugin that is there is stopped, and leaves the map with the plugin.
  unfoldable pub allow : (plugin_name : Text) → WaitingPod → WaitingPod
  unfolding signal_if_done
  allow plugin_name w =
      signal_if_done (record w { pending_plugins = delete plugin_name w.pending_plugins })

  unfoldable pub reject : (plugin_name msg : Text) → WaitingPod → WaitingPod
  unfolding stop_all send
  reject plugin_name msg w =
      send (fw.with_failed_plugin (fw.new_status unschedulable msg) plugin_name)
        (record w { pending_plugins = stop_all w.pending_plugins })

  -- The runtime fires the timer of a plugin at `now`, if it is due and was not stopped.
  fire_timer : (now : ℕ) (plugin : Text) → Timer → WaitingPod → WaitingPod
  fire_timer now plugin t w =
      if t.running && leb t.deadline now
      then record w {
        pending_plugins = insert plugin (stop t) w.pending_plugins;
        fired = w.fired ++ (plugin, t.wait_time) ∷ [];
      }
      else w

  unfoldable pub fire : (now : ℕ) (plugin : Text) → WaitingPod → WaitingPod
  unfolding fire_timer
  fire now plugin w = elim (lookup plugin w.pending_plugins) [
    | none ↦ w
    | some t ↦ fire_timer now plugin t w
  ]

  -- The oldest fired call gets the lock. `message` is the text of fmt.Sprintf.
  unfoldable pub run_fired : (message : ℕ → Text → Text) → WaitingPod → WaitingPod
  unfolding reject
  run_fired message w = elim w.fired [
    | [] ↦ w
    | (plugin, wait_time) ∷ rest ↦
        reject plugin (message wait_time plugin) (record w { fired = rest })
  ]
