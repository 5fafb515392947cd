-- ===== src/PvController.antt =====
-- pvcontroller/pvcontroller.go: StartPersistentVolumeController.
use mini_kube_scheduler.Common.{◌++◌, Option, none, some}
use mini_kube_scheduler.Common.Keys.{Text, str}
use mini_kube_scheduler.World.{
  World, does, runs_controller, starts_informers, waits_for_cache_sync, cancels_controller,
}

-- `answer` is the text of the error of NewController, if there is one. The function that is returned
-- cancels the controller's context.
unfoldable pub start_persistent_volume_controller :
    (answer : Option Text) → World → Option Text × World
start_persistent_volume_controller answer w = elim answer [
  | some text ↦
      (some (str "construct persistentvolume controller: " ++ text), does cancels_controller w)
  | none ↦ (none, does waits_for_cache_sync (does starts_informers (does runs_controller w)))
]
