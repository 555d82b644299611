-- ===== src/Watch/Events.antt =====
-- crates/kube-manager/src/watch_manager.rs: what a watcher task sends for what the API server
-- reports. `seen_versions` goes in and out of a function; the clock is read into `now`.
pub mod Replay
use lapdev.Base.{
  ℕ, String, ◌≡◌, Bool, true, false, Option, none, some, List, [], ◌∷◌, ◌==◌, string_key,
  if◌then◌else◌,
}
use lapdev.Base.Map
use lapdev.Base.Map.{Map, is_some}
use lapdev.Base.Text.{is_empty}
use lapdev.Watch.Types.{
  ResourceType, deployment, stateful_set, daemon_set, replica_set, job, cron_job, config_map,
  secret, service,
}

pub data ResourceChangeType : Type 0 where
  created : ResourceChangeType
  updated : ResourceChangeType
  deleted : ResourceChangeType

pub record ResourceChangeEvent : Type 0 where
  pub namespace : String
  pub resource_type : ResourceType
  pub resource_name : String
  pub change_type : ResourceChangeType
  pub resource_version : String
  pub resource_yaml : Option String
  pub timestamp : ℕ

-- A Kubernetes object as the code reads it: `name_any`, `resource_version`, and the text that
-- `serde_yaml::to_string` makes of it, if it succeeds.
pub record KubeObject : Type 0 where
  pub name : String
  pub version : Option String
  pub yaml : Option String

unfoldable pub should_include_yaml : ResourceType → Bool
should_include_yaml config_map = false
should_include_yaml secret = false
should_include_yaml _ = true

-- The type of change to report, or none to report nothing.
unfoldable pub change_type_of :
    ResourceChangeType → Map String String → String → String → Option ResourceChangeType
change_type_of created seen name version =
    some (if is_some (Map.get name seen) then updated else created)
change_type_of updated seen name version = elim (Map.get name seen) [
  | none ↦ some updated
  | some previous ↦ if previous == version then none else some updated
]
change_type_of deleted seen name version = some deleted

unfoldable pub note_version :
    ResourceChangeType → String → String → Map String String → Map String String
note_version deleted name version seen = Map.remove name seen
note_version _ name version seen = Map.insert name version seen

unfoldable pub build_event :
    String
    → ResourceType
    → ResourceChangeType
    → ℕ
    → KubeObject
    → Map String String
    → Option ResourceChangeEvent × Map String String
build_event namespace resource_type initial now obj seen =
    if is_empty obj.name then (none, seen) else elim obj.version [
      | none ↦ (none, seen)
      | some version ↦ elim (change_type_of initial seen obj.name version) [
        | none ↦ (none, seen)
        | some change ↦ (
          some (record {
            namespace = namespace;
            resource_type = resource_type;
            resource_name = obj.name;
            change_type = change;
            resource_version = version;
            resource_yaml = if should_include_yaml resource_type then obj.yaml else none;
            timestamp = now;
          }),
          note_version change obj.name version seen,
        )
      ]
    ]

-- What the stream of `watcher` yields.
pub data WatcherEvent : Type 0 where
  apply : KubeObject → WatcherEvent
  delete : KubeObject → WatcherEvent
  init : WatcherEvent
  init_apply : KubeObject → WatcherEvent
  init_done : WatcherEvent

-- One round of the loop of `watch_kind`.
unfoldable pub on_event :
    String
    → ResourceType
    → ℕ
    → WatcherEvent
    → Map String String
    → Option ResourceChangeEvent × Map String String
on_event namespace resource_type now (apply obj) seen =
    build_event namespace resource_type created now obj seen
on_event namespace resource_type now (delete obj) seen =
    build_event namespace resource_type deleted now obj seen
on_event namespace resource_type now init seen = (none, seen)
on_event namespace resource_type now (init_apply obj) seen =
    build_event namespace resource_type created now obj seen
on_event namespace resource_type now init_done seen = (none, seen)

abbrev pub prepend :
    Option ResourceChangeEvent → List ResourceChangeEvent → List ResourceChangeEvent
prepend none events = events
prepend (some event) events = event ∷ events

-- The events sent for a stream that ends, each item of it with the time of its arrival, and the
-- versions seen at the end.
unfoldable pub watch_kind :
    String
    → ResourceType
    → List (ℕ × WatcherEvent)
    → Map String String
    → List ResourceChangeEvent × Map String String
watch_kind namespace resource_type [] seen = ([], seen)
watch_kind namespace resource_type ((now, event) ∷ stream) seen =
    let (sent, next) = on_event namespace resource_type now event seen in
    let (rest, last) = watch_kind namespace resource_type stream next in (prepend sent rest, last)
