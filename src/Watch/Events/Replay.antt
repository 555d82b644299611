-- ===== src/Watch/Events/Replay.antt =====
-- crates/kube-manager/src/watch_manager.rs: a receiver that applies the events of a watcher to a
-- table of its own has the watcher's view of the cluster.
use lapdev.Base.{
  ℕ, ◌+◌, String, ◌≡◌, ◌∙◌, refl, Bool, true, false, ◌&&◌, not, Option, none, some, List, [], ◌∷◌,
  arith, string_key, if◌then◌else◌, length,
}
use lapdev.Base.Map
use lapdev.Base.Map.{Map, is_some, get-insert, get-remove}
use lapdev.Base.Text.{is_empty}
use lapdev.Watch.Types.{ResourceType}
use lapdev.Watch.Events.{
  ResourceChangeType, created, updated, deleted, ResourceChangeEvent, KubeObject, change_type_of,
  note_version, build_event, WatcherEvent, apply, delete, init, init_apply, init_done, on_event,
  prepend, watch_kind,
}

-- A receiver's table after an event: the latest version of each resource there is.
abbrev noted : ResourceChangeType → String → String → Map String String → Map String String
noted created name version table = Map.insert name version table
noted updated name version table = Map.insert name version table
noted deleted name version table = Map.remove name table

abbrev receive : ResourceChangeEvent → Map String String → Map String String
receive event table = noted event.change_type event.resource_name event.resource_version table

abbrev pub replay : List ResourceChangeEvent → Map String String → Map String String
replay [] table = table
replay (event ∷ events) table = replay events (receive event table)

-- `created` is of a resource that is not in the table, `updated` of one that is.
abbrev fits : ResourceChangeType → Bool → Bool
fits created there = not there
fits updated there = there
fits deleted there = true

abbrev pub in_order : List ResourceChangeEvent → Map String String → Bool
in_order [] table = true
in_order (event ∷ events) table =
    fits event.change_type (is_some (Map.get event.resource_name table))
    && in_order events (receive event table)

-- The events of a stream that are about an object with a name and a version.
abbrev is_versioned : KubeObject → Bool
is_versioned obj = not (is_empty obj.name) && is_some obj.version

abbrev is_reported : WatcherEvent → Bool
is_reported (apply obj) = is_versioned obj
is_reported (delete obj) = is_versioned obj
is_reported (init_apply obj) = is_versioned obj
is_reported _ = false

abbrev pub reported : List (ℕ × WatcherEvent) → ℕ
reported [] = 0
reported ((now, event) ∷ stream) =
    if is_reported event then 1 + reported stream else reported stream

module _ (namespace : String) (resource_type : ResourceType) where
  -- One event: `replay`, `in_order` and `reported` of what is sent for it.
  on_event-replay :
      (now : ℕ) (event : WatcherEvent) (seen : Map String String)
      → replay (prepend (on_event namespace resource_type now event seen).0 []) seen
        ≡ (on_event namespace resource_type now event seen).1
  unfolding on_event build_event change_type_of note_version
  on_event-replay now (apply obj) seen = ground arith
  on_event-replay now (delete obj) seen = ground arith
  on_event-replay now init seen = refl
  on_event-replay now (init_apply obj) seen = ground arith
  on_event-replay now init_done seen = refl

  on_event-in_order :
      (now : ℕ) (event : WatcherEvent) (seen : Map String String)
      → in_order (prepend (on_event namespace resource_type now event seen).0 []) seen ≡ true
  unfolding on_event build_event change_type_of note_version
  on_event-in_order now (apply obj) seen = ground arith
  on_event-in_order now (delete obj) seen = ground arith
  on_event-in_order now init seen = refl
  on_event-in_order now (init_apply obj) seen = ground arith
  on_event-in_order now init_done seen = refl

  on_event-reported :
      (now : ℕ) (event : WatcherEvent) (seen : Map String String)
      → is_some (on_event namespace resource_type now event seen).0 ≡ is_reported event
  unfolding on_event build_event change_type_of note_version
  on_event-reported now (apply obj) seen = ground arith
  on_event-reported now (delete obj) seen = ground arith
  on_event-reported now init seen = refl
  on_event-reported now (init_apply obj) seen = ground arith
  on_event-reported now init_done seen = refl

  replay-prepend :
      (sent : Option ResourceChangeEvent) (rest : List ResourceChangeEvent)
      (table : Map String String)
      → replay (prepend sent rest) table ≡ replay rest (replay (prepend sent []) table)
  replay-prepend none rest table = refl
  replay-prepend (some event) rest table = refl

  in_order-prepend :
      (sent : Option ResourceChangeEvent) (rest : List ResourceChangeEvent)
      (table : Map String String)
      → in_order (prepend sent rest) table
        ≡ (in_order (prepend sent []) table && in_order rest (replay (prepend sent []) table))
  in_order-prepend none rest table = refl
  in_order-prepend (some event) rest table = ground arith

  length-prepend :
      (sent : Option ResourceChangeEvent) (rest : List ResourceChangeEvent)
      → length (prepend sent rest) ≡ (if is_some sent then 1 + length rest else length rest)
  length-prepend none rest = refl
  length-prepend (some event) rest = omega arith

  -- A receiver whose table agrees with `seen_versions` at the start, and who applies every event that
  -- the watcher sends, has the table `seen_versions` at the end.
  pub watch_kind-replay :
      (stream : List (ℕ × WatcherEvent)) (seen : Map String String)
      → replay (watch_kind namespace resource_type stream seen).0 seen
        ≡ (watch_kind namespace resource_type stream seen).1
  unfolding watch_kind
  watch_kind-replay [] seen = refl
  watch_kind-replay ((now, event) ∷ stream) seen =
      let (sent, next) = on_event namespace resource_type now event seen in
      replay-prepend sent (watch_kind namespace resource_type stream next).0 seen
      ∙ rw (on_event-replay now event seen) (watch_kind-replay stream next)

  -- To a receiver who starts from `seen_versions` and applies the events, every `created` event is about
  -- a resource that it does not have, and every `updated` event about one that it has; and there is one event for each item of the stream that is
  -- about an object with a name and a version, whether or not the version is new.
  pub watch_kind-in_order :
      (stream : List (ℕ × WatcherEvent)) (seen : Map String String)
      → (in_order (watch_kind namespace resource_type stream seen).0 seen ≡ true)
        × (length (watch_kind namespace resource_type stream seen).0 ≡ reported stream)
  unfolding watch_kind
  watch_kind-in_order [] seen = (refl, refl)
  watch_kind-in_order ((now, event) ∷ stream) seen =
      let (sent, next) = on_event namespace resource_type now event seen in
      let rest = (watch_kind namespace resource_type stream next).0 in
      let (ordered, counted) = watch_kind-in_order stream next in
      (
        in_order-prepend sent rest seen
            ∙ rw (on_event-in_order now event seen, on_event-replay now event seen) ordered,
        ground (arith, length-prepend sent rest, on_event-reported now event seen, counted),
      )
