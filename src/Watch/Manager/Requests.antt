-- ===== src/Watch/Manager/Requests.antt =====
-- crates/kube-manager/src/watch_manager.rs: the manager under any sequence of requests.
use lapdev.Base.{String, refl, List, [], ◌∷◌, arith, nat_key, string_key, pair_key}
use lapdev.Base.Map
use lapdev.Base.Map.{is_some, contains-keys}
use lapdev.Watch.Types.{type_key}
use lapdev.Watch.Manager.{
  WatchManager, new, configure_watches, add_namespace_watch, remove_namespace_watch,
}
use lapdev.Watch.Manager.Namespaces.{
  IsValid, configure_watches-IsValid, add_namespace_watch-IsValid, remove_namespace_watch-IsValid,
}

-- The requests, and what a sequence of them leads to.
pub data Request : Type 0 where
  configure : List String → Request
  add : String → Request
  remove : String → Request

unfoldable pub serve : List Request → WatchManager → WatchManager
serve [] s = s
serve (configure names ∷ requests) s = serve requests (configure_watches names s)
serve (add n ∷ requests) s = serve requests (add_namespace_watch n s)
serve (remove n ∷ requests) s = serve requests (remove_namespace_watch n s)

-- After any requests, served one after another by a manager in a valid state, there is a task for a
-- resource type and a namespace exactly if the namespace is watched, and the tasks spawned and not
-- aborted are those in the table, each once.
pub serve-IsValid :
    (requests : List Request) (s : WatchManager) → IsValid s → IsValid (serve requests s)
unfolding serve
serve-IsValid [] s h = h
serve-IsValid (configure names ∷ requests) s h =
    serve-IsValid requests (configure_watches names s) (configure_watches-IsValid names s h)
serve-IsValid (add n ∷ requests) s h =
    serve-IsValid requests (add_namespace_watch n s) (add_namespace_watch-IsValid n s h)
serve-IsValid (remove n ∷ requests) s h =
    serve-IsValid requests (remove_namespace_watch n s) (remove_namespace_watch-IsValid n s h)

pub new-IsValid : IsValid new
unfolding Map.get
new-IsValid = record {
  consistent = record {
    live = λ key task e. ground arith;
    owned = λ task made running. absurd (omega arith);
    single = λ key other task e f. ground arith;
    unspawned = λ task later. refl;
  };
  watched = λ j. refl;
}
