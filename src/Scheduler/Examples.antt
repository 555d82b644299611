-- ===== src/Scheduler/Examples.antt =====
-- A host with four cores, of which a workspace has two, and the theorems at it.
use lapdev.Base.{
  ◌≤◌, ℕ, ◌≡◌, refl, String, true, false, Option, none, some, List, [], ◌∷◌, arith, ◌==◌,
  string_key, nat_key, if◌then◌else◌,
}
use lapdev.Base.Int.{pos, as_i32, as_usize, sub_i32}
use lapdev.Base.Map
use lapdev.Base.Map.{is_some}
use lapdev.Scheduler.{
  CpuCore, shared_cores, dedicated_cores, WorkspaceHostStatus, WorkspaceHost, Workspace, from_iter,
  add_existing, add_workspaces, add_prebuilds, get_existing_resource, all_cores, remove_cores,
  remove_dedicated, zero_each, count_cores, count_shared, below, unused, available_cores,
}
use lapdev.Scheduler.Cores.{available_cores-get}
use lapdev.Scheduler.Hosts.{
  Request, is_candidate, first_ordered, decide_workspace_host, picked, pick_cores,
  pick_workspce_host, recalcuate_workspce_host,
}
use lapdev.Scheduler.Picks.{IterateLaws, AreFree, pick_workspce_host-AreFree}
use lapdev.Scheduler.Advertised.{to_be_had, recalcuate_workspce_host-bounds}
use lapdev.Scheduler.Decisions.{GetsCores, pick_workspce_host-succeeds}

abbrev from_str : String → Option CpuCore
from_str text =
    if text == "dedicated" then some (dedicated_cores (0 ∷ 1 ∷ [])) else some (shared_cores 2)

abbrev in_order : List ℕ → List ℕ
in_order cores = cores

in_order-IterateLaws : IterateLaws in_order
in_order-IterateLaws = record {
  same_items = λ i items. refl;
  same_length = λ items. refl;
  still_distinct = λ items h. h;
}

abbrev host : WorkspaceHost
host = record {
  id = 1;
  deleted = false;
  status = WorkspaceHostStatus.active;
  cpu = pos 4;
  memory = pos 64;
  disk = pos 100;
  available_dedicated_cpu = pos 2;
  available_shared_cpu = pos 2;
  available_memory = pos 40;
  available_disk = pos 80;
  region = "eu";
}

abbrev row : String → Workspace
row cores = record {
  host_id = 1;
  deleted = false;
  has_compose_parent = false;
  cores = cores;
  machine_type = some (record { memory = pos 12; disk = pos 10 });
}

abbrev workspaces : List Workspace
workspaces = row "dedicated" ∷ row "shared" ∷ []

abbrev request : Request
request = record {
  prebuild_workspace_host = none;
  prebuild_replica_hosts = 3 ∷ [];
  shared = false;
  cpu = 2;
  memory = 8;
  disk = 10;
  region = "eu";
}

available_cores-get_example :
    Map.get 3 (available_cores 4 4 ((0 ∷ 1 ∷ [], false) ∷ (2 ∷ 3 ∷ [], true) ∷ [])).available
    ≡ some 1
available_cores-get_example =
    available_cores-get 4 4 ((0 ∷ 1 ∷ [], false) ∷ (2 ∷ 3 ∷ [], true) ∷ []) 3

host_decided : decide_workspace_host request (host ∷ []) ≡ some host
unfolding decide_workspace_host is_candidate first_ordered as_i32
host_decided = refl

up_to_date : recalcuate_workspce_host from_str 4 host workspaces [] ≡ some host
unfolding recalcuate_workspce_host get_existing_resource add_workspaces add_prebuilds add_existing
    from_iter available_cores all_cores remove_dedicated remove_cores zero_each count_shared
    count_cores below unused as_i32 as_usize sub_i32 Map.insert Map.remove Map.modify
up_to_date = refl

pick_workspce_host-succeeds_example :
    GetsCores from_str request host workspaces []
      (pick_workspce_host from_str in_order request 4 (host ∷ []) workspaces [])
pick_workspce_host-succeeds_example =
    pick_workspce_host-succeeds from_str in_order request 4 4 (host ∷ []) workspaces [] host
      in_order-IterateLaws host_decided up_to_date refl (omega arith) (omega arith)

recalcuate_workspce_host-bounds_example :
    (host.available_shared_cpu ≡ pos (to_be_had from_str 4 4 1 workspaces []))
    × (host.available_dedicated_cpu ≡ pos (to_be_had from_str 4 4 1 workspaces []))
    × (to_be_had from_str 4 4 1 workspaces [] ≤ 4)
recalcuate_workspce_host-bounds_example =
    recalcuate_workspce_host-bounds from_str 4 4 host host workspaces [] refl (omega arith)
      up_to_date

two_picked :
    pick_workspce_host from_str in_order request 4 (host ∷ []) workspaces []
    ≡ picked host (dedicated_cores (3 ∷ 2 ∷ []))
unfolding pick_workspce_host decide_workspace_host is_candidate first_ordered pick_cores
    get_existing_resource add_workspaces add_prebuilds add_existing from_iter available_cores
    all_cores remove_dedicated remove_cores zero_each count_shared count_cores below unused as_i32
    as_usize Map.insert Map.remove Map.modify
two_picked = refl

pick_workspce_host-AreFree_example : AreFree from_str request host workspaces [] (3 ∷ 2 ∷ [])
pick_workspce_host-AreFree_example =
    pick_workspce_host-AreFree from_str in_order request 4 (host ∷ []) workspaces [] host
      (3 ∷ 2 ∷ []) in_order-IterateLaws two_picked
