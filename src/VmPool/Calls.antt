-- ===== src/VmPool/Calls.antt =====
-- The calls that a pool (crates/worker/src/vm.rs) made of its launcher, read back.
use kubernix.Prelude.{◌≡◌, ◌∷◌, [], Option, none, some, List, eqb, if◌then◌else◌}
use kubernix.VmPool.{LaunchedVm, WarmVm, Call, boots, booted, stops, pushes_key, VmPool}

-- The VMs without the newest one of this process.
abbrev pub remove_child : LaunchedVm → List LaunchedVm → List LaunchedVm
remove_child v [] = []
remove_child v (w ∷ vms) =
    let rest = remove_child v vms in if eqb w.child v.child then vms else w ∷ rest

-- The VMs that were booted and not stopped.
abbrev pub running : List Call → List LaunchedVm
running [] = []
running (booted v ∷ calls) = v ∷ running calls
running (stops v ∷ calls) = remove_child v (running calls)
running (boots b ∷ calls) = running calls
running (pushes_key t s k f ∷ calls) = running calls

abbrev pub warm_vms : Option WarmVm → List LaunchedVm
warm_vms none = []
warm_vms (some w) = w.vm ∷ []

-- The VMs that run are the warm one, if there is one, and no other.
unfoldable pub RunsWarmOnly : VmPool → Type 0
RunsWarmOnly p = running p.calls ≡ warm_vms p.warm
