-- ===== src/Perftop/Module.antt =====
-- `perftop_init` and `perftop_exit`, around a run of the probe, and what the module leaves behind.
use sbu_cse_506_operating_sy.Prelude.{Bool, true, false, List, if◌then◌else◌}
use sbu_cse_506_operating_sy.Kernel.Chain.{HashApi}
use sbu_cse_506_operating_sy.Kernel.Tree.{RbApi}
use sbu_cse_506_operating_sy.Perftop.{Entry, remove_hash_table_all, remove_rb_tree_all}
use sbu_cse_506_operating_sy.Perftop.Probe.{State, Event, run, initial}

-- The file /proc/perftop, the probe, and the module's own state.
pub record Loaded : Type 0 where
  pub proc_entry : Bool
  pub probe : Bool
  pub state : State

-- Whether `register_kretprobe` succeeds, and what `perftop_init` returns: 0 or -1.
unfoldable pub perftop_init : Bool → Loaded × Bool
perftop_init true = (record { proc_entry = true; probe = true; state = initial }, true)
perftop_init false = (record { proc_entry = true; probe = false; state = initial }, false)

module _ (hash : HashApi Entry) (rb : RbApi Entry) where
  unfoldable pub perftop_exit : Loaded → Loaded
  perftop_exit l = record {
    proc_entry = false;
    probe = false;
    state = record (l.state) {
      myhashtable = (remove_hash_table_all hash l.state.myhashtable).0;
      myroot = remove_rb_tree_all rb l.state.myroot;
    };
  }

  -- The calls of the handlers happen while the probe is registered; a module that did not load is not
  -- unloaded by its exit function.
  unfoldable pub lifetime : Bool → List Event → Loaded
  lifetime registers es =
      let (l, loaded) = perftop_init registers in
      if loaded then perftop_exit (record l { state = run hash rb es l.state }) else l
