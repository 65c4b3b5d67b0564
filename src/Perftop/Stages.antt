-- ===== src/Perftop/Stages.antt =====
-- Assignment 4 Profiler/Part 1/perftop.c as a module: what its file /proc/perftop shows, its life from
-- the load to the unload, and that the second part of the profiler does the same but for its tree.
use sbu_cse_506_operating_sy.Prelude.{
  All, ℕ, ◌≡◌, refl, ap, sym, Bool, true, false, List, Bool-cases, inl, inr, if◌then◌else◌,
}
use sbu_cse_506_operating_sy.Kernel.Chain.{HashApi}
use sbu_cse_506_operating_sy.Kernel.Tree.{RbApi}
use sbu_cse_506_operating_sy.Perftop.{Entry}
use sbu_cse_506_operating_sy.Perftop.Probe.{Event, run, initial}
use sbu_cse_506_operating_sy.Perftop.Show as SecondShow
use sbu_cse_506_operating_sy.Perftop.Module as SecondModule
use sbu_cse_506_operating_sy.Perftop.Counters.{
  Counters, count_events, counters, has_task, counters-run,
}

-- The numbers of the line, in its order.
pub record Line : Type 0 where
  pub pre : ℕ
  pub post : ℕ
  pub switches : ℕ

unfoldable pub perftop_show : Counters → Line
perftop_show c = record {
  pre = c.pre_count;
  post = c.post_count;
  switches = c.context_switch_count;
}

pub record Loaded : Type 0 where
  pub proc_entry : Bool
  pub probe : Bool
  pub counted : Counters

-- Whether `register_kretprobe` succeeds, and whether `perftop_init` returns 0.
unfoldable pub perftop_init : Bool → Counters → Loaded × Bool
perftop_init true c = (record { proc_entry = true; probe = true; counted = c }, true)
perftop_init false c = (record { proc_entry = true; probe = false; counted = c }, false)

unfoldable pub perftop_exit : Loaded → Loaded
perftop_exit l = record l { proc_entry = false; probe = false }

-- As for the second part: the handlers are called while the probe is registered.
unfoldable pub lifetime : Bool → List Event → Counters → Loaded
lifetime registers es c =
    let (l, loaded) = perftop_init registers c in
    if loaded then perftop_exit (record l { counted = count_events es l.counted }) else l

-- The line of the second part's file, without its tree.
abbrev pub line_of : SecondShow.Shown → Line
line_of shown = record { pre = shown.pre; post = shown.post; switches = shown.switches }

module _ (hash : HashApi Entry) (rb : RbApi Entry) where
  -- On the same calls of the handlers, of which those on entry have a task that is not NULL, whether or
  -- not the probe can be registered: the files of both parts show the same counters at every moment,
  -- and both modules leave the same behind, the file /proc/perftop if the load failed, no probe, and the
  -- same counters and probe instances.
  pub lifetime-counters :
      (registers : Bool) (es : List Event)
      → All (λ e. has_task e ≡ true) es
      → let first = lifetime registers es (counters initial) in
        let second = SecondModule.lifetime hash rb registers es in
        (perftop_show (count_events es (counters initial))
          ≡ line_of (SecondShow.perftop_show rb (run hash rb es initial)))
        × (first.proc_entry ≡ second.proc_entry)
        × (first.probe ≡ second.probe)
        × (first.counted ≡ counters second.state)
  unfolding perftop_show SecondShow.perftop_show lifetime perftop_init perftop_exit
      SecondModule.lifetime SecondModule.perftop_init SecondModule.perftop_exit
  lifetime-counters registers es h =
      let same = counters-run hash rb es initial h in
      let shown = ap perftop_show (sym same) in
      elim (Bool-cases registers) [
        | inl y ↦ rw y (shown, refl, refl, sym same)
        | inr o ↦ rw o (shown, refl, refl, refl)
      ]
