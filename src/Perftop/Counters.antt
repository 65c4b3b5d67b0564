-- ===== src/Perftop/Counters.antt =====
-- Assignment 4 Profiler/Part 1/perftop.c, the profiler with its counters only, and that the second
-- part counts as it does.
use sbu_cse_506_operating_sy.Prelude.{
  ℕ, ◌+◌, ◌%◌, ◌≡◌, refl, ap, ◌∙◌, Bool, true, false, Option, none, some, List, [], ◌∷◌, ◌==◌,
  if◌then◌else◌, int_mod, All, Bool-cases, inl, inr,
}
use sbu_cse_506_operating_sy.Kernel.Chain.{HashApi}
use sbu_cse_506_operating_sy.Kernel.Tree.{RbApi}
use sbu_cse_506_operating_sy.Perftop.{Entry, lookup_hash_table}
use sbu_cse_506_operating_sy.Perftop.Probe.{
  Task, State, Event, entered, returned, set_kept, switch_to,
}
use sbu_cse_506_operating_sy.Perftop.Probe as Probe

pub record Counters : Type 0 where
  pub post_count : ℕ
  pub pre_count : ℕ
  pub context_switch_count : ℕ
  pub kept : ℕ → Option Task  -- `data->prev` of each probe instance

abbrev pub increment : ℕ → ℕ
increment n = (n + 1) % int_mod

-- The state, the instance's data and the return value, as in the second part; the task is kept
-- whether or not it is NULL.
unfoldable pub entry_pick_next_fair :
    Bool → Option Task → Counters → Option Task → Counters × Option Task × ℕ
entry_pick_next_fair false prev st held = (st, held, 1)
entry_pick_next_fair true prev st held = (record st { pre_count = increment st.pre_count }, prev, 0)

unfoldable pub ret_pick_next_fair : Option Task → Option Task → Counters → Counters
ret_pick_next_fair none next st = record st { post_count = increment st.post_count }
ret_pick_next_fair (some prev) none st = record st { post_count = increment st.post_count }
ret_pick_next_fair (some prev) (some next) st =
    let st' = record st { post_count = increment st.post_count } in
    if prev.address == next.address
    then st'
    else record st' { context_switch_count = increment st'.context_switch_count }

unfoldable pub count_event : Event → Counters → Counters
count_event (entered i has_mm prev) st =
    let (st', held, skipped) = entry_pick_next_fair has_mm prev st (st.kept i) in
    record st' { kept = set_kept st'.kept i held }
count_event (returned i next curr) st = ret_pick_next_fair (st.kept i) next st

unfoldable pub count_events : List Event → Counters → Counters
count_events [] st = st
count_events (e ∷ es) st = count_events es (count_event e st)

-- The counters of the second part.
abbrev pub counters : State → Counters
counters st = record {
  post_count = st.post_count;
  pre_count = st.pre_count;
  context_switch_count = st.context_switch_count;
  kept = st.kept;
}

-- The task that the scheduler switches from is not NULL.
abbrev pub has_task : Event → Bool
has_task (entered i has_mm none) = false
has_task (entered i has_mm (some prev)) = true
has_task (returned i next curr) = true

module _ (hash : HashApi Entry) (rb : RbApi Entry) where
  counters-switch_to :
      (prev next : Task) (curr : ℕ) (st : State)
      → counters (switch_to hash rb prev next curr st)
        ≡ record (counters st) { context_switch_count = increment st.context_switch_count }
  unfolding switch_to
  counters-switch_to prev next curr st =
      elim (Bool-cases (lookup_hash_table hash st.myhashtable prev.pid == 0)) [
        | inl e ↦ rw e refl
        | inr n ↦ rw n refl
      ]

  counters-ret :
      (held next : Option Task) (curr : ℕ) (st : State)
      → counters (Probe.ret_pick_next_fair hash rb held next curr st)
        ≡ ret_pick_next_fair held next (counters st)
  unfolding Probe.ret_pick_next_fair ret_pick_next_fair
  counters-ret none next curr st = refl
  counters-ret (some p) none curr st = refl
  counters-ret (some p) (some n) curr st = elim (Bool-cases (p.address == n.address)) [
    | inl e ↦ rw e refl
    | inr d ↦
        rw d (counters-switch_to p n curr (record st { post_count = increment st.post_count }))
  ]

  counters-step :
      (e : Event) (st : State)
      → has_task e ≡ true
      → counters (Probe.step hash rb e st) ≡ count_event e (counters st)
  unfolding Probe.step Probe.entry_pick_next_fair count_event entry_pick_next_fair
  counters-step (entered i false prev) st h = refl
  counters-step (entered i true none) st h = cc
  counters-step (entered i true (some p)) st h = refl
  counters-step (returned i next curr) st h = counters-ret (st.kept i) next curr st

  -- On the same calls of the handlers, of which those on entry have a task that is not NULL, the second
  -- part of the profiler has at every point the three counters that the first one has, and the same
  -- task kept in each probe instance, whatever its two containers hold.
  pub counters-run :
      (es : List Event) (st : State)
      → All (λ e. has_task e ≡ true) es
      → counters (Probe.run hash rb es st) ≡ count_events es (counters st)
  unfolding Probe.run count_events
  counters-run [] st h = refl
  counters-run (e ∷ es) st h =
      counters-run es (Probe.step hash rb e st) h.1 ∙ ap (count_events es) (counters-step e st h.0)
