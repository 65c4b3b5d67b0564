-- ===== src/Perftop/Cpus/Moves.antt =====
-- Each move of a handler, and runs of them.
use sbu_cse_506_operating_sy.Prelude.{
  ℕ, ◌+◌, ◌%◌, ◌≡◌, refl, sym, ap, ◌∙◌, true, false, ◌==◌, int_mod, arith, ==_refl, ==_iff,
}
use sbu_cse_506_operating_sy.Kernel.Chain.{HashApi}
use sbu_cse_506_operating_sy.Kernel.Tree.{RbApi}
use sbu_cse_506_operating_sy.Perftop.{Entry, remove_hash_table, insert_hash_table}
use sbu_cse_506_operating_sy.Perftop.Probe.{Task, State, charge, switch_to}
use sbu_cse_506_operating_sy.Perftop.Stamps.{
  remove_hash_table-Unique, insert_hash_table-Unique, lookup-remove_hash_table,
  lookup-insert_hash_table,
}
use sbu_cse_506_operating_sy.Perftop.Accounting.{switch_to-IsValid, stamps-switch_to}
use sbu_cse_506_operating_sy.Perftop.Cpus.{
  Handler, no_handler, looked_up, removed, charged, Machine, set_handler, touches,
}
use sbu_cse_506_operating_sy.Perftop.Cpus.Serial.{
  IsDisjoint, Linked, IsProper, stamp, Follows, root-switch_to, Step, others_away,
}

module _ (hash : HashApi Entry) (rb : RbApi Entry) (cpu : ℕ) (m : Machine) (s : State) where
  -- What is known of a handler that is at a switch.
  linked_at :
      (h : Handler) (q : ℕ)
      → Follows hash rb m s
      → m.handler cpu ≡ h
      → touches h q ≡ true
      → Linked h q (stamp hash rb m.state q) (stamp hash rb s q)
  linked_at h q f e t = rw (← e) (f.link cpu q (rw e t))

  locals_agree : (h : Handler) → Follows hash rb m s → m.handler cpu ≡ h → IsProper h
  locals_agree h f e = rw (← e) (f.proper cpu)

  pub look-Step :
      (prev next : Task) (curr : ℕ)
      → let h = looked_up prev next curr (stamp hash rb m.state prev.pid) in
        m.handler cpu ≡ no_handler
        → (prev.pid == next.pid) ≡ false
        → IsDisjoint (record {
          state = record (m.state) { post_count = (m.state.post_count + 1) % int_mod };
          handler = set_handler m.handler cpu h;
        })
        → Follows hash rb m s
        → Step hash rb cpu h m
            (record (m.state) { post_count = (m.state.post_count + 1) % int_mod })
            s
            s
  look-Step prev next curr e n j f = record {
    same_root = f.root;
    unique_after = f.unique;
    valid_after = f.valid;
    proper_after = n;
    outside = λ q a b. (refl, refl);
    own = λ q t. (
      f.still q (λ c. others_away cpu c _ m m.state q j e t),
      λ p. ap (stamp hash rb m.state) (sym ((==_iff prev.pid q).0 p)),
    );
    done = λ q a b. absurd (cc (ap (λ x. touches x q) e, a));
  }

  pub pass-Step :
      (prev next : Task) (curr old : ℕ)
      → m.handler cpu ≡ looked_up prev next curr old
      → (old == 0) ≡ true
      → Follows hash rb m s
      → Step hash rb cpu (charged prev next curr) m m.state s (switch_to hash rb prev next curr s)
  pass-Step prev next curr old e z f =
      let h = looked_up prev next curr old in
      let (same, stamped) = linked_at h prev.pid f e (ground arith) in
      let after = λ (q : ℕ). stamps-switch_to hash rb prev next curr s q f.valid in
      record {
        same_root = ground (
          arith,
          f.root,
          root-switch_to hash rb prev next curr s,
          same,
          stamped (==_refl prev.pid),
        );
        unique_after = f.unique;
        valid_after = switch_to-IsValid hash rb prev next curr s f.valid;
        proper_after = locals_agree h f e;
        outside = λ q a b. (refl, ground (arith, after q, b));
        own = λ q t.
            (λ y. ground (arith, after q), λ o. ground (arith, after q, linked_at h q f e t));
        done = λ q a b. absurd (cc (ap (λ x. touches x q) e, a, b));
      }

  pub remove-Step :
      (prev next : Task) (curr old : ℕ)
      → m.handler cpu ≡ looked_up prev next curr old
      → (old == 0) ≡ false
      → Follows hash rb m s
      → Step hash rb cpu
          (removed prev next curr old)
          m
          (record (m.state) { myhashtable = remove_hash_table hash m.state.myhashtable prev.pid })
          s
          s
  remove-Step prev next curr old e z f =
      let h = looked_up prev next curr old in
      let after =
        λ (q : ℕ). lookup-remove_hash_table hash m.state.myhashtable prev.pid q f.unique in
      record {
        same_root = f.root;
        unique_after = remove_hash_table-Unique hash m.state.myhashtable prev.pid f.unique;
        valid_after = f.valid;
        proper_after = (locals_agree h f e, z);
        outside = λ q a b. (ground (arith, after q, b), refl);
        own = λ q t. (
          λ y. (ground (arith, after q), ground (arith, linked_at h q f e t)),
          λ o. ground (arith, after q, linked_at h q f e t),
        );
        done = λ q a b. absurd (cc (ap (λ x. touches x q) e, a, b));
      }

  pub charge-Step :
      (prev next : Task) (curr old : ℕ)
      → m.handler cpu ≡ removed prev next curr old
      → Follows hash rb m s
      → Step hash rb cpu
          (charged prev next curr)
          m
          (record (m.state) { myroot = charge rb m.state.myroot prev.pid curr old })
          s
          (switch_to hash rb prev next curr s)
  charge-Step prev next curr old e f =
      let h = removed prev next curr old in
      let (apart, nonzero) = locals_agree h f e in
      let (held, others) = linked_at h prev.pid f e (ground arith) in
      let after = λ (q : ℕ). stamps-switch_to hash rb prev next curr s q f.valid in
      record {
        same_root =
            ground
              (arith, f.root, root-switch_to hash rb prev next curr s, held (==_refl prev.pid));
        unique_after = f.unique;
        valid_after = switch_to-IsValid hash rb prev next curr s f.valid;
        proper_after = apart;
        outside = λ q a b. (refl, ground (arith, after q, b));
        own = λ q t.
            (λ y. ground (arith, after q), λ o. ground (arith, after q, linked_at h q f e t));
        done = λ q a b. absurd (cc (ap (λ x. touches x q) e, a, b));
      }

  pub insert-Step :
      (prev next : Task) (curr : ℕ)
      → m.handler cpu ≡ charged prev next curr
      → Follows hash rb m s
      → Step hash rb cpu no_handler m
          (record (m.state) {
            myhashtable = insert_hash_table hash m.state.myhashtable next.pid curr;
            context_switch_count = (m.state.context_switch_count + 1) % int_mod;
          })
          s
          s
  insert-Step prev next curr e f =
      let h = charged prev next curr in
      let after =
        λ (q : ℕ). lookup-insert_hash_table hash m.state.myhashtable next.pid q curr f.unique in
      record {
        same_root = f.root;
        unique_after = insert_hash_table-Unique hash m.state.myhashtable next.pid curr f.unique;
        valid_after = f.valid;
        proper_after = tt;
        outside = λ q a b. (ground (arith, after q, ap (λ x. touches x q) (sym e) ∙ a), refl);
        own = λ q t. absurd (cc t);
        done =
            λ q a b. ground (arith, after q, linked_at h q f e (ap (λ x. touches x q) (sym e) ∙ a));
      }
