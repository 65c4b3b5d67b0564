-- ===== src/Perftop/Cpus/Serial.antt =====
-- Handlers that overtake one another against handlers that run one by one.
use sbu_cse_506_operating_sy.Prelude.{
  ℕ, ◌≡◌, sym, ap, ◌∙◌, Bool, true, false, ◌==◌, ◌&&◌, if◌then◌else◌, arith, inl, inr, Bool-cases,
  ==_refl, eq_or_ne,
}
use sbu_cse_506_operating_sy.Kernel.Chain.{HashApi}
use sbu_cse_506_operating_sy.Kernel.Tree.{RbApi}
use sbu_cse_506_operating_sy.Perftop.{Entry, lookup_hash_table}
use sbu_cse_506_operating_sy.Perftop.Probe.{Task, State, charge, switch_to}
use sbu_cse_506_operating_sy.Perftop.Stamps.{Unique}
use sbu_cse_506_operating_sy.Perftop.Accounting.{IsValid}
use sbu_cse_506_operating_sy.Perftop.Cpus.{
  Handler, no_handler, looked_up, removed, charged, Machine, set_handler, touches,
}

-- No pid is at the switches of two processors.
abbrev pub IsDisjoint : Machine → Type 0
IsDisjoint m =
    (c d q : ℕ) → (c == d) ≡ false → (touches (m.handler c) q && touches (m.handler d) q) ≡ false

-- The stamp of a pid that a handler is at, and the stamp where the charged switches ran one by one.
abbrev pub Linked : Handler → ℕ → ℕ → ℕ → Type 0
Linked no_handler q a b = Unit
Linked (looked_up prev next curr old) q a b = (a ≡ b) × ((prev.pid == q) ≡ true → a ≡ old)
Linked (removed prev next curr old) q a b =
    ((prev.pid == q) ≡ true → (a ≡ 0) × (b ≡ old)) × ((prev.pid == q) ≡ false → a ≡ b)
Linked (charged prev next curr) q a b =
    ((next.pid == q) ≡ true → b ≡ curr) × ((next.pid == q) ≡ false → a ≡ b)

abbrev pub IsProper : Handler → Type 0
IsProper no_handler = Unit
IsProper (looked_up prev next curr old) = (prev.pid == next.pid) ≡ false
IsProper (removed prev next curr old) = ((prev.pid == next.pid) ≡ false) × ((old == 0) ≡ false)
IsProper (charged prev next curr) = (prev.pid == next.pid) ≡ false

at_cpu : (f : ℕ → Handler) (cpu c : ℕ) (h : Handler) → (cpu == c) ≡ true → set_handler f cpu h c ≡ h
at_cpu f cpu c h y = ap (λ (b : Bool). if b then h else f c) y

elsewhere :
    (f : ℕ → Handler) (cpu c : ℕ) (h : Handler) → (cpu == c) ≡ false → set_handler f cpu h c ≡ f c
elsewhere f cpu c h o = ap (λ (b : Bool). if b then h else f c) o

-- The handler that moves is not at a pid that another one is at.
not_here :
    (cpu c : ℕ) (h : Handler) (m : Machine) (st : State) (q : ℕ)
    → IsDisjoint (record { state = st; handler = set_handler m.handler cpu h })
    → (cpu == c) ≡ false
    → touches (m.handler c) q ≡ true
    → touches h q ≡ false
not_here cpu c h m st q j o t = ground (
  arith,
  j cpu c q,
  ap (λ x. touches x q) (at_cpu m.handler cpu cpu h (==_refl cpu)),
  ap (λ x. touches x q) (elsewhere m.handler cpu c h o),
)

-- Nor are the others at a pid of its own.
pub others_away :
    (cpu c : ℕ) (h : Handler) (m : Machine) (st : State) (q : ℕ)
    → IsDisjoint (record { state = st; handler = set_handler m.handler cpu h })
    → m.handler cpu ≡ no_handler
    → touches h q ≡ true
    → touches (m.handler c) q ≡ false
others_away cpu c h m st q j e t = elim (eq_or_ne cpu c) [
  | inl same ↦ rw (← same.0) (ap (λ x. touches x q) e)
  | inr other ↦ ground (
    arith,
    j cpu c q,
    ap (λ x. touches x q) (at_cpu m.handler cpu cpu h (==_refl cpu)),
    ap (λ x. touches x q) (elsewhere m.handler cpu c h other.1),
  )
]

nobody :
    (cpu c : ℕ) (h : Handler) (m : Machine) (q : ℕ)
    → touches (m.handler cpu) q ≡ false
    → touches (set_handler m.handler cpu h c) q ≡ false
    → touches (m.handler c) q ≡ false
nobody cpu c h m q o away = elim (eq_or_ne cpu c) [
  | inl same ↦ rw (← same.0) o
  | inr other ↦ ap (λ x. touches x q) (sym (elsewhere m.handler cpu c h other.1)) ∙ away
]

module _ (hash : HashApi Entry) (rb : RbApi Entry) where
  abbrev pub stamp : State → ℕ → ℕ
  stamp st q = lookup_hash_table hash st.myhashtable q

  -- The machine against a state: that of its charged switches one by one.
  pub record Follows (m : Machine) (s : State) : Type 0 where
    pub root : m.state.myroot ≡ s.myroot
    pub unique : Unique hash m.state.myhashtable
    pub valid : IsValid hash rb s
    pub proper : (c : ℕ) → IsProper (m.handler c)
    pub link :
        (c q : ℕ)
        → touches (m.handler c) q ≡ true
        → Linked (m.handler c) q (stamp m.state q) (stamp s q)
    pub still : (q : ℕ) → ((c : ℕ) → touches (m.handler c) q ≡ false) → stamp m.state q ≡ stamp s q

  pub root-switch_to :
      (prev next : Task) (curr : ℕ) (s : State)
      → (switch_to hash rb prev next curr s).myroot ≡ (
          if stamp s prev.pid == 0
          then s.myroot
          else charge rb s.myroot prev.pid curr (stamp s prev.pid))
  unfolding switch_to
  root-switch_to prev next curr s = ground arith

  -- A move of one processor: what it has to keep.
  pub record Step (cpu : ℕ) (h : Handler) (m : Machine) (st : State) (s s' : State) : Type 0 where
    pub same_root : st.myroot ≡ s'.myroot
    pub unique_after : Unique hash st.myhashtable
    pub valid_after : IsValid hash rb s'
    pub proper_after : IsProper h
    pub outside :
        (q : ℕ)
        → touches (m.handler cpu) q ≡ false
        → touches h q ≡ false
        → (stamp st q ≡ stamp m.state q) × (stamp s' q ≡ stamp s q)
    pub own : (q : ℕ) → touches h q ≡ true → Linked h q (stamp st q) (stamp s' q)
    pub done :
        (q : ℕ) → touches (m.handler cpu) q ≡ true → touches h q ≡ false → stamp st q ≡ stamp s' q

  pub Step-Follows :
      (cpu : ℕ) (h : Handler) (m : Machine) (st s s' : State)
      → IsDisjoint m
      → IsDisjoint (record { state = st; handler = set_handler m.handler cpu h })
      → Follows m s
      → Step cpu h m st s s'
      → Follows (record { state = st; handler = set_handler m.handler cpu h }) s'
  Step-Follows cpu h m st s s' i j f k = record {
    root = k.same_root;
    unique = k.unique_after;
    valid = k.valid_after;
    proper = λ c. elim (Bool-cases (cpu == c)) [
      | inl y ↦ rw y k.proper_after
      | inr o ↦ rw o (f.proper c)
    ];
    link = λ c q t. elim (Bool-cases (cpu == c)) [
      | inl y ↦ rw y (k.own q (ap (λ x. touches x q) (sym (at_cpu m.handler cpu c h y)) ∙ t))
      | inr o ↦
          let t' = ap (λ x. touches x q) (sym (elsewhere m.handler cpu c h o)) ∙ t in
          let (a, b) =
            k.outside q (ground (arith, i cpu c q, t')) (not_here cpu c h m st q j o t') in
          rw (o, a, b) (f.link c q t')
    ];
    still = λ q away.
        let gone =
          ap (λ x. touches x q) (sym (at_cpu m.handler cpu cpu h (==_refl cpu))) ∙ away cpu in
        elim (Bool-cases (touches (m.handler cpu) q)) [
          | inl y ↦ k.done q y gone
          | inr o ↦
              let (a, b) = k.outside q o gone in
              a ∙ f.still q (λ c. nobody cpu c h m q o (away c)) ∙ sym b
        ];
  }
