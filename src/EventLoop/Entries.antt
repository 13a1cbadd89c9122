-- ===== src/EventLoop/Entries.antt =====
-- The first loop of `wait_next_event` ends with one entry of `pollfds` for each rule.
use network_project_cs.Common.{
  ◌&&◌, ◌||◌, inr, inl, ◌<◌, ◌⊎◌, ltb, get_elem?_total, get_elem?_beyond, none, zero, suc,
  Bool-cases, ap, List, ℕ, ◌+◌, ◌≤◌, ◌≡◌, refl, [], ◌∷◌, some, get_elem?, length, length-append,
  Bool, arith, length_of_some,
}
use network_project_cs.Common.Actions.{pure, Ends, bind-Ends}
use network_project_cs.Kernel.{Kernel}
use network_project_cs.EventLoop.{
  set_up, is_into, set_up_round, Rule, World, Callbacks, SetUp, erase, erase_rule, push_pollfd,
  cancel_rule, set_up_rule,
}
use network_project_cs.EventLoop.Ownership.{length-erase, IsOwned, object_of-found, destroy-IsOwned}

module _ {K : Kernel} {S : Type 0} where
  -- The rules are `rules`, and own their objects.
  abbrev pub Kept : {A : Type 0} → List Rule → A → World K S → Type 0
  Kept rules a w = (w.rules ≡ rules) × IsOwned w

  -- The entries are one for each rule before `it`.
  abbrev pub Aligned : SetUp → World K S → Type 0
  Aligned st w = (st.it ≡ length st.pollfds) × (st.it ≤ length w.rules) × IsOwned w

  -- After the first loop: one entry for each rule.
  abbrev pub Ready : SetUp → World K S → Type 0
  Ready st w = (length st.pollfds ≡ length w.rules) × IsOwned w

-- What a client's functions may not do: fault, never end, take rules or their objects away, or add
-- rules during a call.
pub record IsTame {K : Kernel} {S : Type 0} (C : Callbacks K S) : Type 0 where
  pub called :
      (rules : List Rule) (n : ℕ) (w : World K S)
      → Kept rules tt w
      → Ends (Kept rules) IsOwned (C.call n w)
  pub asked :
      (rules : List Rule) (n : ℕ) (w : World K S)
      → Kept rules tt w
      → Ends (Kept rules) IsOwned (C.ask n w)

pub get_elem?-cases :
    (rules : List Rule) (i : ℕ)
    → ((rule : Rule) × (get_elem? rules i ≡ some rule))
      ⊎ ((get_elem? rules i ≡ none) × (length rules ≤ i))
get_elem?-cases rules i = elim (Bool-cases (ltb i (length rules))) [
  | inl inside ↦ inl (get_elem?_total rules i (ground arith))
  | inr outside ↦ inr (get_elem?_beyond rules i (ground arith), ground arith)
]

module _ {K : Kernel} {S : Type 0} (C : Callbacks K S) (tame : IsTame C) where
  -- Once the rule's `cancel` has run.
  erase_rule-Ends :
      (rules : List Rule) (rule : Rule) (it : ℕ) (w : World K S)
      → get_elem? rules it ≡ some rule
      → Kept rules tt w
      → Ends (Kept (erase rules it)) IsOwned (erase_rule C rule it w)
  unfolding erase_rule
  erase_rule-Ends rules rule it w here (same, owned) =
      let (done, left) = destroy-IsOwned w it rule owned (rw same here) in
      rw done (ap (λ rs. erase rs it) same, left)

  pub cancel_rule-Ends :
      (rules : List Rule) (rule : Rule) (it : ℕ) (w : World K S)
      → get_elem? rules it ≡ some rule
      → Kept rules tt w
      → Ends (Kept (erase rules it)) IsOwned (cancel_rule C rule it w)
  unfolding cancel_rule
  cancel_rule-Ends rules rule it w here kept =
      bind-Ends (Kept rules) (Kept (erase rules it)) IsOwned (λ _. erase_rule C rule it)
        (C.call rule.cancel) w (tame.called rules rule.cancel w kept)
        (λ a w' kept'. erase_rule-Ends rules rule it w' here kept')

  -- A round brings the end of the rules one nearer.
  abbrev Nearer : ℕ → ℕ → SetUp → World K S → Type 0
  Nearer count it st w = Aligned st w × (length w.rules + it + 1 ≡ count + st.it)

  push_pollfd-Ends :
      (rules : List Rule) (rule : Rule) (st : SetUp) (interested : Bool) (w : World K S)
      → st.it ≡ length st.pollfds
      → get_elem? rules st.it ≡ some rule
      → Kept rules tt w
      → Ends (Nearer (length rules) st.it) IsOwned (push_pollfd C rule st interested w)
  unfolding push_pollfd
  push_pollfd-Ends rules rule st interested w aligned here (same, owned) =
      let (x, found, used) = object_of-found w st.it rule owned (rw same here) in
      let inside = length_of_some rules st.it here in
      let count = ap length same in
      rw (found, used)
        ((omega (arith, length-append st.pollfds (_ ∷ [])), omega arith, owned), omega arith)

  set_up_rule-Ends :
      (rules : List Rule) (rule : Rule) (st : SetUp) (w : World K S)
      → st.it ≡ length st.pollfds
      → get_elem? rules st.it ≡ some rule
      → Kept rules tt w
      → Ends (Nearer (length rules) st.it) IsOwned (set_up_rule C rule st w)
  unfolding set_up_rule
  set_up_rule-Ends rules rule st w aligned here kept =
      bind-Ends (Kept rules) (Nearer (length rules) st.it) IsOwned (push_pollfd C rule st)
        (C.ask rule.interest) w (tame.asked rules rule.interest w kept)
        (λ interested w' kept'. push_pollfd-Ends rules rule st interested w' aligned here kept')

  set_up_round-Ends :
      (rules : List Rule) (rule : Rule) (st : SetUp) (w : World K S)
      → st.it ≡ length st.pollfds
      → get_elem? rules st.it ≡ some rule
      → Kept rules tt w
      → Ends (Nearer (length rules) st.it) IsOwned (set_up_round C rule st w)
  unfolding set_up_round
  set_up_round-Ends rules rule st w aligned here kept =
      let (x, found, used) = object_of-found w st.it rule kept.1 (rw kept.0 here) in
      let inside = length_of_some rules st.it here in
      elim (Bool-cases (is_into rule.direction && x.eof || x.closed)) [
        | inl spent ↦
            rw (found, used, spent)
              (bind-Ends (Kept (erase rules st.it)) (Nearer (length rules) st.it) IsOwned
                (λ _. pure st) (cancel_rule C rule st.it) w
                (cancel_rule-Ends rules rule st.it w here kept)
                (λ a w' kept'.
                  let shorter = length-erase rules st.it here in
                  let count = ap length kept'.0 in ((aligned, omega arith, kept'.1), omega arith)))
        | inr good ↦ rw (found, used, good) (set_up_rule-Ends rules rule st w aligned here kept)
      ]

  pub set_up-Ends :
      (fuel : ℕ) (st : SetUp) (w : World K S)
      → Aligned st w
      → length w.rules < fuel + st.it
      → Ends Ready IsOwned (set_up C fuel st w)
  unfolding set_up
  set_up-Ends zero st w (aligned, le, owned) enough = absurd (omega arith)
  set_up-Ends (suc fuel) st w (aligned, le, owned) enough = elim (get_elem?-cases w.rules st.it) [
    | inl (rule, here) ↦ rw here (
        bind-Ends (Nearer (length w.rules) st.it) Ready IsOwned (set_up C fuel)
          (set_up_round C rule st) w
          (set_up_round-Ends w.rules rule st w aligned here (refl, owned))
          (λ st' w' (aligned', nearer). set_up-Ends fuel st' w' aligned' (omega arith)))
    | inr (none_left, beyond) ↦ rw none_left (omega arith, owned)
  ]
