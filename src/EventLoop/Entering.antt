-- ===== src/EventLoop/Entering.antt =====
-- The first loop of `wait_next_event`, with an attentive client: one entry for each rule, on the
-- rule's descriptor and with the events that it is interested in.
use network_project_cs.Common.{
  pos, length_of_some, ◌≤◌, ℕ, zero, suc, ◌+◌, ◌<◌, ◌≡◌, refl, ap, ap₂, sym, ◌∙◌, Bool, true, false,
  ◌||◌, ◌&&◌, List, [], ◌∷◌, ◌++◌, append-nil, append_assoc, All, some, none, get_elem?, length,
  drop, drop_all, arith, inl, inr, if◌then◌else◌, some-inj,
}
use network_project_cs.Common.Actions.{Ends, bind-Ends, Ends-weaken}
use network_project_cs.Kernel.{Kernel}
use network_project_cs.Machine.{Machine}
use network_project_cs.EventLoop.{
  Rule, World, Callbacks, SetUp, set_up, set_up_round, set_up_rule, push_pollfd, is_into, events_of,
}
use network_project_cs.EventLoop.Ownership.{object_of-found}
use network_project_cs.EventLoop.Entries.{Kept, get_elem?-cases}
use network_project_cs.EventLoop.Serving.{
  fd_of, IsAttentive, IsLasting, expected_entry, expected_entries, any_wanted, drop-cons,
}

All-get_elem? :
    (P : Rule → Type 0) (rules : List Rule) (i : ℕ) {rule : Rule}
    → All P rules
    → get_elem? rules i ≡ some rule
    → P rule
All-get_elem? P [] i all here = absurd cc
All-get_elem? P (r ∷ rules) zero all here = rw (sym (some-inj here)) all.0
All-get_elem? P (r ∷ rules) (suc i) all here = All-get_elem? P rules i all.1 here

or_assoc : (a b c : Bool) → ((a || b) || c) ≡ (a || (b || c))
or_assoc true b c = refl
or_assoc false b c = refl

or_false : (a : Bool) → (a || false) ≡ a
or_false true = refl
or_false false = refl

module _ {K : Kernel} {S : Type 0} (C : Callbacks K S) (log : S → List ℕ)
    (wants : List ℕ → ℕ → Bool) (attentive : IsAttentive C log wants) (rules : List Rule)
    (m : Machine K) (l : List ℕ) where
  -- Nothing is thrown.
  abbrev Never : World K S → Type 0
  Never w = ⊥

  -- The rules, the machine and the calls are still those of the start.
  abbrev pub Unchanged : World K S → Type 0
  Unchanged w = Kept rules tt w × (log w.client ≡ l) × (w.machine ≡ m)

  -- The loop's variables after the rule's round.
  abbrev with_entry : Rule → SetUp → SetUp
  with_entry rule st = record {
    it = st.it + 1;
    pollfds = st.pollfds ++ expected_entry K (wants l) m.wrappers rule ∷ [];
    something_to_poll = st.something_to_poll || wants l rule.interest;
  }

  push_pollfd-with_entry :
      (rule : Rule) (st : SetUp) (interested : Bool) (w : World K S)
      → get_elem? rules st.it ≡ some rule
      → interested ≡ wants l rule.interest
      → Unchanged w
      → Ends
          (λ st' w'. (st' ≡ with_entry rule st) × Unchanged w')
          Never
          (push_pollfd C rule st interested w)
  unfolding push_pollfd
  push_pollfd-with_entry rule st interested w here wanted ((same, owned), quiet, machine) =
      let (x, found, used) = object_of-found w st.it rule owned (rw same here) in
      let found' : get_elem? m.wrappers rule.fd ≡ some x =
        ap (λ n. get_elem? n.wrappers rule.fd) (sym machine) ∙ found in
      let number : fd_of K (wants l) m.wrappers rule ≡ x.fd =
        ap (λ o. elim o [ none ↦ pos 0 | some y ↦ y.fd ]) found' in
      rw (found, used)
        (
          ap₂
              (λ fd asked. record {
                it = st.it + 1;
                pollfds =
                    st.pollfds
                    ++ record {
                      fd = fd;
                      events = if asked then events_of K rule.direction else 0;
                      revents = 0;
                    }
                      ∷ [];
                something_to_poll = st.something_to_poll || asked;
              })
              (sym number) wanted,
          ((same, owned), quiet, machine),
        )

  set_up_round-with_entry :
      (rule : Rule) (st : SetUp) (w : World K S)
      → get_elem? rules st.it ≡ some rule
      → IsLasting m.wrappers rule
      → Unchanged w
      → Ends (λ st' w'. (st' ≡ with_entry rule st) × Unchanged w') Never (set_up_round C rule st w)
  unfolding set_up_round set_up_rule
  set_up_round-with_entry rule st w here lasting ((same, owned), quiet, machine) =
      let (x, found, used) = object_of-found w st.it rule owned (rw same here) in
      let stays : (is_into rule.direction && x.eof || x.closed) ≡ false =
        lasting x (ap (λ n. get_elem? n.wrappers rule.fd) (sym machine) ∙ found) in
      rw (found, used, stays)
        (bind-Ends (λ interested w'. (interested ≡ wants l rule.interest) × Unchanged w')
          (λ st' w'. (st' ≡ with_entry rule st) × Unchanged w') Never (push_pollfd C rule st)
          (C.ask rule.interest) w
          (Ends-weaken
            (λ interested w'.
              (interested ≡ wants (log w.client) rule.interest)
              × Kept rules tt w'
              × (log w'.client ≡ log w.client)
              × (w'.machine ≡ w.machine))
            (λ interested w'. (interested ≡ wants l rule.interest) × Unchanged w') Never Never
            (λ interested w' (wanted, kept, quiet', machine'). (
              wanted ∙ ap (λ k. wants k rule.interest) quiet,
              (kept, quiet' ∙ quiet, machine' ∙ machine),
            ))
            (λ w' never. never) (C.ask rule.interest w)
            (attentive.asked rules rule.interest w (same, owned)))
          (λ interested w' (wanted, unchanged).
            push_pollfd-with_entry rule st interested w' here wanted unchanged))

  -- The entries of the rules from the place on have been added.
  abbrev pub Entered : SetUp → SetUp → World K S → Type 0
  Entered st st' w =
      (st'.pollfds ≡ st.pollfds ++ expected_entries K (wants l) m.wrappers (drop st.it rules))
      × (st'.something_to_poll
          ≡ (st.something_to_poll || any_wanted K (wants l) m.wrappers (drop st.it rules)))
      × Unchanged w

  pub set_up-Entered :
      (fuel : ℕ) (st : SetUp) (w : World K S)
      → length rules < fuel + st.it
      → st.it ≤ length rules
      → All (IsLasting m.wrappers) rules
      → Unchanged w
      → Ends (Entered st) Never (set_up C fuel st w)
  unfolding set_up
  set_up-Entered zero st w enough inside lasting unchanged = absurd (omega arith)
  set_up-Entered (suc fuel) st w enough inside lasting unchanged =
      elim (get_elem?-cases rules st.it) [
        | inl (rule, here) ↦
            let here' : get_elem? w.rules st.it ≡ some rule =
              ap (λ rs. get_elem? rs st.it) unchanged.0.0 ∙ here in
            let next : st.it + 1 ≡ suc st.it = omega arith in
            let long = length_of_some rules st.it here in
            rw here' (
              bind-Ends (λ st' w'. (st' ≡ with_entry rule st) × Unchanged w') (Entered st) Never
                (set_up C fuel) (set_up_round C rule st) w
                (set_up_round-with_entry rule st w here
                  (All-get_elem? (IsLasting m.wrappers) rules st.it lasting here) unchanged)
                (λ st' w' (made, unchanged'). rw made (
                  Ends-weaken (Entered (with_entry rule st)) (Entered st) Never Never
                    (λ st'' w'' (entries, some_polled, unchanged''). (
                      entries
                          ∙ append_assoc st.pollfds _ _
                          ∙ rw (drop-cons rules st.it here, next) refl,
                      some_polled
                          ∙ or_assoc st.something_to_poll (wants l rule.interest) _
                          ∙ rw (drop-cons rules st.it here, next) refl,
                      unchanged'',
                    ))
                    (λ w'' never. never) (set_up C fuel (with_entry rule st) w')
                    (set_up-Entered fuel (with_entry rule st) w' (omega arith) (omega arith) lasting
                      unchanged'))))
        | inr (none_left, beyond) ↦
            let none_left' : get_elem? w.rules st.it ≡ none =
              ap (λ rs. get_elem? rs st.it) unchanged.0.0 ∙ none_left in
            let at_end : drop st.it rules ≡ [] = drop_all st.it rules beyond in
            rw (none_left', at_end)
              (sym (append-nil st.pollfds), sym (or_false st.something_to_poll), unchanged)
      ]
