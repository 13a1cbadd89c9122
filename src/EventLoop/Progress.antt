-- ===== src/EventLoop/Progress.antt =====
-- The second loop of `wait_next_event` serves every rule that is ready.
use network_project_cs.Common.{
  ap₂, Bool, ◌<◌, ◌≢◌, length-drop, pos, ℤ, ℕ, suc, ◌+◌, ◌≤◌, ◌≡◌, refl, ap, ◌∙◌, sym, true, false,
  List, [], ◌∷◌, ◌++◌, append-nil, append_assoc, All, some, get_elem?, length, take, drop, take_all,
  drop_all, length_of_some, length-drop, inl, inr, arith, ◌==◌,
}
use network_project_cs.Common.Actions.{Ends, bind-Ends, Ends-weaken}
use network_project_cs.Machine.{FdWrapper}
use network_project_cs.Kernel.{Kernel, Pollfd}
use network_project_cs.SystemCall.{passes}
use network_project_cs.EventLoop.{
  wait_next_event, set_up, SetUp, store_revents, poll_and_serve, call_poll, poll_decision,
  after_poll, Rule, World, Callbacks, Result, success, serve_round, serve,
}
use network_project_cs.EventLoop.Ownership.{IsOwned}
use network_project_cs.EventLoop.Safety.{length-store_revents}
use network_project_cs.EventLoop.Entries.{get_elem?-cases}
use network_project_cs.EventLoop.Serving.{
  expected_entries, any_wanted, IsLasting, is_error, calls_for, rule_left, expected_calls,
  expected_rules, IsAttentive, drop-cons,
}
use network_project_cs.EventLoop.Entering.{Entered, set_up-Entered}
use network_project_cs.EventLoop.Attentive.{Rounded, serve_round-Rounded}

module _ {K : Kernel} {S : Type 0} (C : Callbacks K S) (log : S → List ℕ)
    (wants : List ℕ → ℕ → Bool) (attentive : IsAttentive C log wants) where
  -- Nothing is thrown.
  abbrev Never : World K S → Type 0
  Never w = ⊥

  -- What the loop has done from the place `it` on.
  abbrev Done : ℕ → List Pollfd → World K S → Result → World K S → Type 0
  Done it ps w result w' =
      (result ≡ success)
      × (log w'.client ≡ log w.client ++ expected_calls K (drop it w.rules) ps)
      × (w'.rules ≡ take it w.rules ++ expected_rules K (drop it w.rules) ps)
      × IsOwned w'

  at_end-Done :
      (it : ℕ) (ps : List Pollfd) (w : World K S)
      → length w.rules ≤ it
      → IsOwned w
      → Done it ps w success w
  unfolding expected_calls expected_rules
  at_end-Done it ps w beyond owned =
      let none_left : drop it w.rules ≡ [] = drop_all it w.rules beyond in
      (
        refl,
        rw none_left (sym (append-nil (log w.client))),
        rw none_left (sym (append-nil (take it w.rules) ∙ take_all it w.rules beyond)),
        owned,
      )

  round-Done :
      (rule : Rule) (p : Pollfd) (ps : List Pollfd) (it it' : ℕ) (w w' w'' : World K S)
      (result : Result)
      → get_elem? w.rules it ≡ some rule
      → Rounded C log wants attentive rule p it w it' w'
      → Done it' ps w' result w''
      → Done it (p ∷ ps) w result w''
  unfolding expected_calls expected_rules
  round-Done rule p ps it it' w w' w'' result here (behind, before, noted, inside, owned)
        (ok, calls, left, owned') =
      (
        ok,
        rw (drop-cons w.rules it here)
            (calls ∙ rw (behind, noted) (append_assoc (log w.client) (calls_for K rule p) _)),
        rw (drop-cons w.rules it here)
            (left ∙ rw (behind, before) (append_assoc (take it w.rules) (rule_left K rule p) _)),
        owned',
      )

  serve-Done :
      (it : ℕ) (ps : List Pollfd) (w : World K S)
      → All (λ p. is_error K p ≡ false) ps
      → length w.rules ≤ it + length ps
      → IsOwned w
      → Ends (Done it ps w) Never (serve C it ps w)
  unfolding serve
  serve-Done it [] w fine enough owned = elim (get_elem?-cases w.rules it) [
    | inl (rule, here) ↦ let inside = length_of_some w.rules it here in absurd (omega arith)
    | inr (none_left, beyond) ↦ rw none_left (at_end-Done it [] w beyond owned)
  ]
  serve-Done it (p ∷ ps) w (good, fine) enough owned = elim (get_elem?-cases w.rules it) [
    | inl (rule, here) ↦ rw here (
        bind-Ends (Rounded C log wants attentive rule p it w) (Done it (p ∷ ps) w) Never
          (λ it'. serve C it' ps) (serve_round C rule it p) w
          (serve_round-Rounded C log wants attentive rule p it w here good owned)
          (λ it' w' rounded.
            Ends-weaken (Done it' ps w') (Done it (p ∷ ps) w) Never Never
              (λ result w'' done. round-Done rule p ps it it' w w' w'' result here rounded done)
              (λ w'' never. never) (serve C it' ps w')
              (serve-Done it' ps w' fine
                (omega (
                  arith,
                  ap length rounded.0,
                  length-drop it' w'.rules,
                  length-drop (suc it) w.rules,
                  rounded.3,
                ))
                rounded.4)))
    | inr (none_left, beyond) ↦ rw none_left (at_end-Done it (p ∷ ps) w beyond owned)
  ]

  -- What is done after the first loop.
  poll_and_serve-Done :
      (timeout_ms : ℤ) (st : SetUp) (w : World K S) (n : ℕ)
      → st.something_to_poll ≡ true
      → length st.pollfds ≡ length w.rules
      → IsOwned w
      → (K.poll st.pollfds timeout_ms w.machine.kernel).0.0.value ≡ pos n
      → n ≢ 0
      → All
          (λ p. is_error K p ≡ false)
          (store_revents st.pollfds (K.poll st.pollfds timeout_ms w.machine.kernel).0.1)
      → let polled = store_revents st.pollfds (K.poll st.pollfds timeout_ms w.machine.kernel).0.1 in
        Ends
          (λ result w'.
            (result ≡ success)
            × (log w'.client ≡ log w.client ++ expected_calls K w.rules polled)
            × (w'.rules ≡ expected_rules K w.rules polled)
            × IsOwned w')
          (λ w'. ⊥)
          (poll_and_serve C timeout_ms st w)
  unfolding poll_and_serve call_poll poll_decision after_poll
  poll_and_serve-Done timeout_ms st w n some_polled count owned value some_ready fine =
      let not_timeout : (n == 0) ≡ false = ground arith in
      let answer = K.poll st.pollfds timeout_ms w.machine.kernel in
      rw (some_polled, value, passes "poll" n answer.0.0.errno, not_timeout)
        (serve-Done 0 (store_revents st.pollfds answer.0.1)
          (record w { machine = record w.machine { kernel = answer.1 } }) fine
          (omega (arith, length-store_revents st.pollfds answer.0.1)) owned)

  length-expected_entries :
      (wanted : ℕ → Bool) (ws : List FdWrapper) (rules : List Rule)
      → length (expected_entries K wanted ws rules) ≡ length rules
  length-expected_entries wanted ws [] = refl
  length-expected_entries wanted ws (rule ∷ rules) =
      ap suc (length-expected_entries wanted ws rules)

  -- The client is attentive: its functions return, its callbacks leave the rules alone and satisfy
  -- it, so that once one was called no rule is interested during the rest of the call, and its
  -- `interest` functions leave the machine alone too. The rules own their objects; none of them is on
  -- a descriptor that is closed or, for a rule that reads, at its end of file; some rule is
  -- interested; and there is a round for each rule and one more. Then `wait_next_event` polls for
  -- each rule its descriptor, with the events of its direction if it is interested. When poll answers
  -- that descriptors are ready, and none of them in error, each rule whose descriptor is ready for
  -- what was asked has its callback called, once and in the order of the rules; a rule that is
  -- interested and whose descriptor has only hung up has its `cancel` called in its turn and is taken
  -- off; the other rules stay, and no other callback or `cancel` is called. The result is `Success`,
  -- even if no rule is left or none was called, and the rules that are left own their objects.
  pub ready_rules_served :
      (fuel : ℕ) (timeout_ms : ℤ) (w : World K S) (n : ℕ)
      → let wanted = wants (log w.client) in
        let entries = expected_entries K wanted w.machine.wrappers w.rules in
        let (answer, k) = K.poll entries timeout_ms w.machine.kernel in
        length w.rules < fuel
        → IsOwned w
        → All (IsLasting w.machine.wrappers) w.rules
        → any_wanted K wanted w.machine.wrappers w.rules ≡ true
        → answer.0.value ≡ pos n
        → n ≢ 0
        → All (λ p. is_error K p ≡ false) (store_revents entries answer.1)
        → let polled = store_revents entries answer.1 in
          Ends
            (λ result w'.
              (result ≡ success)
              × (log w'.client ≡ log w.client ++ expected_calls K w.rules polled)
              × (w'.rules ≡ expected_rules K w.rules polled)
              × IsOwned w')
            (λ w'. ⊥)
            (wait_next_event C fuel timeout_ms w)
  unfolding wait_next_event
  ready_rules_served fuel timeout_ms w n enough owned lasting some_wanted value some_ready fine =
      let wanted = wants (log w.client) in
      let entries = expected_entries K wanted w.machine.wrappers w.rules in
      let start : SetUp = record { it = 0; pollfds = []; something_to_poll = false } in
      let polled = store_revents entries (K.poll entries timeout_ms w.machine.kernel).0.1 in
      let Served : Result → World K S → Type 0 = λ result w'.
        (result ≡ success)
        × (log w'.client ≡ log w.client ++ expected_calls K w.rules polled)
        × (w'.rules ≡ expected_rules K w.rules polled)
        × IsOwned w' in
      bind-Ends (Entered C log wants attentive w.rules w.machine (log w.client) start) Served Never
        (poll_and_serve C timeout_ms) (set_up C fuel start) w
        (set_up-Entered C log wants attentive w.rules w.machine (log w.client) fuel start w
          (omega arith) (omega arith) lasting ((refl, owned), refl, refl))
        (λ st w' (made, some_polled, ((same, owned'), quiet, machine)).
          let here : World K S → List Pollfd =
            λ v. store_revents st.pollfds (K.poll st.pollfds timeout_ms v.machine.kernel).0.1 in
          let as_described : here w' ≡ polled =
            ap₂ (λ ps mach. store_revents ps (K.poll ps timeout_ms mach.kernel).0.1) made machine in
          let count : length st.pollfds ≡ length w'.rules =
            ap length made
            ∙ length-expected_entries wanted w.machine.wrappers w.rules
            ∙ ap length (sym same) in
          Ends-weaken
            (λ result w''.
              (result ≡ success)
              × (log w''.client ≡ log w'.client ++ expected_calls K w'.rules (here w'))
              × (w''.rules ≡ expected_rules K w'.rules (here w'))
              × IsOwned w'')
            Served Never Never
            (λ result w'' (ok, calls, left, still). (
              ok,
              calls ∙ ap₂ ◌++◌ quiet (ap₂ (λ rs ps. expected_calls K rs ps) same as_described),
              left ∙ ap₂ (λ rs ps. expected_rules K rs ps) same as_described,
              still,
            ))
            (λ w'' never. never) (poll_and_serve C timeout_ms st w')
            (poll_and_serve-Done timeout_ms st w' n (some_polled ∙ some_wanted) count owned'
              (ap₂ (λ ps mach. (K.poll ps timeout_ms mach.kernel).0.0.value) made machine ∙ value)
              some_ready (rw as_described fine)))
