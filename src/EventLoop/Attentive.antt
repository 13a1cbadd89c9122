-- ===== src/EventLoop/Attentive.antt =====
-- One round of the second loop of `wait_next_event` calls what it has to.
use network_project_cs.Common.{
  Bool, ℕ, suc, ◌+◌, ◌≤◌, ◌≡◌, refl, ap, ◌∙◌, sym, false, List, [], ◌∷◌, ◌++◌, append-nil, some,
  get_elem?, length, take, drop, length_of_some, Bool-cases, inl, inr, if◌then◌else◌, arith, ◌==◌,
}
use network_project_cs.Common.Actions.{pure, Ends, bind-Ends, Ends-weaken}
use network_project_cs.Kernel.{Kernel, Pollfd}
use network_project_cs.EventLoop.{
  Rule, World, Callbacks, erase, erase_rule, cancel_rule, reject_busy, check_busy, serve_ready,
  serve_round,
}
use network_project_cs.EventLoop.Ownership.{
  length-erase, IsOwned, destroy-IsOwned, service_count-eq,
}
use network_project_cs.EventLoop.Entries.{Kept}
use network_project_cs.EventLoop.Serving.{
  is_error, is_ready, is_defunct, calls_for, rule_left, IsAttentive, drop-erase, take-erase,
  take-suc,
}

module _ {K : Kernel} {S : Type 0} (C : Callbacks K S) (log : S → List ℕ)
    (wants : List ℕ → ℕ → Bool) (attentive : IsAttentive C log wants) where
  -- Nothing is thrown.
  abbrev Never : World K S → Type 0
  Never w = ⊥

  -- The rules are `rules`, and one more call is noted.
  abbrev Noted : List Rule → List ℕ → ℕ → World K S → Type 0
  Noted rules before n w = Kept rules tt w × (log w.client ≡ before ++ n ∷ [])

  cancel_rule-Noted :
      (rule : Rule) (it : ℕ) (w : World K S)
      → get_elem? w.rules it ≡ some rule
      → IsOwned w
      → Ends
          (λ _ w'. Noted (erase w.rules it) (log w.client) rule.cancel w')
          Never
          (cancel_rule C rule it w)
  unfolding cancel_rule erase_rule
  cancel_rule-Noted rule it w here owned =
      bind-Ends (λ _ w'. Noted w.rules (log w.client) rule.cancel w')
        (λ _ w'. Noted (erase w.rules it) (log w.client) rule.cancel w') Never
        (λ _. erase_rule C rule it) (C.call rule.cancel) w
        (attentive.called w.rules rule.cancel w (refl, owned))
        (λ a w' ((same, owned'), noted).
          let (done, left) = destroy-IsOwned w' it rule owned' (rw same here) in
          rw done ((ap (λ rs. erase rs it) same, left), noted))

  check_busy-Noted :
      (rules : List Rule) (rule : Rule) (it count n : ℕ) (before : List ℕ) (w : World K S)
      → get_elem? rules it ≡ some rule
      → Noted rules before n w
      → Ends (λ _ w'. Noted rules before n w') Never (check_busy C rule count w)
  unfolding check_busy reject_busy
  check_busy-Noted rules rule it count n before w here ((same, owned), noted) =
      let (now, counted) = service_count-eq w it rule owned (rw same here) in
      elim (Bool-cases (count == now)) [
        | inl idle ↦
            rw (counted, idle)
              (bind-Ends
                (λ interested w'.
                  (interested ≡ false) × Kept rules tt w' × (log w'.client ≡ log w.client))
                (λ _ w'. Noted rules before n w') Never (reject_busy C) (C.ask rule.interest) w
                (Ends-weaken
                  (λ interested w'.
                    (interested ≡ wants (log w.client) rule.interest)
                    × Kept rules tt w'
                    × (log w'.client ≡ log w.client)
                    × (w'.machine ≡ w.machine))
                  (λ interested w'.
                    (interested ≡ false) × Kept rules tt w' × (log w'.client ≡ log w.client))
                  Never Never
                  (λ interested w' (wanted, kept, quiet, _). (
                    wanted
                        ∙ ap (λ l. wants l rule.interest) noted
                        ∙ attentive.content before n rule.interest,
                    kept,
                    quiet,
                  ))
                  (λ w' never. never) (C.ask rule.interest w)
                  (attentive.asked rules rule.interest w (same, owned)))
                (λ interested w' (none, kept, quiet). rw none (kept, quiet ∙ noted)))
        | inr served ↦ rw (counted, served) ((same, owned), noted)
      ]

  serve_ready-Noted :
      (rule : Rule) (it : ℕ) (w : World K S)
      → get_elem? w.rules it ≡ some rule
      → IsOwned w
      → Ends (λ _ w'. Noted w.rules (log w.client) rule.callback w') Never (serve_ready C rule w)
  unfolding serve_ready
  serve_ready-Noted rule it w here owned =
      let (count, counted) = service_count-eq w it rule owned here in
      rw counted (
        bind-Ends (λ _ w'. Noted w.rules (log w.client) rule.callback w')
          (λ _ w'. Noted w.rules (log w.client) rule.callback w') Never
          (λ _. check_busy C rule count) (C.call rule.callback) w
          (attentive.called w.rules rule.callback w (refl, owned))
          (λ a w' noted.
            check_busy-Noted w.rules rule it count rule.callback (log w.client) w' here noted))

  -- A round has done what the entry asks for: the rules from the next place on are those that were
  -- behind the round's rule, and before it stands that rule too if it stays.
  abbrev pub Rounded : Rule → Pollfd → ℕ → World K S → ℕ → World K S → Type 0
  Rounded rule p it w it' w' =
      (drop it' w'.rules ≡ drop (suc it) w.rules)
      × (take it' w'.rules ≡ take it w.rules ++ rule_left K rule p)
      × (log w'.client ≡ log w.client ++ calls_for K rule p)
      × (it' ≤ length w'.rules)
      × IsOwned w'

  stays-Rounded :
      (rule : Rule) (p : Pollfd) (it : ℕ) (w w' : World K S)
      → get_elem? w.rules it ≡ some rule
      → is_defunct K p ≡ false
      → Kept w.rules tt w'
      → log w'.client ≡ log w.client ++ (if is_ready K p then rule.callback ∷ [] else [])
      → Rounded rule p it w (it + 1) w'
  stays-Rounded rule p it w w' here stays (same, owned) noted =
      let next : it + 1 ≡ suc it = omega arith in
      let inside = length_of_some w.rules it here in
      rw (next, stays)
        (
          ap (drop (suc it)) same,
          ap (take (suc it)) same ∙ take-suc w.rules it here,
          noted,
          omega (arith, ap length same),
          owned,
        )

  pub serve_round-Rounded :
      (rule : Rule) (p : Pollfd) (it : ℕ) (w : World K S)
      → get_elem? w.rules it ≡ some rule
      → is_error K p ≡ false
      → IsOwned w
      → Ends (Rounded rule p it w) Never (serve_round C rule it p w)
  unfolding serve_round
  serve_round-Rounded rule p it w here fine owned = elim (Bool-cases (is_defunct K p)) [
    | inl gone ↦
        rw (fine, gone)
          (bind-Ends (λ _ w'. Noted (erase w.rules it) (log w.client) rule.cancel w')
            (Rounded rule p it w) Never (λ _. pure it) (cancel_rule C rule it) w
            (cancel_rule-Noted rule it w here owned)
            (λ a w' ((same, owned'), noted).
              let shorter = length-erase w.rules it here in
              let inside = length_of_some w.rules it here in
              rw gone (
                ap (drop it) same ∙ drop-erase w.rules it,
                ap (take it) same ∙ take-erase w.rules it ∙ sym (append-nil (take it w.rules)),
                noted,
                omega (arith, ap length same),
                owned',
              )))
    | inr stays ↦ elim (Bool-cases (is_ready K p)) [
      | inl ready ↦
          rw (fine, stays, ready)
            (bind-Ends (λ _ w'. Noted w.rules (log w.client) rule.callback w') (Rounded rule p it w)
              Never (λ _. pure (it + 1)) (serve_ready C rule) w
              (serve_ready-Noted rule it w here owned)
              (λ a w' (kept, noted). stays-Rounded rule p it w w' here stays kept (rw ready noted)))
      | inr quiet ↦
          rw (fine, stays, quiet)
            (stays-Rounded rule p it w w here stays (refl, owned)
              (rw quiet (sym (append-nil (log w.client)))))
    ]
  ]
