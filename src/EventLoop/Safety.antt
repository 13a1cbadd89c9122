-- ===== src/EventLoop/Safety.antt =====
-- `wait_next_event` comes to an end, and indexes `pollfds` only inside its bounds.
use network_project_cs.Common.{
  none, ℤ, pos, negsuc, ok, Option, ◌<◌, ◌&&◌, not, arith, length_of_some, ◌+◌, if◌then◌else◌, ℕ,
  suc, ◌≡◌, refl, ap, inl, inr, List, [], ◌∷◌, some, returns, get_elem?, length, ◌==◌, true, false,
  Bool, Bool-cases,
}
use Prim.Native.Nat.{bit_and, bit_or}
use network_project_cs.SystemCall.{system_call, system_call_cases}
use network_project_cs.Common.Actions.{◌>>◌, pure, Ends, bind-Ends}
use network_project_cs.Kernel.{Kernel, Pollfd}
use network_project_cs.EventLoop.{
  set_up, SetUp, cancel_rule, Result, poll_and_serve, poll_decision, call_poll, after_poll, erase,
  wait_next_event, timeout, exit, is_set, serve, serve_round, Rule, World, Callbacks, store_revents,
  reject_busy, check_busy, serve_ready,
}
use network_project_cs.EventLoop.Ownership.{service_count-eq, length-erase, IsOwned}
use network_project_cs.EventLoop.Entries.{
  set_up-Ends, Ready, cancel_rule-Ends, get_elem?-cases, Kept, IsTame,
}

pub length-store_revents :
    (ps : List Pollfd) (rs : List ℕ) → length (store_revents ps rs) ≡ length ps
unfolding store_revents
length-store_revents [] rs = refl
length-store_revents (p ∷ ps) [] = refl
length-store_revents (p ∷ ps) (r ∷ rs) = ap suc (length-store_revents ps rs)

module _ {K : Kernel} {S : Type 0} (C : Callbacks K S) (tame : IsTame C) where
  reject_busy-Ends :
      (rules : List Rule) (interested : Bool) (w : World K S)
      → Kept rules tt w
      → Ends (Kept rules) IsOwned (reject_busy C interested w)
  unfolding reject_busy
  reject_busy-Ends rules true w kept = kept.1
  reject_busy-Ends rules false w kept = kept

  check_busy-Ends :
      (rules : List Rule) (rule : Rule) (it count : ℕ) (w : World K S)
      → get_elem? rules it ≡ some rule
      → Kept rules tt w
      → Ends (Kept rules) IsOwned (check_busy C rule count w)
  unfolding check_busy
  check_busy-Ends rules rule it count w here kept =
      let (n, counted) = service_count-eq w it rule kept.1 (rw kept.0 here) in
      elim (Bool-cases (count == n)) [
        | inl idle ↦
            rw (counted, idle)
              (bind-Ends (Kept rules) (Kept rules) IsOwned (reject_busy C) (C.ask rule.interest) w
                (tame.asked rules rule.interest w kept)
                (λ interested w' kept'. reject_busy-Ends rules interested w' kept'))
        | inr served ↦ rw (counted, served) kept
      ]

  serve_ready-Ends :
      (rules : List Rule) (rule : Rule) (it : ℕ) (w : World K S)
      → get_elem? rules it ≡ some rule
      → Kept rules tt w
      → Ends (Kept rules) IsOwned (serve_ready C rule w)
  unfolding serve_ready
  serve_ready-Ends rules rule it w here kept =
      let (n, counted) = service_count-eq w it rule kept.1 (rw kept.0 here) in
      rw counted (
        bind-Ends (Kept rules) (Kept rules) IsOwned (λ _. check_busy C rule n)
          (C.call rule.callback) w (tame.called rules rule.callback w kept)
          (λ a w' kept'. check_busy-Ends rules rule it n w' here kept'))

  -- The rules from `it` on are as many as the entries that are left.
  abbrev Matching : ℕ → ℕ → World K S → Type 0
  Matching left it w = (length w.rules ≡ it + left) × IsOwned w

  ready-Matching :
      (left it : ℕ) (rule : Rule) (poll_ready : Bool) (w : World K S)
      → get_elem? w.rules it ≡ some rule
      → Matching (suc left) it w
      → Ends
          (Matching left)
          IsOwned
          (((if poll_ready then serve_ready C rule else pure tt) >> pure (it + 1)) w)
  ready-Matching left it rule true w here (count, owned) =
      bind-Ends (Kept w.rules) (Matching left) IsOwned (λ _. pure (it + 1)) (serve_ready C rule) w
        (serve_ready-Ends w.rules rule it w here (refl, owned))
        (λ a w' kept. (let same = ap length kept.0 in omega arith, kept.1))
  ready-Matching left it rule false w here (count, owned) = (omega arith, owned)

  serve_round-Ends :
      (left it : ℕ) (rule : Rule) (p : Pollfd) (w : World K S)
      → get_elem? w.rules it ≡ some rule
      → Matching (suc left) it w
      → Ends (Matching left) IsOwned (serve_round C rule it p w)
  unfolding serve_round
  serve_round-Ends left it rule p w here (count, owned) =
      let bad = is_set (bit_and p.revents (bit_or K.pollerr K.pollnval)) in
      let ready = is_set (bit_and p.revents p.events) in
      let gone = is_set (bit_and p.revents K.pollhup) && is_set p.events && not ready in
      elim (Bool-cases bad) [
        | inl failed ↦ rw failed owned
        | inr fine ↦ elim (Bool-cases gone) [
          | inl hung_up ↦
              rw (fine, hung_up)
                (bind-Ends (Kept (erase w.rules it)) (Matching left) IsOwned (λ _. pure it)
                  (cancel_rule C rule it) w
                  (cancel_rule-Ends C tame w.rules rule it w here (refl, owned))
                  (λ a w' kept.
                    let same = ap length kept.0 in
                    let shorter = length-erase w.rules it here in (omega arith, kept.1)))
          | inr here_still ↦
              rw (fine, here_still) (ready-Matching left it rule ready w here (count, owned))
        ]
      ]

  serve-Ends :
      (it : ℕ) (ps : List Pollfd) (w : World K S)
      → Matching (length ps) it w
      → Ends (λ _ w'. IsOwned w') IsOwned (serve C it ps w)
  unfolding serve
  serve-Ends it [] w (count, owned) = elim (get_elem?-cases w.rules it) [
    | inl (rule, here) ↦ let inside = length_of_some w.rules it here in absurd (omega arith)
    | inr (none_left, beyond) ↦ rw none_left owned
  ]
  serve-Ends it (p ∷ ps) w (count, owned) = elim (get_elem?-cases w.rules it) [
    | inl (rule, here) ↦ rw here (
        bind-Ends (Matching (length ps)) (λ _ w'. IsOwned w') IsOwned (λ it'. serve C it' ps)
          (serve_round C rule it p) w
          (serve_round-Ends (length ps) it rule p w here (omega arith, owned))
          (λ it' w' matching. serve-Ends it' ps w' matching))
    | inr (none_left, beyond) ↦ rw none_left owned
  ]

  -- What poll's answer can lead to: never a fault, and no exception either.
  poll_decision-returns :
      (value : ℤ) (errno : ℕ)
      → (decision : Option Result) × (poll_decision C (system_call "poll" value errno 0)
          ≡ returns decision)
  unfolding poll_decision
  poll_decision-returns value errno = elim (system_call_cases "poll" value errno 0) [
    | inl (passed, _) ↦ rw passed (decided value)
    | inr (thrown, _, _) ↦ (if errno == K.eintr then some exit else none, rw thrown refl)
  ]
    where
      decided : (z : ℤ) → (decision : Option Result) × (poll_decision C (ok z) ≡ returns decision)
      decided (pos n) = (if n == 0 then some timeout else none, refl)
      decided (negsuc n) = (none, refl)

  -- After poll there are as many entries as before.
  abbrev Polled : Option Result × List Pollfd → World K S → Type 0
  Polled (decision, polled) w = (length w.rules ≡ length polled) × IsOwned w

  call_poll-Ends :
      (pollfds : List Pollfd) (timeout_ms : ℤ) (w : World K S)
      → length pollfds ≡ length w.rules
      → IsOwned w
      → Ends Polled IsOwned (call_poll C pollfds timeout_ms w)
  unfolding call_poll
  call_poll-Ends pollfds timeout_ms w same owned =
      let (r, stored) = (K.poll pollfds timeout_ms w.machine.kernel).0 in
      let (decision, decided) = poll_decision-returns r.value r.errno in
      rw decided (omega (arith, length-store_revents pollfds stored), owned)

  after_poll-Ends :
      (polled : Option Result × List Pollfd) (w : World K S)
      → Polled polled w
      → Ends (λ _ w'. IsOwned w') IsOwned (after_poll C polled w)
  unfolding after_poll
  after_poll-Ends (some result, polled) w (same, owned) = owned
  after_poll-Ends (none, polled) w (same, owned) = serve-Ends 0 polled w (omega arith, owned)

  poll_and_serve-Ends :
      (timeout_ms : ℤ) (st : SetUp) (w : World K S)
      → Ready st w
      → Ends (λ _ w'. IsOwned w') IsOwned (poll_and_serve C timeout_ms st w)
  unfolding poll_and_serve
  poll_and_serve-Ends timeout_ms st w (same, owned) = elim (Bool-cases st.something_to_poll) [
    | inl wanted ↦ rw wanted (
        bind-Ends Polled (λ _ w'. IsOwned w') IsOwned (after_poll C)
          (call_poll C st.pollfds timeout_ms) w (call_poll-Ends st.pollfds timeout_ms w same owned)
          (λ polled w' ready. after_poll-Ends polled w' ready))
    | inr nothing ↦ rw nothing owned
  ]

  -- Whatever the kernel answers, and with callbacks that do not fault and leave the rules alone,
  -- one call of `wait_next_event` with a round for each rule and one more ends: it returns or
  -- throws, and never reads `pollfds` out of bounds or uses an object that is gone. The rules
  -- that are left own their objects.
  pub wait_next_event-Ends :
      (fuel : ℕ) (timeout_ms : ℤ) (w : World K S)
      → length w.rules < fuel
      → IsOwned w
      → Ends (λ _ w'. IsOwned w') IsOwned (wait_next_event C fuel timeout_ms w)
  unfolding wait_next_event
  wait_next_event-Ends fuel timeout_ms w enough owned =
      let start : SetUp = record { it = 0; pollfds = []; something_to_poll = false } in
      bind-Ends Ready (λ _ w'. IsOwned w') IsOwned (poll_and_serve C timeout_ms)
        (set_up C fuel start) w
        (set_up-Ends C tame fuel start w (refl, omega arith, owned) (omega arith))
        (λ st w' ready. poll_and_serve-Ends timeout_ms st w' ready)
