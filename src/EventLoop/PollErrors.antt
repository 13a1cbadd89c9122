-- ===== src/EventLoop/PollErrors.antt =====
-- What `wait_next_event` does when poll fails.
use Prim.Native.Nat.{bit_and-bitwise, bit_and, bit_or}
use network_project_cs.Common.{
  Bool-cases, inl, inr, ltb, get_elem?_total, get_elem?_beyond, none, All, ◌≤◌, length, List, [],
  ◌∷◌, ℤ, negsuc, ◌≢◌, true, if◌then◌else◌, ◌==◌, arith, ℕ, ◌+◌, ◌≤◌, ◌≡◌, ◌≢◌, refl, ℤ, negsuc,
  true, none, List, [], ◌∷◌, All, get_elem?, length, returns, if◌then◌else◌, ◌==◌, arith,
}
use network_project_cs.SystemCall.{refused}
use network_project_cs.Kernel.{Kernel, Pollfd}
use network_project_cs.SystemCall.{refused}
use network_project_cs.EventLoop.{
  success, exit, SetUp, store_revents, serve, after_poll, call_poll, poll_and_serve, poll_decision,
  Rule, success, exit, World, Callbacks, SetUp, store_revents, serve, serve_round, after_poll,
  call_poll, poll_and_serve, poll_decision,
}

no_bits : (flags : ℕ) → bit_and 0 flags ≡ 0
no_bits flags = simp bit_and-bitwise refl

module _ {K : Kernel} {S : Type 0} (C : Callbacks K S) where
  serve_round-quiet :
      (rule : Rule) (it : ℕ) (p : Pollfd) (w : World K S)
      → p.revents ≡ 0
      → serve_round C rule it p w ≡ (returns (it + 1), w)
  unfolding serve_round
  serve_round-quiet rule it p w quiet =
      rw (quiet, no_bits (bit_or K.pollerr K.pollnval), no_bits p.events, no_bits K.pollhup) refl

  -- With nothing in any entry, the second loop calls nothing.
  serve-quiet :
      (it : ℕ) (ps : List Pollfd) (w : World K S)
      → All (λ p. p.revents ≡ 0) ps
      → length w.rules ≤ it + length ps
      → serve C it ps w ≡ (returns success, w)
  unfolding serve
  serve-quiet it [] w quiet enough =
      let at_end : get_elem? w.rules it ≡ none = get_elem?_beyond w.rules it (omega arith) in
      rw at_end refl
  serve-quiet it (p ∷ ps) w (quiet, others) enough = elim (Bool-cases (ltb it (length w.rules))) [
    | inl more ↦
        let (rule, found) = get_elem?_total w.rules it (ground arith) in
        rw (found, serve_round-quiet rule it p w quiet)
          (serve-quiet (it + 1) ps w others (omega arith))
    | inr over ↦
        let at_end : get_elem? w.rules it ≡ none = get_elem?_beyond w.rules it (ground arith) in
        rw at_end refl
  ]

  store_revents-nil : (ps : List Pollfd) → store_revents ps [] ≡ ps
  unfolding store_revents
  store_revents-nil [] = refl
  store_revents-nil (p ∷ ps) = refl

  -- When poll fails with an `errno` and stores nothing, no callback is called and no rule is
  -- cancelled, and nothing is thrown: the result is `Exit` if a signal was caught, and `Success`
  -- for any other error. The entries are those of the first loop, one for each rule.
  pub poll_fails :
      (timeout_ms : ℤ) (st : SetUp) (w : World K S)
      → st.something_to_poll ≡ true
      → All (λ p. p.revents ≡ 0) st.pollfds
      → length w.rules ≤ length st.pollfds
      → (K.poll st.pollfds timeout_ms w.machine.kernel).0.0.value ≡ negsuc 0
      → (K.poll st.pollfds timeout_ms w.machine.kernel).0.0.errno ≢ 0
      → (K.poll st.pollfds timeout_ms w.machine.kernel).0.1 ≡ []
      → poll_and_serve C timeout_ms st w ≡ (
        returns (
            if (K.poll st.pollfds timeout_ms w.machine.kernel).0.0.errno == K.eintr
            then exit
            else success),
        record w {
          machine = record w.machine { kernel = (K.poll st.pollfds timeout_ms w.machine.kernel).1 };
        },
      )
  unfolding poll_and_serve call_poll poll_decision after_poll
  poll_fails timeout_ms st w some_polled quiet enough value failed stored =
      let answer = K.poll st.pollfds timeout_ms w.machine.kernel in
      elim (Bool-cases (answer.0.0.errno == K.eintr)) [
        | inl signal ↦ rw (some_polled, value, refused "poll" answer.0.0.errno failed, signal) refl
        | inr other ↦
            rw
              (
                some_polled,
                value,
                refused "poll" answer.0.0.errno failed,
                other,
                stored,
                store_revents-nil st.pollfds,
              )
              (serve-quiet 0 st.pollfds _ quiet (omega arith))
      ]
