-- ===== src/EventLoop.antt =====
-- libsponge/util/eventloop.hh and eventloop.cc. Callbacks are names; what the functions behind them
-- do to the world is the client's.
pub mod Ownership
pub mod Entries
pub mod Safety
pub mod PollErrors
pub mod Serving
pub mod Attentive
pub mod Entering
pub mod Progress
mod Tests
use Prim.Native.Nat.{bit_and, bit_or}
use network_project_cs.Common.{
  throws, unix_error, negsuc, pos, runtime_error, diverges, ◌||◌, ◌+◌, ℤ, ◌&&◌, ℕ, zero, suc, Bool,
  true, false, not, List, [], ◌∷◌, ◌++◌, Option, none, some, Outcome, returns, fault, get_elem?,
  ◌==◌, if◌then◌else◌,
}
use network_project_cs.Common.{Result as Attempt, ok, throw}
use network_project_cs.Common.Actions.{raise, lift, Action, ◌>>=◌, ◌>>◌, pure}
use network_project_cs.SystemCall.{system_call}
use network_project_cs.Kernel.{Kernel, Pollfd}
use network_project_cs.Machine.{FdWrapper, Machine, M, wrapper, call}
use network_project_cs.FileDescriptor.{duplicate, destroy}

pub data Direction : Type 0 where
  into out : Direction

-- A rule's `fd` is a handle of its own; `callback`, `interest` and `cancel` name functions.
pub record Rule : Type 0 where
  pub fd : ℕ
  pub direction : Direction
  pub callback : ℕ
  pub interest : ℕ
  pub cancel : ℕ

pub data Result : Type 0 where
  success timeout exit : Result

-- The machine, the event loop's rules, and all other objects that callbacks refer to.
pub record World (K : Kernel) (S : Type 0) : Type 0 where
  pub machine : Machine K
  pub rules : List Rule
  pub client : S

-- The functions behind the names.
pub record Callbacks (K : Kernel) (S : Type 0) : Type 0 where
  pub call : ℕ → Action (World K S) (Unit {0})
  pub ask : ℕ → Action (World K S) Bool

-- The list without its element at a place; `list::erase`.
pub erase : List Rule → ℕ → List Rule
erase [] i = []
erase (r ∷ rs) zero = rs
erase (r ∷ rs) (suc i) = r ∷ erase rs i

-- `revents` are stored by the kernel over those that are there.
pub store_revents : List Pollfd → List ℕ → List Pollfd
store_revents [] rs = []
store_revents (p ∷ ps) [] = p ∷ ps
store_revents (p ∷ ps) (r ∷ rs) = record p { revents = r } ∷ store_revents ps rs

-- A flag word as a truth value.
abbrev pub is_set : ℕ → Bool
is_set flags = not (flags == 0)

-- An element of a vector, whose index is not tested.
abbrev element : Option Pollfd → Outcome Pollfd
element none = fault
element (some p) = returns p

-- `static_cast<short>(direction)`
abbrev events_of : Kernel → Direction → ℕ
events_of K into = K.pollin
events_of K out = K.pollout

abbrev is_into : Direction → Bool
is_into into = true
is_into out = false

-- In `list<Rule>` an iterator is a place. What the first loop of `wait_next_event` works on.
pub record SetUp : Type 0 where
  pub it : ℕ
  pub pollfds : List Pollfd
  pub something_to_poll : Bool

module _ {K : Kernel} {S : Type 0} where
  -- What a method of FileDescriptor does to the world.
  abbrev on_machine : {A : Type 0} → M K A → Action (World K S) A
  on_machine f w = let (r, m) = f w.machine in (r, record w { machine = m })

  abbrev object_of : Rule → Action (World K S) FdWrapper
  object_of rule = on_machine (wrapper rule.fd)

  unfoldable pub service_count : Rule → Action (World K S) ℕ
  service_count rule = do
    x ← object_of rule
    pure (if is_into rule.direction then x.read_count else x.write_count)

  unfoldable pub add_rule : ℕ → Direction → ℕ → ℕ → ℕ → Action (World K S) (Unit {0})
  add_rule fd direction callback interest cancel = do
    h ← on_machine (duplicate fd)
    λ w. (
      returns tt,
      record w {
        rules =
            w.rules
            ++ record {
              fd = h;
              direction = direction;
              callback = callback;
              interest = interest;
              cancel = cancel;
            }
              ∷ [];
      },
    )

  -- `*it`, if `it` is not the end.
  abbrev rule_at : ℕ → Action (World K S) (Option Rule)
  rule_at it w = (returns (get_elem? w.rules it), w)

  module _ (C : Callbacks K S) where
    -- `_rules.erase(it)`, with the rule's own FileDescriptor destroyed.
    erase_rule : Rule → ℕ → Action (World K S) (Unit {0})
    unfolding erase
    erase_rule rule it = do
      λ w. (returns tt, record w { rules = erase w.rules it })
      on_machine (destroy rule.fd)

    -- `this_rule.cancel(); it = _rules.erase(it);`
    pub cancel_rule : Rule → ℕ → Action (World K S) (Unit {0})
    unfolding erase_rule
    cancel_rule rule it = do C.call rule.cancel; erase_rule rule it

    -- The entry for a rule: its events, or a placeholder.
    push_pollfd : Rule → SetUp → Bool → Action (World K S) SetUp
    push_pollfd rule st interested = do
      x ← object_of rule
      let entry : Pollfd = record {
        fd = x.fd;
        events = if interested then events_of K rule.direction else 0;
        revents = 0;
      }
      pure (record {
        it = st.it + 1;
        pollfds = st.pollfds ++ entry ∷ [];
        something_to_poll = st.something_to_poll || interested;
      })

    set_up_rule : Rule → SetUp → Action (World K S) SetUp
    unfolding push_pollfd
    set_up_rule rule st = do interested ← C.ask rule.interest; push_pollfd rule st interested

    -- One round of the first loop; a rule at its end of file or closed is canceled.
    set_up_round : Rule → SetUp → Action (World K S) SetUp
    unfolding cancel_rule set_up_rule
    set_up_round rule st = do
      x ← object_of rule
      if is_into rule.direction && x.eof || x.closed
          then (do cancel_rule rule st.it; pure st)
          else set_up_rule rule st

    -- The first loop. Its length is bounded by the rules there are, unless callbacks add rules.
    pub set_up : ℕ → SetUp → Action (World K S) SetUp
    unfolding set_up_round
    set_up zero st = lift diverges
    set_up (suc fuel) st = do
      here ← rule_at st.it
      elim here [ none ↦ pure st | some rule ↦ (do st' ← set_up_round rule st; set_up fuel st') ]

    -- What the `try` block makes of poll's answer: a result to return, or none.
    poll_decision : Attempt ℤ → Outcome (Option Result)
    poll_decision (ok (pos n)) = returns (if n == 0 then some timeout else none)
    poll_decision (ok (negsuc n)) = returns none
    poll_decision (throw (unix_error attempt errno)) =
        returns (if errno == K.eintr then some exit else none)
    poll_decision (throw e) = throws e

    pub call_poll : List Pollfd → ℤ → Action (World K S) (Option Result × List Pollfd)
    unfolding poll_decision store_revents
    call_poll pollfds timeout_ms = do
      (r, stored) ← on_machine (call (K.poll pollfds timeout_ms))
      decision ← lift (poll_decision (system_call "poll" r.value r.errno 0))
      pure (decision, store_revents pollfds stored)

    reject_busy : Bool → Action (World K S) (Unit {0})
    reject_busy interested =
        if interested
        then raise (
            runtime_error
              "EventLoop: busy wait detected: callback did not read/write fd and is still interested")
        else pure tt

    -- The test for a busy wait, after the callback.
    check_busy : Rule → ℕ → Action (World K S) (Unit {0})
    unfolding service_count reject_busy
    check_busy rule count_before = do
      count_after ← service_count rule
      if count_before == count_after
          then (do interested ← C.ask rule.interest; reject_busy interested)
          else pure tt

    -- The callback of a ready rule.
    serve_ready : Rule → Action (World K S) (Unit {0})
    unfolding service_count check_busy
    serve_ready rule = do
      count_before ← service_count rule
      C.call rule.callback
      check_busy rule count_before

    -- One round of the second loop: the place of the next rule.
    pub serve_round : Rule → ℕ → Pollfd → Action (World K S) ℕ
    unfolding serve_ready cancel_rule
    serve_round rule it p = do
      if is_set (bit_and p.revents (bit_or K.pollerr K.pollnval))
          then raise (runtime_error "EventLoop: error on polled file descriptor")
          else pure tt
      let poll_ready = is_set (bit_and p.revents p.events)
      let poll_hup = is_set (bit_and p.revents K.pollhup)
      if poll_hup && is_set p.events && not poll_ready
          then (do cancel_rule rule it; pure it)
          else (do if poll_ready then serve_ready rule else pure tt; pure (it + 1))

    -- The second loop, on the entries of `pollfds` from `idx` on.
    pub serve : ℕ → List Pollfd → Action (World K S) Result
    unfolding serve_round
    serve it [] = do here ← rule_at it; elim here [ none ↦ pure success | some rule ↦ lift fault ]
    serve it (p ∷ ps) = do
      here ← rule_at it
      elim here [ none ↦ pure success | some rule ↦ (do it' ← serve_round rule it p; serve it' ps) ]

    -- After the call of poll.
    after_poll : Option Result × List Pollfd → Action (World K S) Result
    unfolding serve
    after_poll (some result, polled) = pure result
    after_poll (none, polled) = serve 0 polled

    -- After the first loop.
    pub poll_and_serve : ℤ → SetUp → Action (World K S) Result
    unfolding call_poll after_poll
    poll_and_serve timeout_ms st =
        if not st.something_to_poll
        then pure exit
        else (do polled ← call_poll st.pollfds timeout_ms; after_poll polled)

    unfoldable pub wait_next_event : ℕ → ℤ → Action (World K S) Result
    unfolding set_up poll_and_serve
    wait_next_event fuel timeout_ms = do
      st ← set_up fuel (record { it = 0; pollfds = []; something_to_poll = false })
      poll_and_serve timeout_ms st
