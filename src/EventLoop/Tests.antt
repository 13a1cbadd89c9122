-- ===== src/EventLoop/Tests.antt =====
-- One call of `wait_next_event` on a small kernel.
use network_project_cs.Common.{
  Outcome, sym, some-inj, ◌||◌, ap, List, Bool, ◌++◌, negsuc, true, ℕ, zero, suc, ◌≡◌, refl, pos,
  false, [], ◌∷◌, returns, ◌==◌, arith, map,
}
use network_project_cs.Common.Actions.{Ends}
use network_project_cs.SystemCall.{Return, system_call}
use network_project_cs.Kernel.{Kernel}
use network_project_cs.Machine.{FdWrapper}
use network_project_cs.FileDescriptor.{destroy}
use network_project_cs.EventLoop.Serving.{IsAttentive, expected_calls, expected_rules}
use network_project_cs.EventLoop.Progress.{ready_rules_served}
use network_project_cs.EventLoop.PollErrors.{poll_fails}
use network_project_cs.EventLoop.{
  store_revents, SetUp, poll_and_serve, into, Rule, World, Callbacks, Result, success, exit,
  add_rule, wait_next_event,
}
use network_project_cs.EventLoop.Ownership.{owners, IsOwned}
use network_project_cs.EventLoop.Entries.{IsTame}
use network_project_cs.EventLoop.Safety.{wait_next_event-Ends}

abbrev none_wrong : Return
none_wrong = record { value = pos 1; errno = 0 }

-- Every descriptor is always ready to be read.
abbrev ready : Kernel
ready = record {
  State = Unit {0};
  close = λ fd k. (none_wrong, k);
  read = λ fd n k. ((none_wrong, 5 ∷ []), k);
  writev = λ fd iovs k. (none_wrong, k);
  fcntl_getfl = λ fd k. (none_wrong, k);
  fcntl_setfl = λ fd flags k. (none_wrong, k);
  poll = λ fds ms k. ((none_wrong, map (λ p. 1) fds), k);
  o_nonblock = 2048;
  pollin = 1;
  pollout = 4;
  pollerr = 8;
  pollhup = 16;
  pollnval = 32;
  eintr = 4;
}

abbrev object : FdWrapper
object = record {
  fd = pos 3;
  eof = false;
  closed = false;
  read_count = 0;
  write_count = 0;
  use_count = 2;
}

abbrev only_rule : Rule
only_rule = record { fd = 0; direction = into; callback = 0; interest = 0; cancel = 0 }

-- The client counts the calls, and is interested until the first one.
abbrev world : World ready ℕ
world = record {
  machine = record { kernel = tt; wrappers = object ∷ [] };
  rules = only_rule ∷ [];
  client = 0;
}

abbrev once : Callbacks ready ℕ
once = record {
  call = λ n w. (returns tt, record w { client = suc w.client });
  ask = λ n w. (returns (w.client == 0), w);
}

once-IsTame : IsTame once
once-IsTame = record { called = λ rules n w kept. kept; asked = λ rules n w kept. kept }

world-IsOwned : IsOwned world
unfolding owners
world-IsOwned zero some_owner = (object, refl, omega arith)
world-IsOwned (suc h) some_owner = absurd (some_owner (grind arith))

ran_once : (wait_next_event once 2 (pos 100) world).0 ≡ returns success
unfolding wait_next_event add_rule system_call
ran_once = refl

counted_once : (wait_next_event once 2 (pos 100) world).1.client ≡ 1
unfolding wait_next_event system_call
counted_once = refl

uninterested : (wait_next_event once 2 (pos 100) (record world { client = 1 })).0 ≡ returns exit
unfolding wait_next_event
uninterested = refl

wait_next_event-Ends_example :
    Ends (λ _ w'. IsOwned w') IsOwned (wait_next_event once 2 (pos 100) world)
wait_next_event-Ends_example =
    wait_next_event-Ends once once-IsTame 2 (pos 100) world (omega arith) world-IsOwned

-- A kernel whose poll fails for lack of memory, and stores nothing.
abbrev failing : Kernel
failing = record ready { poll = λ fds ms k. ((record { value = negsuc 0; errno = 12 }, []), k) }

abbrev failing_world : World failing ℕ
failing_world = record {
  machine = record { kernel = tt; wrappers = object ∷ [] };
  rules = only_rule ∷ [];
  client = 0;
}

abbrev never : Callbacks failing ℕ
never = record {
  call = λ n w. (returns tt, record w { client = suc w.client });
  ask = λ n w. (returns true, w);
}

abbrev one_entry : SetUp
one_entry = record {
  it = 1;
  pollfds = record { fd = pos 3; events = 1; revents = 0 } ∷ [];
  something_to_poll = true;
}

poll_fails_example :
    poll_and_serve never (pos 100) one_entry failing_world ≡ (returns success, failing_world)
poll_fails_example =
    poll_fails never (pos 100) one_entry failing_world refl (refl, tt) (omega arith) refl
      (λ z. omega arith) refl

-- A client that notes its calls, and is interested until the first one.
is_new : List ℕ → Bool
is_new [] = true
is_new (n ∷ ns) = false

noting : Callbacks ready (List ℕ)
unfolding is_new
noting = record {
  call = λ n w. (returns tt, record w { client = w.client ++ n ∷ [] });
  ask = λ n w. (returns (is_new w.client), w);
}

not_new : (l : List ℕ) (n : ℕ) → is_new (l ++ n ∷ []) ≡ false
unfolding is_new
not_new [] n = refl
not_new (m ∷ l) n = refl

noting-IsAttentive : IsAttentive noting (λ l. l) (λ l n. is_new l)
unfolding noting
noting-IsAttentive = record {
  called = λ rules n w kept. (kept, refl);
  asked = λ rules n w kept. (refl, kept, refl, refl);
  content = λ l m n. not_new l m;
}

abbrev noting_world : World ready (List ℕ)
noting_world = record {
  machine = record { kernel = tt; wrappers = object ∷ [] };
  rules = record only_rule { callback = 7 } ∷ [];
  client = [];
}

noting_world-IsOwned : IsOwned noting_world
unfolding owners
noting_world-IsOwned zero some_owner = (object, refl, omega arith)
noting_world-IsOwned (suc h) some_owner = absurd (some_owner (grind arith))

ready_rules_served_example :
    Ends
      (λ result w'.
        (result ≡ success) × (w'.client ≡ 7 ∷ []) × (w'.rules ≡ noting_world.rules) × IsOwned w')
      (λ w'. ⊥)
      (wait_next_event noting 2 (pos 100) noting_world)
unfolding expected_calls expected_rules store_revents is_new
ready_rules_served_example =
    ready_rules_served noting (λ l. l) (λ l n. is_new l) noting-IsAttentive 2 (pos 100) noting_world
      1 (omega arith) noting_world-IsOwned
      ((λ x found. ap (λ y. y.eof || y.closed) (sym (some-inj found))), tt) refl refl
      (λ z. omega arith) (refl, tt)

-- A kernel on which every descriptor has hung up.
abbrev hanging : Kernel
hanging = record ready { poll = λ fds ms k. ((none_wrong, map (λ p. 16) fds), k) }

abbrev eager : Callbacks hanging ℕ
eager = record {
  call = λ n w. (returns tt, record w { client = suc w.client });
  ask = λ n w. (returns true, w);
}

abbrev hung_up : Outcome Result × World hanging ℕ
hung_up = wait_next_event eager 2 (pos 100) (record {
  machine = record { kernel = tt; wrappers = object ∷ [] };
  rules = only_rule ∷ [];
  client = 0;
})

success_without_rules : (hung_up.0 ≡ returns success) × (hung_up.1.rules ≡ [])
unfolding wait_next_event system_call destroy
success_without_rules = (refl, refl)
