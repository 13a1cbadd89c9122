-- ===== src/EventLoop/Serving.antt =====
-- Which callbacks the second loop of `wait_next_event` calls: an independent description, and that
-- the loop does it.
use network_project_cs.Common.{
  ℤ, pos, none, ◌||◌, ℕ, zero, suc, ◌≡◌, refl, ap, Bool, false, not, ◌&&◌, List, [], ◌∷◌, ◌++◌,
  some, get_elem?, take, drop, if◌then◌else◌, some-inj,
}
use Prim.Native.Nat.{bit_and, bit_or}
use network_project_cs.Common.Actions.{Ends}
use network_project_cs.Kernel.{Kernel, Pollfd}
use network_project_cs.Machine.{FdWrapper}
use network_project_cs.EventLoop.{Rule, World, Callbacks, is_set, erase, events_of, is_into}
use network_project_cs.EventLoop.Entries.{Kept}

-- What poll has stored in a rule's entry.
module _ (K : Kernel) where
  abbrev pub is_error : Pollfd → Bool
  is_error p = is_set (bit_and p.revents (bit_or K.pollerr K.pollnval))

  abbrev pub is_ready : Pollfd → Bool
  is_ready p = is_set (bit_and p.revents p.events)

  -- The only condition of an entry that asks for one is a hangup.
  abbrev pub is_defunct : Pollfd → Bool
  is_defunct p = is_set (bit_and p.revents K.pollhup) && is_set p.events && not (is_ready p)

  -- The functions that are to be called for a rule, and whether it stays.
  abbrev pub calls_for : Rule → Pollfd → List ℕ
  calls_for rule p =
      if is_defunct p then rule.cancel ∷ [] else if is_ready p then rule.callback ∷ [] else []

  abbrev pub rule_left : Rule → Pollfd → List Rule
  rule_left rule p = if is_defunct p then [] else rule ∷ []

  -- For all rules, each with its entry, in order.
  unfoldable pub expected_calls : List Rule → List Pollfd → List ℕ
  expected_calls [] ps = []
  expected_calls (rule ∷ rules) [] = []
  expected_calls (rule ∷ rules) (p ∷ ps) = calls_for rule p ++ expected_calls rules ps

  unfoldable pub expected_rules : List Rule → List Pollfd → List Rule
  expected_rules [] ps = []
  expected_rules (rule ∷ rules) [] = rule ∷ rules
  expected_rules (rule ∷ rules) (p ∷ ps) = rule_left rule p ++ expected_rules rules ps

-- What `wait_next_event` hands to poll: for each rule an entry with the number of its descriptor,
-- and with the events of its direction if it is interested.
module _ (K : Kernel) (wanted : ℕ → Bool) (ws : List FdWrapper) where
  abbrev pub fd_of : Rule → ℤ
  fd_of rule = elim (get_elem? ws rule.fd) [ none ↦ pos 0 | some x ↦ x.fd ]

  abbrev pub expected_entry : Rule → Pollfd
  expected_entry rule = record {
    fd = fd_of rule;
    events = if wanted rule.interest then events_of K rule.direction else 0;
    revents = 0;
  }

  abbrev pub expected_entries : List Rule → List Pollfd
  expected_entries [] = []
  expected_entries (rule ∷ rules) = expected_entry rule ∷ expected_entries rules

  abbrev pub any_wanted : List Rule → Bool
  any_wanted [] = false
  any_wanted (rule ∷ rules) = wanted rule.interest || any_wanted rules

-- The rule's descriptor is not closed, and not at its end of file if the rule is there to read.
abbrev pub IsLasting : List FdWrapper → Rule → Type 0
IsLasting ws rule =
    (x : FdWrapper)
    → get_elem? ws rule.fd ≡ some x
    → (is_into rule.direction && x.eof || x.closed) ≡ false

-- A client whose functions return. `log` is the calls that its state notes, and `wants` says from
-- them which rules are interested. A callback leaves the rules alone, and once any has been called
-- no rule is interested until the next call of `wait_next_event`; an `interest` function leaves the
-- machine alone too.
pub record IsAttentive {K : Kernel} {S : Type 0} (C : Callbacks K S) (log : S → List ℕ)
    (wants : List ℕ → ℕ → Bool) : Type 0 where
  pub called :
      (rules : List Rule) (n : ℕ) (w : World K S)
      → Kept rules tt w
      → Ends
          (λ _ w'. Kept rules tt w' × (log w'.client ≡ log w.client ++ n ∷ []))
          (λ _. ⊥)
          (C.call n w)
  pub asked :
      (rules : List Rule) (n : ℕ) (w : World K S)
      → Kept rules tt w
      → Ends
          (λ interested w'.
            (interested ≡ wants (log w.client) n)
            × Kept rules tt w'
            × (log w'.client ≡ log w.client)
            × (w'.machine ≡ w.machine))
          (λ _. ⊥)
          (C.ask n w)
  pub content : (l : List ℕ) (m n : ℕ) → wants (l ++ m ∷ []) n ≡ false

pub drop-erase : (rules : List Rule) (i : ℕ) → drop i (erase rules i) ≡ drop (suc i) rules
unfolding erase
drop-erase [] zero = refl
drop-erase [] (suc i) = refl
drop-erase (r ∷ rules) zero = refl
drop-erase (r ∷ rules) (suc i) = drop-erase rules i

pub take-erase : (rules : List Rule) (i : ℕ) → take i (erase rules i) ≡ take i rules
unfolding erase
take-erase [] zero = refl
take-erase [] (suc i) = refl
take-erase (r ∷ rules) zero = refl
take-erase (r ∷ rules) (suc i) = ap (◌∷◌ r) (take-erase rules i)

pub drop-cons :
    (rules : List Rule) (i : ℕ) {r : Rule}
    → get_elem? rules i ≡ some r
    → drop i rules ≡ r ∷ drop (suc i) rules
drop-cons [] i here = absurd cc
drop-cons (r ∷ rules) zero here = ap (λ x. x ∷ rules) (some-inj here)
drop-cons (r ∷ rules) (suc i) here = drop-cons rules i here

pub take-suc :
    (rules : List Rule) (i : ℕ) {r : Rule}
    → get_elem? rules i ≡ some r
    → take (suc i) rules ≡ take i rules ++ r ∷ []
take-suc [] i here = absurd cc
take-suc (r ∷ rules) zero here = ap (λ x. x ∷ []) (some-inj here)
take-suc (r ∷ rules) (suc i) here = ap (◌∷◌ r) (take-suc rules i here)
