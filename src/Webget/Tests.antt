-- ===== src/Webget/Tests.antt =====
-- Runs of webget.
use network_project_cs.Common.{refl, List, String, ◌≡◌, [], ◌∷◌}
use network_project_cs.Webget.{main, exit_success}

abbrev argv : List String
argv = "webget" ∷ "cs144.keithw.org" ∷ "/hello" ∷ []

succeeded : (main argv).0 ≡ exit_success
unfolding main
succeeded = refl
