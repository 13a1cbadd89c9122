-- ===== src/StreamReassembler/Tests.antt =====
-- What the placeholders answer.
use network_project_cs.Common.{◌≡◌, refl, true, [], ◌∷◌}
use network_project_cs.ByteStream
use network_project_cs.StreamReassembler.{create, push_substring}

nothing_assembled :
    (ByteStream.read (push_substring (create 8) (1 ∷ 2 ∷ []) 0 true).output 2).0 ≡ []
unfolding ByteStream.read
nothing_assembled = refl

capacity_kept : (push_substring (create 8) (1 ∷ 2 ∷ []) 0 true).capacity ≡ 8
unfolding push_substring create
capacity_kept = refl
