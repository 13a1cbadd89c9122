-- ===== src/ByteStream/Tests.antt =====
-- What the placeholders answer.
use network_project_cs.Common.{◌≡◌, refl, true, false, [], ◌∷◌}
use network_project_cs.ByteStream.{
  create, write, set_error, read, buffer_size, buffer_empty, end_input, input_ended,
}

nothing_accepted : (write (create 8) (1 ∷ 2 ∷ [])).0 ≡ 0
unfolding write
nothing_accepted = refl

nothing_read : (read (write (create 8) (1 ∷ [])).1 1).0 ≡ []
unfolding read
nothing_read = refl

-- With nothing in it the buffer is not empty.
not_empty : (buffer_size (create 8) ≡ 0) × (buffer_empty (create 8) ≡ false)
unfolding buffer_size buffer_empty
not_empty = (refl, refl)

not_ended : input_ended (end_input (create 8)) ≡ false
unfolding input_ended
not_ended = refl

error_kept : (read (set_error (create 8)) 1).1.error ≡ true
unfolding read set_error
error_kept = refl
