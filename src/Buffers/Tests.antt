-- ===== src/Buffers/Tests.antt =====
-- The buffers on small inputs.
use network_project_cs.Common.{size_add, size_sub, ◌≡◌, refl, [], ◌∷◌, none, arith}
use network_project_cs.Buffers.Buffer
use network_project_cs.Buffers.Buffer.{Buffer}
use network_project_cs.Buffers.Buffer.Contents as BufferContents
use network_project_cs.Buffers.BufferList
use network_project_cs.Buffers.BufferList.{BufferList}
use network_project_cs.Buffers.BufferList.Contents as ListContents
use network_project_cs.Buffers.BufferViewList
use network_project_cs.Buffers.BufferViewList.{BufferViewList}
use network_project_cs.Buffers.BufferViewList.Contents as ViewContents

abbrev word : Buffer
word = record { storage = none; starting_offset = 0 }

abbrev three : Buffer
three = Buffer.of_string (1 ∷ 2 ∷ 3 ∷ [])

abbrev two : Buffer
two = Buffer.of_string (4 ∷ 5 ∷ [])

abbrev both : BufferList
both = record { buffers = three ∷ two ∷ [] }

abbrev views : BufferViewList
views = record { views = (1 ∷ 2 ∷ 3 ∷ []) ∷ (4 ∷ 5 ∷ []) ∷ [] }

dropped_two : Buffer.str (Buffer.remove_prefix three 2).1 ≡ 3 ∷ []
unfolding Buffer.remove_prefix Buffer.str Buffer.size Buffer.of_string size_sub size_add
dropped_two = refl

dropped_all : (Buffer.remove_prefix three 3).1.storage ≡ none
unfolding Buffer.remove_prefix Buffer.str Buffer.size Buffer.of_string size_sub size_add
dropped_all = refl

dropped_four : BufferList.concatenate (BufferList.remove_prefix both 4).1 ≡ 5 ∷ []
unfolding BufferList.remove_prefix BufferList.concatenate Buffer.remove_prefix Buffer.str
    Buffer.size Buffer.of_string size_sub size_add
dropped_four = refl

up_to_nul : BufferViewList.of_c_string (7 ∷ 8 ∷ 0 ∷ 9 ∷ []) ≡ BufferViewList.of_view (7 ∷ 8 ∷ [])
unfolding BufferViewList.of_c_string
up_to_nul = refl

three-IsValid : Buffer.IsValid three
three-IsValid = BufferContents.of_string-IsValid (1 ∷ 2 ∷ 3 ∷ []) (omega arith)

both-IsValid : ListContents.IsValid both
both-IsValid = (three-IsValid, (BufferContents.of_string-IsValid (4 ∷ 5 ∷ []) (omega arith), tt))

remove_prefix_releases_example : BufferContents.RemovePrefixCases three 2
remove_prefix_releases_example = BufferContents.remove_prefix_releases three 2 three-IsValid

remove_prefix_over_buffers_example : ListContents.RemovePrefixCases both 4
remove_prefix_over_buffers_example =
    ListContents.remove_prefix_over_buffers both 4 both-IsValid (omega arith)

to_buffer_cases_example : ListContents.ToBufferCases both
to_buffer_cases_example = ListContents.to_buffer_cases both

remove_prefix_over_views_example : ViewContents.RemovePrefixCases views 6
remove_prefix_over_views_example = ViewContents.remove_prefix_over_views views 6 (omega arith)
