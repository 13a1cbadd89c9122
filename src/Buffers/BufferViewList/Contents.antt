-- ===== src/Buffers/BufferViewList/Contents.antt =====
-- What the operations of a BufferViewList do to the bytes that it shows.
use network_project_cs.Common.{
  ℕ, zero, suc, ◌+◌, ◌-◌, ◌%◌, ◌≤◌, ◌<◌, ◌≡◌, refl, sym, ap, ◌∙◌, ◌⊎◌, inl, inr, List, [], ◌∷◌,
  ◌++◌, map, Bytes, Result, ok, throw, out_of_range, arith, length, take, drop, ltb-cases, size_mod,
  size_add, size_sub_exact, length-append, append_assoc, append-nil, drop-append_left,
  drop-append_right, take_all,
}
use network_project_cs.Buffers.Buffer
use network_project_cs.Buffers.Buffer.{Buffer}
use network_project_cs.Buffers.BufferList.{BufferList}
use network_project_cs.Buffers.BufferList
use network_project_cs.Buffers.BufferList.Contents as Lists
use network_project_cs.Buffers.BufferViewList.{
  BufferViewList, of_buffer_list, push_views, remove_loop, remove_prefix, add_sizes, size, Iovec,
  push_iovecs, as_iovecs,
}

-- The bytes of the views, in order.
unfoldable pub flat : List Bytes → Bytes
flat [] = []
flat (v ∷ vs) = v ++ flat vs

abbrev pub contents : BufferViewList → Bytes
contents l = flat l.views

push_views-map : (vs : List Bytes) (bs : List Buffer) → push_views vs bs ≡ vs ++ map Buffer.str bs
unfolding push_views
push_views-map vs [] = sym (append-nil vs)
push_views-map vs (b ∷ bs) =
    push_views-map (vs ++ Buffer.str b ∷ []) bs
    ∙ append_assoc vs (Buffer.str b ∷ []) (map Buffer.str bs)

flat-map : (bs : List Buffer) → flat (map Buffer.str bs) ≡ Lists.contents bs
unfolding flat Lists.contents
flat-map [] = refl
flat-map (b ∷ bs) = ap (◌++◌ (Buffer.str b)) (flat-map bs)

-- The views of a list of buffers show its bytes.
contents-of_buffer_list : (l : BufferList) → contents (of_buffer_list l) ≡ BufferList.concatenate l
unfolding of_buffer_list
contents-of_buffer_list l =
    ap flat (push_views-map [] l.buffers) ∙ flat-map l.buffers ∙ sym (Lists.concatenate-contents l)

add_sizes-flat :
    (ret : ℕ) (vs : List Bytes)
    → ret < size_mod
    → add_sizes ret vs ≡ (ret + length (flat vs)) % size_mod
unfolding add_sizes flat size_add
add_sizes-flat ret [] h = omega arith
add_sizes-flat ret (v ∷ vs) h =
    omega
      (arith, add_sizes-flat (size_add ret (length v)) vs (omega arith), length-append v (flat vs))

pub size-contents : (l : BufferViewList) → size l ≡ length (contents l) % size_mod
unfolding size
size-contents l = omega (arith, add_sizes-flat 0 l.views)

module _ (v : Bytes) (vs : List Bytes) (n : ℕ) (pos : 0 < n) where
  remove_loop-front : n < length v → remove_loop (v ∷ vs) n ≡ (ok tt, drop n v ∷ vs)
  unfolding remove_loop
  remove_loop-front h = ground arith

  remove_loop-pop :
      n < size_mod → length v ≤ n → remove_loop (v ∷ vs) n ≡ remove_loop vs (n - length v)
  unfolding remove_loop
  remove_loop-pop small h = ground (arith, size_sub_exact n (length v))

abbrev Drops : List Bytes → ℕ → Result (Unit {0}) × List Bytes → Type 0
Drops vs n r = (r.0 ≡ ok tt) × (flat r.1 ≡ drop n (flat vs))

remove_loop-Drops :
    (vs : List Bytes) (n : ℕ) → n < size_mod → n ≤ length (flat vs) → Drops vs n (remove_loop vs n)
unfolding flat remove_loop
remove_loop-Drops [] zero small h = (refl, refl)
remove_loop-Drops (v ∷ vs) zero small h = (refl, refl)
remove_loop-Drops [] (suc n) small h = absurd (omega arith)
remove_loop-Drops (v ∷ vs) (suc n) small h = elim (ltb-cases (suc n) (length v)) [
  | inl (lt, e) ↦
      rw
        (
          remove_loop-front v vs (suc n) (omega arith) lt,
          drop-append_left (suc n) v (flat vs) (omega arith),
        )
        (refl, refl)
  | inr (le, e) ↦
      rw
        (
          remove_loop-pop v vs (suc n) (omega arith) small le,
          drop-append_right (suc n) v (flat vs) le,
        )
        (remove_loop-Drops vs (suc n - length v) (omega arith)
          (omega (arith, length-append v (flat vs))))
]

remove_loop-throws :
    (vs : List Bytes) (n : ℕ)
    → n < size_mod
    → length (flat vs) < n
    → remove_loop vs n ≡ (throw (out_of_range "BufferListView::remove_prefix"), [])
unfolding remove_loop flat
remove_loop-throws [] n small h = ground arith
remove_loop-throws (v ∷ vs) n small h = ground (
  arith,
  length-append v (flat vs),
  size_sub_exact n (length v),
  remove_loop-throws vs (n - length v),
)

-- The two outcomes of `remove_prefix`.
abbrev pub RemovePrefixCases : BufferViewList → ℕ → Type 0
RemovePrefixCases l n =
    (let (outcome, l') = remove_prefix l n in
      ((n ≤ length (contents l)) × (outcome ≡ ok tt) × (contents l' ≡ drop n (contents l)))
      ⊎ ((length (contents l) < n)
          × (outcome ≡ throw (out_of_range "BufferListView::remove_prefix"))
          × (l'.views ≡ [])))

-- `remove_prefix(n)` on every branch: `n` bytes are dropped from the front, or, where the views
-- show fewer, all views are dropped and the call throws.
pub remove_prefix_over_views : (l : BufferViewList) (n : ℕ) → n < size_mod → RemovePrefixCases l n
unfolding remove_prefix
remove_prefix_over_views l n small = elim (ltb-cases (length (contents l)) n) [
  | inl (lt, e) ↦
      let r = remove_loop-throws l.views n small lt in inr (lt, ap (λ p. p.0) r, ap (λ p. p.1) r)
  | inr (le, e) ↦
      let (done, dropped) = remove_loop-Drops l.views n small le in inl (le, done, dropped)
]

-- What `writev` reads through the vectors.
unfoldable pub gather : List Iovec → Bytes
gather [] = []
gather (v ∷ vs) = take v.iov_len v.iov_base ++ gather vs

gather-append : (xs ys : List Iovec) → gather (xs ++ ys) ≡ gather xs ++ gather ys
unfolding gather
gather-append [] ys = refl
gather-append (x ∷ xs) ys =
    ap (◌++◌ (take x.iov_len x.iov_base)) (gather-append xs ys)
    ∙ sym (append_assoc (take x.iov_len x.iov_base) (gather xs) (gather ys))

gather-push_iovecs :
    (ret : List Iovec) (vs : List Bytes) → gather (push_iovecs ret vs) ≡ gather ret ++ flat vs
unfolding push_iovecs flat gather
gather-push_iovecs ret [] = sym (append-nil (gather ret))
gather-push_iovecs ret (v ∷ vs) =
    gather-push_iovecs (ret ++ iovec v ∷ []) vs
    ∙ ap (λ g. g ++ flat vs) (gather-append ret (iovec v ∷ []) ∙ ap (◌++◌ (gather ret)) (one v))
    ∙ append_assoc (gather ret) v (flat vs)
  where
    iovec : Bytes → Iovec
    iovec w = record { iov_base = w; iov_len = length w }

    one : (w : Bytes) → gather (iovec w ∷ []) ≡ w
    one w = append-nil (take (length w) w) ∙ take_all (length w) w (omega arith)

-- The vectors cover exactly the bytes of the views, in order.
pub gather-as_iovecs : (l : BufferViewList) → gather (as_iovecs l) ≡ contents l
unfolding as_iovecs gather
gather-as_iovecs l = gather-push_iovecs [] l.views
