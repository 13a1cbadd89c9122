-- ===== src/Parser/NetParser/Parsing.antt =====
-- What NetParser reads, on every branch, on a valid buffer.
use network_project_cs.Common.{
  ltb-cases, if◌then◌else◌, ℕ, zero, suc, ◌+◌, ◌*◌, ◌%◌, ◌^◌, ◌≤◌, ◌<◌, ◌≡◌, ◌≢◌, refl, sym, ap,
  ◌∙◌, ◌⊎◌, inl, inr, [], ◌∷◌, Bytes, IsBytes, ok, some, arith, length, take, drop, get_elem?, ltb,
  le→not_ltb, get_elem?-drop, drop-drop, All-drop,
}
use native.Mathlib.Nat.{pow-le-pow_right, mod-eq_of_lt}
use network_project_cs.Buffers.Buffer
use network_project_cs.Buffers.Buffer.{Buffer}
use network_project_cs.Buffers.Buffer.Contents
use network_project_cs.Parser.BigEndian.{continued, value, two_pow, pow_step}
use network_project_cs.Parser.ParseResult.{no_error, packet_too_short}
use network_project_cs.Parser.NetParser.{
  ParseResult, NetParser, is_error, set_error, check_size, digits_loop, discard, parse_checked,
  remove_checked, remove_prefix, parse_int,
}

-- The byte at the head of what is left from index `i` on.
at_head :
    (b : Buffer) (i c : ℕ) (cs : Bytes)
    → c < 256
    → drop i (Buffer.str b) ≡ c ∷ cs
    → Buffer.at b i ≡ ok c
unfolding Buffer.at
at_head b i c cs small e = rw found (ap ok (omega arith))
  where
    found : get_elem? (Buffer.str b) i ≡ some c
    found =
        ap (get_elem? (Buffer.str b)) (omega arith)
        ∙ sym (get_elem?-drop i 0 (Buffer.str b))
        ∙ ap (λ xs. get_elem? xs 0) e

drop_next :
    (b : Buffer) (i c : ℕ) (cs : Bytes)
    → drop i (Buffer.str b) ≡ c ∷ cs
    → drop (i + 1) (Buffer.str b) ≡ cs
drop_next b i c cs e = sym (drop-drop i 1 (Buffer.str b)) ∙ ap (drop 1) e

-- Within the type's width neither the shift nor the sum wraps.
no_wrap :
    (len i ret c : ℕ)
    → i < len
    → ret < 256 ^ i
    → c < 256
    → ((ret * 2 ^ 8 % 2 ^ (8 * len) + c) % 2 ^ (8 * len) ≡ ret * 256 + c)
      × (ret * 256 + c < 256 ^ (i + 1))
no_wrap len i ret c h r small = rw (two_pow len) (
  ap (λ (t : ℕ). (t + c) % 256 ^ len) (mod-eq_of_lt (omega (arith, bound, room)))
      ∙ mod-eq_of_lt (omega (arith, bound, room)),
  bound,
)
  where
    bound : ret * 256 + c < 256 ^ (i + 1)
    bound = let e : i + 1 ≡ suc i = omega arith in rw (e, pow_step i) (omega arith)

    room : 256 ^ (i + 1) ≤ 256 ^ len
    room = pow-le-pow_right (omega arith) (omega arith)

digits_loop-continued :
    (cs : Bytes) (len : ℕ) (b : Buffer) (left i ret : ℕ)
    → drop i (Buffer.str b) ≡ cs
    → IsBytes cs
    → left ≤ length cs
    → i + left ≡ len
    → ret < 256 ^ i
    → digits_loop len b left i ret ≡ ok (continued ret (take left cs))
unfolding digits_loop continued
digits_loop-continued cs len b zero i ret e h l f r = refl
digits_loop-continued [] len b (suc left) i ret e h l f r = absurd (omega arith)
digits_loop-continued (c ∷ cs) len b (suc left) i ret e h l f r =
    let (step, bound) = no_wrap len i ret c (omega arith) r h.0 in
    rw (at_head b i c cs h.0 e, step)
      (digits_loop-continued cs len b left (i + 1) (ret * 256 + c) (drop_next b i c cs e) h.1
        (omega arith) (omega arith) bound)

-- The state that a parser can be in: the buffer is valid, and holds bytes.
pub record IsValid (p : NetParser) : Type 0 where
  pub buffer_valid : Buffer.IsValid p.buffer
  pub bytes : IsBytes (Buffer.str p.buffer)

-- The bytes that are still to be parsed.
abbrev pub rest : NetParser → Bytes
rest p = Buffer.str p.buffer

discard-drop {ℓ} :
    {A : Type ℓ} (p : NetParser) (n : ℕ) (a : A)
    → IsValid p
    → n ≤ length (rest p)
    → (let (outcome, p') = discard p n a in
        (outcome ≡ ok a) × (rest p' ≡ drop n (rest p)) × (p'.error ≡ p.error) × IsValid p')
unfolding discard Buffer.size
discard-drop p n a v h = elim (Contents.remove_prefix_releases p.buffer n v.buffer_valid) [
  | inl (le, done, (valid, dropped, released)) ↦ (
    rw done,
    dropped,
    refl,
    record {
      buffer_valid = valid;
      bytes = rw dropped (All-drop (λ b. b < 256) n (rest p) v.bytes);
    },
  )
  | inr (lt, thrown, kept) ↦ absurd (omega arith)
]

-- With enough bytes and no error the size check changes nothing.
check_size-enough : (p : NetParser) (n : ℕ) → n ≤ length (rest p) → check_size p n ≡ p
unfolding check_size Buffer.size
check_size-enough p n h = rw (le→not_ltb (length (rest p)) n h) refl

parse_checked-discard :
    (len : ℕ) (p : NetParser)
    → IsValid p
    → p.error ≡ no_error
    → len ≤ length (rest p)
    → parse_checked len p ≡ discard p len (value (take len (rest p)))
unfolding parse_checked is_error value
parse_checked-discard len p v e h = ground (
  arith,
  digits_loop-continued (rest p) len p.buffer len 0 0 refl v.bytes h (omega arith) (omega arith),
)

parse_int-discard :
    (len : ℕ) (p : NetParser)
    → IsValid p
    → p.error ≡ no_error
    → len ≤ length (rest p)
    → parse_int len p ≡ discard p len (value (take len (rest p)))
unfolding parse_int
parse_int-discard len p v e h =
    ap (parse_checked len) (check_size-enough p len h) ∙ parse_checked-discard len p v e h

-- A successful parse of `len` bytes.
abbrev pub ParsesValue : ℕ → NetParser → Type 0
ParsesValue len p =
    (let (outcome, p') = parse_int len p in
      (outcome ≡ ok (value (take len (rest p))))
      × (rest p' ≡ drop len (rest p))
      × (p'.error ≡ no_error)
      × IsValid p')

-- With `len` bytes at hand and no error so far, `_parse_int` returns the number that the first
-- `len` bytes stand for in network byte order, and takes just these off the buffer.
pub parse_int-value :
    (len : ℕ) (p : NetParser)
    → IsValid p
    → p.error ≡ no_error
    → len ≤ length (rest p)
    → ParsesValue len p
parse_int-value len p v e h =
    let (done, dropped, kept, valid) = discard-drop p len (value (take len (rest p))) v h in
    rw (parse_int-discard len p v e h) (done, dropped, kept ∙ e, valid)

-- In every other case it returns 0 and leaves the buffer as it was: the error says
-- `PacketTooShort` if the bytes are too few, and otherwise stays what it was.
pub parse_int_error :
    (len : ℕ) (p : NetParser)
    → (p.error ≢ no_error) ⊎ (length (rest p) < len)
    → parse_int len p
      ≡ (ok 0, (if ltb (length (rest p)) len then set_error p packet_too_short else p))
unfolding parse_int check_size parse_checked is_error Buffer.size set_error
parse_int_error len p h = ground arith

error_cases : (r : ParseResult) → (r ≡ no_error) ⊎ (r ≢ no_error)
error_cases no_error = inl refl
error_cases _ = inr (λ e. cc)

remove_prefix-discard :
    (p : NetParser) (n : ℕ)
    → p.error ≡ no_error
    → n ≤ length (rest p)
    → remove_prefix p n ≡ discard p n tt
unfolding remove_prefix remove_checked is_error
remove_prefix-discard p n e h =
    ap (λ q. remove_checked q n) (check_size-enough p n h) ∙ ground arith

remove_prefix_refused :
    (p : NetParser) (n : ℕ)
    → (p.error ≢ no_error) ⊎ (length (rest p) < n)
    → remove_prefix p n
      ≡ (ok tt, (if ltb (length (rest p)) n then set_error p packet_too_short else p))
unfolding remove_prefix check_size remove_checked is_error Buffer.size set_error
remove_prefix_refused p n h = ground arith

-- The two outcomes of `remove_prefix`.
abbrev pub RemovePrefixCases : NetParser → ℕ → Type 0
RemovePrefixCases p n =
    (let (outcome, p') = remove_prefix p n in
      ((p.error ≡ no_error)
        × (n ≤ length (rest p))
        × (outcome ≡ ok tt)
        × (rest p' ≡ drop n (rest p))
        × (p'.error ≡ no_error)
        × IsValid p')
      ⊎ (((p.error ≢ no_error) ⊎ (length (rest p) < n))
          × (outcome ≡ ok tt)
          × (p' ≡ (if ltb (length (rest p)) n then set_error p packet_too_short else p))))

-- `remove_prefix(n)` discards `n` bytes if they are there and no error was met before. Otherwise
-- it leaves the buffer as it was, and the error says `PacketTooShort` if the bytes are too few.
pub remove_prefix_checked : (p : NetParser) (n : ℕ) → IsValid p → RemovePrefixCases p n
remove_prefix_checked p n v = elim (error_cases p.error) [
  | inl e ↦ elim (ltb-cases (length (rest p)) n) [
    | inl (lt, _) ↦ inr (
      inr lt,
      ap (λ r. r.0) (remove_prefix_refused p n (inr lt)),
      ap (λ r. r.1) (remove_prefix_refused p n (inr lt)),
    )
    | inr (le, _) ↦
        let (done, dropped, kept, valid) = discard-drop p n tt v le in
        rw (remove_prefix-discard p n e le) (inl (e, le, done, dropped, kept ∙ e, valid))
  ]
  | inr ne ↦ inr (
    inl ne,
    ap (λ r. r.0) (remove_prefix_refused p n (inl ne)),
    ap (λ r. r.1) (remove_prefix_refused p n (inl ne)),
  )
]
