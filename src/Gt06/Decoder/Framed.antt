-- ===== src/Gt06/Decoder/Framed.antt =====
-- internal/protocol/decoder.go: a frame with a short header around any content.
use tallerp_telemetry.Base.{
  ℕ, zero, suc, ◌+◌, ◌-◌, ◌/◌, ◌%◌, ◌≤◌, ◌<◌, ◌≡◌, refl, ◌∙◌, ap, subst, false, [], ◌∷◌, ◌++◌,
  arith, ltb, length, length-append, take, drop, get_or, take_all, take-append, append_assoc, Bytes,
  be16, le→ltb_false, put16, put16_u16, u16_of, ==_self,
}
use tallerp_telemetry.Gt06.Crc.{calculate_crc}
use tallerp_telemetry.Gt06.Decoder.{
  GtFrame, find_header, gt_next, gt_round, gt_done, gt_limit_buffer, gt_push,
}
use tallerp_telemetry.Gt06.Decoder.Reads.{
  plain_discarded, plain_frame, plain_candidate, plain_sized, plain_header, plain_round,
  gt_round-plain,
}
use tallerp_telemetry.Gt06.Decoder.Acks.{calculate_crc-lt, gt_push_loop_next, gt_push_loop-empty}

-- A frame with a short header around some content.
abbrev pub frame_payload : ℕ → Bytes → ℕ → Bytes
frame_payload number content serial = (length content + 5) ∷ (number ∷ (content ++ put16 serial))

abbrev pub framed_bytes : ℕ → Bytes → ℕ → Bytes
framed_bytes number content serial =
    0x78
    ∷ 0x78
    ∷ (frame_payload number content serial
        ++ (put16 (calculate_crc (frame_payload number content serial)) ++ 0x0d ∷ 0x0a ∷ []))

-- The frame that it is read as.
abbrev pub framed_frame : ℕ → Bytes → ℕ → GtFrame
framed_frame number content serial = record {
  header = 0x78 ∷ 0x78 ∷ [];
  declared = length content + 5;
  protocol_number = number;
  content = content;
  serial = serial;
  crc = calculate_crc (frame_payload number content serial);
  raw = framed_bytes number content serial;
}

drop_all : (n : ℕ) (xs : Bytes) → length xs ≤ n → drop n xs ≡ []
drop_all zero [] h = refl
drop_all (suc n) [] h = refl
drop_all zero (x ∷ xs) h = absurd (omega arith)
drop_all (suc n) (x ∷ xs) h = drop_all n xs (omega arith)

ap2 : {A B C : Type 0} (f : A → B → C) {a a' : A} {b b' : B} → a ≡ a' → b ≡ b' → f a b ≡ f a' b'
ap2 f p q = rw (p, q) refl

ap3 :
    {A B C D : Type 0} (f : A → B → C → D) {a a' : A} {b b' : B} {c c' : C}
    → a ≡ a'
    → b ≡ b'
    → c ≡ c'
    → f a b c ≡ f a' b' c'
ap3 f p q r = rw (p, q, r) refl

get_or-append :
    (xs ys : Bytes) (i n d : ℕ) → n ≡ length xs + i → get_or (xs ++ ys) n d ≡ get_or ys i d
get_or-append [] ys i n d h = ap (λ k. get_or ys k d) (omega arith)
get_or-append (x ∷ xs) ys i zero d h = absurd (omega arith)
get_or-append (x ∷ xs) ys i (suc n) d h = get_or-append xs ys i n d (omega arith)

module _ (number : ℕ) (content : Bytes) (serial : ℕ) where
  -- The parts of the frame: up to the content, the content, and the rest.
  tail : Bytes
  tail =
      put16 serial
      ++ (put16 (calculate_crc (frame_payload number content serial)) ++ 0x0d ∷ 0x0a ∷ [])

  parts :
      framed_bytes number content serial
      ≡ 0x78 ∷ 0x78 ∷ (length content + 5) ∷ number ∷ (content ++ tail)
  unfolding tail
  parts =
      ap (λ x. 0x78 ∷ 0x78 ∷ (length content + 5) ∷ number ∷ x)
        (append_assoc content (put16 serial) _)

  size : length (framed_bytes number content serial) ≡ length content + 10
  size = omega (
    arith,
    length-append content (put16 serial),
    length-append (content ++ put16 serial)
        (put16 (calculate_crc (frame_payload number content serial)) ++ 0x0d ∷ 0x0a ∷ []),
  )

  -- A byte of the rest.
  rest_at :
      (i n : ℕ)
      → n ≡ length content + 4 + i
      → get_or (framed_bytes number content serial) n 0 ≡ get_or tail i 0
  rest_at i n h =
      ap (λ x. get_or x n 0) parts
      ∙ get_or-append (0x78 ∷ 0x78 ∷ (length content + 5) ∷ number ∷ content) tail i n 0
          (omega arith)

  frame-framed :
      serial < 65536
      → plain_frame 3 (length content + 5) (framed_bytes number content serial)
        ≡ framed_frame number content serial
  unfolding plain_frame tail
  frame-framed word =
      let buffer = framed_bytes number content serial in
      let crc = calculate_crc (frame_payload number content serial) in
      let total = 3 + (length content + 5) + 2 in
      let code : u16_of buffer (total - 4) ≡ crc =
        ap2 be16 (rest_at 2 (total - 4) (omega arith)) (rest_at 3 (total - 4 + 1) (omega arith))
        ∙ put16_u16 crc (calculate_crc-lt _) in
      let last : u16_of buffer (total - 6) ≡ serial =
        ap2 be16 (rest_at 0 (total - 6) (omega arith)) (rest_at 1 (total - 6 + 1) (omega arith))
        ∙ put16_u16 serial word in
      let inner : length content ≡ total - 6 - 4 = omega arith in
      let cut : take (total - 6 - 4) (drop 4 buffer) ≡ content =
        ap (λ x. take (total - 6 - 4) (drop 4 x)) parts
        ∙ subst (λ n. take n (content ++ tail) ≡ content) inner (take-append content tail) in
      ap3
        (λ s c inside. record {
          header = 0x78 ∷ 0x78 ∷ [];
          declared = length content + 5;
          protocol_number = number;
          content = inside;
          serial = s;
          crc = c;
          raw = buffer;
        })
        last code cut

  candidate-framed :
      serial < 65536
      → plain_candidate 3 (length content + 5) [] (framed_bytes number content serial)
        ≡ gt_next [] (framed_frame number content serial ∷ []) []
  unfolding plain_candidate tail
  candidate-framed word =
      let buffer = framed_bytes number content serial in
      let payload = frame_payload number content serial in
      let crc = calculate_crc payload in
      let total = 3 + (length content + 5) + 2 in
      let all : take total buffer ≡ buffer = take_all total buffer (omega (arith, size)) in
      let none_left : drop total buffer ≡ [] = drop_all total buffer (omega (arith, size)) in
      let first_stop : get_or buffer (total - 2) 0 ≡ 0x0d = rest_at 4 (total - 2) (omega arith) in
      let last_stop : get_or buffer (total - 1) 0 ≡ 0x0a = rest_at 5 (total - 1) (omega arith) in
      let code_hi : get_or buffer (total - 4) 0 ≡ crc / 256 % 256 =
        rest_at 2 (total - 4) (omega arith) in
      let code_lo : get_or buffer (total - 4 + 1) 0 ≡ crc % 256 =
        rest_at 3 (total - 4 + 1) (omega arith) in
      let width : length payload ≡ total - 4 - 2 =
        omega (arith, length-append content (put16 serial)) in
      let checked : take (total - 4 - 2) (drop 2 buffer) ≡ payload =
        subst (λ n. take n (drop 2 buffer) ≡ payload) width
          (take-append payload (put16 crc ++ 0x0d ∷ 0x0a ∷ [])) in
      let code : be16 (crc / 256 % 256) (crc % 256) ≡ crc = put16_u16 crc (calculate_crc-lt _) in
      rw (all, first_stop, last_stop, code_hi, code_lo, code, checked, ==_self, none_left)
        (ap (λ frame. gt_next [] (frame ∷ []) []) (frame-framed word))

  gt_round-framed :
      (max : ℕ)
      → length content + 10 ≤ max
      → serial < 65536
      → gt_round max (framed_bytes number content serial)
        ≡ gt_next [] (framed_frame number content serial ∷ []) []
  unfolding plain_round find_header plain_discarded plain_header plain_sized
  gt_round-framed max fits word =
      let buffer = framed_bytes number content serial in
      let some_bytes : ltb (length buffer) 3 ≡ false = le→ltb_false _ _ (omega (arith, size)) in
      let long : ltb (length content + 5) 5 ≡ false = le→ltb_false _ _ (omega arith) in
      let short : ltb max (3 + (length content + 5) + 2) ≡ false = le→ltb_false _ _ (omega arith) in
      let whole : ltb (length buffer) (3 + (length content + 5) + 2) ≡ false =
        le→ltb_false _ _ (omega (arith, size)) in
      rw (gt_round-plain, plain_round, some_bytes, long, short, whole) (candidate-framed word)

-- A frame with a short header, pushed into a decoder with an empty buffer, comes out as that frame.
pub gt_push-framed :
    (max room number : ℕ) (content : Bytes) (serial : ℕ)
    → length content + 10 ≤ max
    → serial < 65536
    → gt_push
        (record { buffer = []; max_frame_size = max; max_buffered_bytes = room })
        (framed_bytes number content serial)
      ≡ gt_done
          (record { buffer = []; max_frame_size = max; max_buffered_bytes = room })
          (framed_frame number content serial ∷ [])
          []
unfolding gt_push gt_limit_buffer
gt_push-framed max room number content serial fits word =
    let none_over : ltb room 0 ≡ false = le→ltb_false room 0 (omega arith) in
    let runs =
      gt_push_loop_next max (suc (length content + 9)) (framed_bytes number content serial) [] []
        (framed_frame number content serial ∷ []) [] []
        (gt_round-framed number content serial max fits word)
      ∙ gt_push_loop-empty max (length content + 9) (framed_frame number content serial ∷ []) in
    let rounds : length (framed_bytes number content serial) ≡ suc (length content + 9) =
      omega (arith, size number content serial) in
    rw (rounds, runs, none_over) refl
