-- ===== src/Base/GateFrame/RoundTrip.antt =====
-- Decoding a frame between servers gives back what was encoded.
use mmorpg_game_server.Common.{
  ℕ, ◌+◌, ◌-◌, ◌^◌, ◌≤◌, ◌<◌, ◌≡◌, refl, sym, ap, ◌∙◌, ◌⊎◌, false, ◌&&◌, not, some, [], ◌∷◌, ◌++◌,
  append-nil, append_assoc, arith, ltb, ◌==◌, le→not_ltb, length, get_or, take, drop, length-append,
  take-length-append, drop-length-append,
}
use mmorpg_game_server.Base.Bytes.{Bytes, put_be}
use mmorpg_game_server.Base.Bytes.RoundTrip.{get_be-put_be}
use mmorpg_game_server.Base.Buffer.{
  Buffer, readable, readable_bytes, append, read_uint, read_as_string,
}
use mmorpg_game_server.Base.Buffer.Content.{IsValid, length-readable}
use mmorpg_game_server.Base.Buffer.Refine.{Holds, append_refines, read_as_string_refines}
use mmorpg_game_server.Base.Frame.{search_pair, Outcome, ok, Round, done, round, round_fuel}
use mmorpg_game_server.Base.Frame.Read.{read_uint_lem, read_byte_lem}
use mmorpg_game_server.Base.Frame.Loop.{
  Counts, loop_returns, loop_done, skip_counts, round-Counts, round_here,
}
use mmorpg_game_server.Base.GateFrame.{
  Header, gate_magic, gate_version, header_size, max_message_size, service_any, header_bytes,
  total_length, append_body, encode_frame, consume, candidate, decode_frame,
}

-- Each field lies in the range of its type.
pub record Fits (h : Header) : Type 0 where
  pub msg_type : h.msg_type < 256
  pub retr_flag : h.retr_flag < 256
  pub module_id : h.module_id < 2 ^ 16
  pub method_id : h.method_id < 2 ^ 16
  pub seq : h.seq < 2 ^ 64
  pub player_id : h.player_id < 2 ^ 64
  pub src_service : h.src_service < 256
  pub dst_service : h.dst_service < 256

-- What a decoder returns with a frame: the outcome, and a buffer that holds the rest.
record Decoded (r : Round Header) (h : Header) (body rest : Bytes) : Type 0 where
  buffer : Buffer
  outcome : r ≡ done (ok h body) buffer
  holds : Holds buffer rest

-- The header as the decoder returns it, with the length of the frame.
abbrev pub sent : Header → Bytes → Header
sent h body = record h { total_len = header_size + length body }

consume_lem :
    (h : Header) (body rest : Bytes) (b : Buffer) (total_len : ℕ)
    → IsValid b
    → Fits h
    → total_len ≡ header_size + length body
    → total_len < 2 ^ 32
    → readable b ≡ header_bytes h total_len ++ (body ++ rest)
    → Decoded (consume total_len b) (sent h body) body rest
unfolding consume header_bytes
consume_lem h body rest b total_len w f t small e =
    let tail = body ++ rest in
    let after_length = h.src_service ∷ h.dst_service ∷ tail in
    let after_player = put_be 4 total_len ++ after_length in
    let after_seq = put_be 8 h.player_id ++ after_player in
    let after_method = put_be 8 h.seq ++ after_seq in
    let after_module = put_be 2 h.method_id ++ after_method in
    let after_flag = put_be 2 h.module_id ++ after_module in
    let after_version = h.msg_type ∷ h.retr_flag ∷ after_flag in
    let d1 =
      read_uint_lem 2 gate_magic (put_be 2 gate_version ++ after_version) b w
        (e ∙ simp append_assoc) (omega arith) in
    let b1 = (read_uint 2 b).1 in
    let d2 =
      read_uint_lem 2 gate_version after_version b1 (d1.1).valid (d1.1).content (omega arith) in
    let b2 = (read_uint 2 b1).1 in
    let d3 = read_byte_lem h.msg_type (h.retr_flag ∷ after_flag) b2 (d2.1).valid (d2.1).content in
    let b3 = (read_uint 1 b2).1 in
    let d4 = read_byte_lem h.retr_flag after_flag b3 (d3.1).valid (d3.1).content in
    let b4 = (read_uint 1 b3).1 in
    let d5 = read_uint_lem 2 h.module_id after_module b4 (d4.1).valid (d4.1).content f.module_id in
    let b5 = (read_uint 2 b4).1 in
    let d6 = read_uint_lem 2 h.method_id after_method b5 (d5.1).valid (d5.1).content f.method_id in
    let b6 = (read_uint 2 b5).1 in
    let d7 = read_uint_lem 8 h.seq after_seq b6 (d6.1).valid (d6.1).content f.seq in
    let b7 = (read_uint 8 b6).1 in
    let d8 = read_uint_lem 8 h.player_id after_player b7 (d7.1).valid (d7.1).content f.player_id in
    let b8 = (read_uint 8 b7).1 in
    let d9 = read_uint_lem 4 total_len after_length b8 (d8.1).valid (d8.1).content small in
    let b9 = (read_uint 4 b8).1 in
    let d10 = read_byte_lem h.src_service (h.dst_service ∷ tail) b9 (d9.1).valid (d9.1).content in
    let b10 = (read_uint 1 b9).1 in
    let d11 = read_byte_lem h.dst_service tail b10 (d10.1).valid (d10.1).content in
    let b11 = (read_uint 1 b10).1 in
    let count = total_len - header_size in
    let enough : ltb (readable_bytes b11) count ≡ false = le→not_ltb (readable_bytes b11) count (
      omega (
        arith,
        length-readable b11 (d11.1).valid,
        ap (length {A = ℕ}) (d11.1).content,
        length-append {0} body rest,
      )) in
    let s = read_as_string_refines b11 count (d11.1).valid in
    let text : (read_as_string b11 count).0 ≡ body =
      s.0 ∙ rw ((d11.1).content) (take-length-append count body rest (omega arith)) in
    record {
      buffer = (read_as_string b11 count).1;
      outcome =
          rw (enough, d3.0, d4.0, d5.0, d6.0, d7.0, d8.0, d10.0, d11.0, text)
            (ap (λ k. done (ok (record h { total_len = k }) body) (read_as_string b11 count).1) t);
      holds = rw ((d11.1).content, drop-length-append count body rest (omega arith)) at s.1;
    }

-- The bytes of a frame.
abbrev pub frame : Header → Bytes → Bytes
frame h body = header_bytes h (header_size + length body) ++ body

module _ (h : Header) (total_len : ℕ) (tail : Bytes) where
  version_at : take 2 (drop 2 (header_bytes h total_len ++ tail)) ≡ put_be 2 gate_version
  unfolding header_bytes put_be
  version_at = refl

  length_at : take 4 (drop 26 (header_bytes h total_len ++ tail)) ≡ put_be 4 total_len
  unfolding header_bytes put_be
  length_at = refl

  service_at : get_or (header_bytes h total_len ++ tail) 31 0 ≡ h.dst_service
  unfolding header_bytes put_be
  service_at = refl

  magic_at : search_pair 0xC1 0xEA (header_bytes h total_len ++ tail) ≡ some 0
  unfolding header_bytes put_be search_pair
  magic_at = refl

  size_at : length (header_bytes h total_len) ≡ header_size
  unfolding header_bytes put_be
  size_at = refl

-- What the sender's arguments satisfy: a frame within the limit, whose receiver is the service that
-- decodes, unless that takes the frames of all.
pub record IsSendable (expected : ℕ) (h : Header) (body : Bytes) : Type 0 where
  pub fits : Fits h
  pub short : header_size + length body ≤ max_message_size
  pub addressed : (expected ≡ service_any) ⊎ (h.dst_service ≡ expected)

module _ (expected : ℕ) (h : Header) (body rest : Bytes) (b : Buffer) (resync : ℕ) where
  room :
      IsValid b → readable b ≡ frame h body ++ rest → header_size + length body ≤ readable_bytes b
  room w e = omega (
    arith,
    length-readable b w,
    ap (length {A = ℕ}) e,
    size_at h (header_size + length body) body,
    length-append {0} (header_bytes h (header_size + length body)) body,
    length-append {0} (frame h body) rest,
  )

  candidate-frame :
      IsValid b
      → IsSendable expected h body
      → readable b ≡ frame h body ++ rest
      → Decoded (candidate expected resync b) (sent h body) body rest
  unfolding candidate
  candidate-frame w s e =
      rw
        (
          e',
          version_at h total tail,
          length_at h total tail,
          service_at h total tail,
          get_be-put_be 4 total (omega (arith, s.short)),
          get_be-put_be 2 gate_version (omega arith),
          le→not_ltb total header_size (omega arith),
          le→not_ltb max_message_size total s.short,
          mine,
          le→not_ltb (readable_bytes b) total (room w e),
        )
        (consume_lem h body rest b total w s.fits refl (omega (arith, s.short)) e')
    where
      total : ℕ
      total = header_size + length body

      tail : Bytes
      tail = body ++ rest

      e' : readable b ≡ header_bytes h total ++ tail
      e' = e ∙ append_assoc (header_bytes h total) body rest

      mine : not (expected == service_any) && not (h.dst_service == expected) ≡ false
      mine = ground (arith, s.addressed)

  round-frame :
      IsValid b
      → IsSendable expected h body
      → readable b ≡ frame h body ++ rest
      → Decoded (round gate_magic header_size (candidate expected) resync b) (sent h body) body rest
  round-frame w s e =
      let r = room w e in
      rw
        (round_here (candidate expected) gate_magic header_size resync b (omega arith) (omega arith)
          (rw (e, append_assoc (header_bytes h (header_size + length body)) body rest)
            (magic_at h (header_size + length body) (body ++ rest))))
        (candidate-frame w s e)

-- What the whole decoder returns with a frame.
pub record Returns (expected : ℕ) (b : Buffer) (h : Header) (body rest : Bytes) : Type 0 where
  pub buffer : Buffer
  pub outcome : decode_frame expected b ≡ some (ok h body, buffer)
  pub holds : Holds buffer rest

decode-frame :
    (expected : ℕ) (h : Header) (body rest : Bytes) (b : Buffer)
    → IsValid b
    → IsSendable expected h body
    → readable b ≡ frame h body ++ rest
    → Returns expected b (sent h body) body rest
unfolding decode_frame
decode-frame expected h body rest b w s e =
    let d = round-frame expected h body rest b 0 w s e in
    record {
      buffer = d.buffer;
      outcome =
          loop_done (round gate_magic header_size (candidate expected)) 16 0 b d.buffer
            (ok (sent h body) body) d.outcome;
      holds = d.holds;
    }

candidate-Counts : (expected : ℕ) → Counts (candidate expected)
unfolding candidate consume
candidate-Counts expected resync resync' b b' e = (
  ground (arith, skip_counts {H = Header} resync resync' b b'),
  ground (arith, skip_counts {H = Header} resync resync' b b'),
)

-- The decoder always returns: 17 rounds are enough, whatever the buffer holds.
pub decode_frame_returns :
    (expected : ℕ) (b : Buffer) → (r : Outcome Header × Buffer) × (decode_frame expected b ≡ some r)
unfolding decode_frame
decode_frame_returns expected b =
    loop_returns (round gate_magic header_size (candidate expected)) round_fuel 0 b
      (round-Counts (candidate expected) (candidate-Counts expected) gate_magic header_size)
      (omega arith) (omega arith)

append_body_refines :
    (out : Buffer) (body : Bytes)
    → IsValid out
    → Holds (append_body out body) (readable out ++ body)
unfolding append_body
append_body_refines out [] v = rw append-nil (record { valid = v; content = refl })
append_body_refines out (x ∷ xs) v = append_refines out (x ∷ xs) v

encode-frame :
    (out : Buffer) (h : Header) (body : Bytes)
    → IsValid out
    → header_size + length body ≤ max_message_size
    → Holds (encode_frame out h body) (readable out ++ frame h body)
unfolding encode_frame
encode-frame out h body v s =
    let total : total_length body ≡ header_size + length body = omega (arith, s) in
    let header = header_bytes h (header_size + length body) in
    let a = append_refines out header v in
    rw (total) (
      rw (a.content, append_assoc (readable out) header body) at
        (append_body_refines (append out header) body a.valid))

-- A frame within the field widths and the largest size, encoded into a valid buffer with nothing
-- to read, is decoded by its receiver, or by a service that takes all frames, to the same header,
-- with its length, and the same body, and nothing is left.
pub decode-encode :
    (expected : ℕ) (h : Header) (body : Bytes) (out : Buffer)
    → IsValid out
    → readable out ≡ []
    → IsSendable expected h body
    → (b : Buffer) × (decode_frame expected (encode_frame out h body)
        ≡ some (ok (sent h body) body, b))
      × (readable b ≡ [])
decode-encode expected h body out v none_yet s =
    let e = encode-frame out h body v s.short in
    let d =
      decode-frame expected h body [] (encode_frame out h body) e.valid s
        (e.content ∙ rw none_yet (sym (append-nil (frame h body)))) in
    (d.buffer, d.outcome, (d.holds).content)
