-- ===== src/Base/ClientFrame/RoundTrip.antt =====
-- Decoding a frame gives back what was encoded.
use mmorpg_game_server.Common.{
  ℕ, suc, ◌+◌, ◌-◌, ◌^◌, ◌≤◌, ◌<◌, ◌≡◌, refl, sym, ap, ◌∙◌, ◌≢◌, true, false, some, ◌∷◌, ◌++◌,
  append_assoc, arith, ltb, le→not_ltb, length, get_or, take, drop, replicate, length-append,
  length-replicate, take-length-append, drop-length-append, All,
}
use mmorpg_game_server.Base.Bytes.{Bytes, put_be}
use mmorpg_game_server.Base.Bytes.RoundTrip.{get_be-put_be}
use mmorpg_game_server.Base.Buffer.{
  Buffer, readable, readable_bytes, retrieve, read_uint, read_as_string,
}
use mmorpg_game_server.Base.Buffer.Content.{IsValid, length-readable}
use mmorpg_game_server.Base.Buffer.Refine.{Holds, retrieve_refines, read_as_string_refines}
use mmorpg_game_server.Base.ClientFrame.RoleName.{field-pad, valid_role_name-NoZero}
use mmorpg_game_server.Base.Frame.{search_pair, Outcome, ok, Round, done, round, round_fuel}
use mmorpg_game_server.Base.Frame.Read.{read_uint_lem, read_byte_lem, retrieved}
use mmorpg_game_server.Base.Frame.Loop.{
  Counts, loop_returns, loop_done, skip_counts, round-Counts, round_here, round_behind,
  search_pair-behind,
}
use mmorpg_game_server.Base.ClientFrame.{
  ClientHeader, client_magic, client_version, client_header_size, role_name_size,
  max_client_frame_size, header_bytes, pad, valid_role_name, consume, candidate,
  decode_client_frame,
}

-- Each field lies in the range of its type.
pub record Fits (h : ClientHeader) : Type 0 where
  pub kind : h.kind < 256
  pub module_id : h.module_id < 2 ^ 16
  pub method_id : h.method_id < 2 ^ 16
  pub request_id : h.request_id < 2 ^ 64

skip_field :
    (field rest : Bytes) (b : Buffer)
    → IsValid b
    → readable b ≡ field ++ rest
    → length field ≡ role_name_size
    → Holds (retrieve b role_name_size) rest
skip_field field rest b w e h =
    rw (e, drop-length-append role_name_size field rest (sym h)) at
      (retrieve_refines b role_name_size w)

length-pad : (name : Bytes) → length name ≤ role_name_size → length (pad name) ≡ role_name_size
unfolding pad
length-pad name h = omega (
  arith,
  length-append {0} name (replicate (role_name_size - length name) 0),
  length-replicate {0} {A = ℕ} (role_name_size - length name) 0,
)

-- What a decoder returns with a frame: the outcome, and a buffer that holds the rest.
pub record Decoded (r : Round ClientHeader) (h : ClientHeader) (body rest : Bytes) : Type 0 where
  pub buffer : Buffer
  pub outcome : r ≡ done (ok h body) buffer
  pub holds : Holds buffer rest

-- The header as the decoder returns it, with the length of the frame.
abbrev pub sent : ClientHeader → Bytes → ClientHeader
sent h body = record h { total_len = client_header_size + length body }

consume_lem :
    (h : ClientHeader) (body rest : Bytes) (b : Buffer) (total_len : ℕ)
    → IsValid b
    → Fits h
    → length h.role_name ≤ role_name_size
    → total_len ≡ client_header_size + length body
    → total_len < 2 ^ 32
    → readable b ≡ header_bytes h total_len ++ (body ++ rest)
    → Decoded (consume total_len h.role_name b) (sent h body) body rest
unfolding consume header_bytes
consume_lem h body rest b total_len w f n t small e =
    let tail = body ++ rest in
    let field = pad h.role_name in
    let after_length = field ++ tail in
    let after_request = put_be 4 total_len ++ after_length in
    let after_method = put_be 8 h.request_id ++ after_request in
    let after_module = put_be 2 h.method_id ++ after_method in
    let after_kind = put_be 2 h.module_id ++ after_module in
    let d1 =
      read_uint_lem 2 client_magic (client_version ∷ h.kind ∷ after_kind) b w
        (e ∙ simp append_assoc) (omega arith) in
    let d2 =
      read_byte_lem client_version (h.kind ∷ after_kind) (read_uint 2 b).1 (d1.1).valid
        (d1.1).content in
    let b2 = (read_uint 1 (read_uint 2 b).1).1 in
    let d3 = read_byte_lem h.kind after_kind b2 (d2.1).valid (d2.1).content in
    let b3 = (read_uint 1 b2).1 in
    let d4 = read_uint_lem 2 h.module_id after_module b3 (d3.1).valid (d3.1).content f.module_id in
    let b4 = (read_uint 2 b3).1 in
    let d5 = read_uint_lem 2 h.method_id after_method b4 (d4.1).valid (d4.1).content f.method_id in
    let b5 = (read_uint 2 b4).1 in
    let d6 =
      read_uint_lem 8 h.request_id after_request b5 (d5.1).valid (d5.1).content f.request_id in
    let b6 = (read_uint 8 b5).1 in
    let d7 = read_uint_lem 4 total_len after_length b6 (d6.1).valid (d6.1).content small in
    let b7 = (read_uint 4 b6).1 in
    let d8 = skip_field field tail b7 (d7.1).valid (d7.1).content (length-pad h.role_name n) in
    let b8 = retrieve b7 role_name_size in
    let count = total_len - client_header_size in
    let enough : ltb (readable_bytes b8) count ≡ false = le→not_ltb (readable_bytes b8) count (
      omega (
        arith,
        length-readable b8 d8.valid,
        ap (length {A = ℕ}) d8.content,
        length-append {0} body rest,
      )) in
    let s = read_as_string_refines b8 count d8.valid in
    let text : (read_as_string b8 count).0 ≡ body =
      s.0 ∙ rw (d8.content) (take-length-append count body rest (omega arith)) in
    record {
      buffer = (read_as_string b8 count).1;
      outcome =
          rw (enough, d3.0, d4.0, d5.0, d6.0, text)
            (ap (λ k. done (ok (record h { total_len = k }) body) (read_as_string b8 count).1) t);
      holds = rw (d8.content, drop-length-append count body rest (omega arith)) at s.1;
    }

-- The bytes of a frame.
abbrev pub frame : ClientHeader → Bytes → Bytes
frame h body = header_bytes h (client_header_size + length body) ++ body

module _ (h : ClientHeader) (total_len : ℕ) (tail : Bytes) where
  version_at : get_or (header_bytes h total_len ++ tail) 2 0 ≡ client_version
  unfolding header_bytes put_be
  version_at = refl

  length_at : take 4 (drop 16 (header_bytes h total_len ++ tail)) ≡ put_be 4 total_len
  unfolding header_bytes put_be
  length_at = refl

  drop_at : drop 20 (header_bytes h total_len ++ tail) ≡ pad h.role_name ++ tail
  unfolding header_bytes put_be
  drop_at = refl

  magic_at : search_pair 0xC1 0xEB (header_bytes h total_len ++ tail) ≡ some 0
  unfolding header_bytes put_be search_pair
  magic_at = refl

  size_at :
      length h.role_name ≤ role_name_size → length (header_bytes h total_len) ≡ client_header_size
  unfolding header_bytes put_be
  size_at n = omega (arith, length-pad h.role_name n)

-- What the sender's arguments satisfy: an accepted name, and a frame within the limit.
pub record IsSendable (h : ClientHeader) (body : Bytes) : Type 0 where
  pub fits : Fits h
  pub name : valid_role_name h.role_name ≡ true
  pub short : client_header_size + length body ≤ max_client_frame_size

module _ (h : ClientHeader) (body rest : Bytes) (b : Buffer) (resync : ℕ) where
  candidate-frame :
      IsValid b
      → IsSendable h body
      → readable b ≡ frame h body ++ rest
      → Decoded (candidate resync b) (sent h body) body rest
  unfolding candidate
  candidate-frame w s e =
      rw
        (
          e',
          version_at h total tail,
          length_at h total tail,
          drop_at h total tail,
          get_be-put_be 4 total (omega (arith, s.short)),
          take-length-append role_name_size (pad h.role_name) tail
              (sym (length-pad h.role_name name_fits)),
          (field-pad h.role_name s.name).1,
          (field-pad h.role_name s.name).0,
          le→not_ltb total client_header_size (omega arith),
          le→not_ltb max_client_frame_size total s.short,
          le→not_ltb (readable_bytes b) total (omega (arith, present)),
        )
        (consume_lem h body rest b total w s.fits name_fits refl (omega (arith, s.short)) e')
    where
      total : ℕ
      total = client_header_size + length body

      tail : Bytes
      tail = body ++ rest

      e' : readable b ≡ header_bytes h total ++ tail
      e' = e ∙ append_assoc (header_bytes h total) body rest

      name_fits : length h.role_name ≤ role_name_size
      name_fits = (valid_role_name-NoZero h.role_name s.name).0

      present : total ≤ readable_bytes b
      present = omega (
        arith,
        length-readable b w,
        ap (length {A = ℕ}) e',
        size_at h total tail name_fits,
        length-append {0} (header_bytes h total) tail,
        length-append {0} body rest,
      )

  room :
      IsValid b
      → IsSendable h body
      → readable b ≡ frame h body ++ rest
      → client_header_size + length body ≤ readable_bytes b
  room w s e = omega (
    arith,
    length-readable b w,
    ap (length {A = ℕ}) e,
    size_at h (client_header_size + length body) body (valid_role_name-NoZero h.role_name s.name).0,
    length-append {0} (header_bytes h (client_header_size + length body)) body,
    length-append {0} (frame h body) rest,
  )

  round-frame :
      IsValid b
      → IsSendable h body
      → readable b ≡ frame h body ++ rest
      → Decoded (round client_magic client_header_size candidate resync b) (sent h body) body rest
  round-frame w s e =
      let r = room w s e in
      rw
        (round_here candidate client_magic client_header_size resync b (omega arith) (omega arith) (
          rw (e, append_assoc (header_bytes h (client_header_size + length body)) body rest)
            (magic_at h (client_header_size + length body) (body ++ rest))))
        (candidate-frame w s e)

-- What the whole decoder returns with a frame.
pub record Returns (b : Buffer) (h : ClientHeader) (body rest : Bytes) : Type 0 where
  pub buffer : Buffer
  pub outcome : decode_client_frame b ≡ some (ok h body, buffer)
  pub holds : Holds buffer rest

-- A buffer that starts with a sendable frame is decoded to that frame's header and body, and the
-- bytes behind the frame stay in the buffer.
pub decode-frame :
    (h : ClientHeader) (body rest : Bytes) (b : Buffer)
    → IsValid b
    → IsSendable h body
    → readable b ≡ frame h body ++ rest
    → Returns b (sent h body) body rest
unfolding decode_client_frame
decode-frame h body rest b w s e =
    let d = round-frame h body rest b 0 w s e in
    record {
      buffer = d.buffer;
      outcome =
          loop_done (round client_magic client_header_size candidate) 16 0 b d.buffer
            (ok (sent h body) body) d.outcome;
      holds = d.holds;
    }

candidate-Counts : Counts candidate
unfolding candidate consume
candidate-Counts resync resync' b b' e = (
  ground (arith, skip_counts {H = ClientHeader} resync resync' b b'),
  ground (arith, skip_counts {H = ClientHeader} resync resync' b b'),
)

-- The decoder always returns: 17 rounds are enough, whatever the buffer holds.
pub decode_client_frame_returns :
    (b : Buffer) → (r : Outcome ClientHeader × Buffer) × (decode_client_frame b ≡ some r)
unfolding decode_client_frame
decode_client_frame_returns b =
    loop_returns (round client_magic client_header_size candidate) round_fuel 0 b
      (round-Counts candidate candidate-Counts client_magic client_header_size) (omega arith)
      (omega arith)

-- In a valid buffer, bytes in front of a sendable frame, at least one, are skipped in the call
-- that decodes the frame, provided that the first byte of the magic number is not among them;
-- what follows the frame stays.
pub decode_resync :
    (h : ClientHeader) (x : ℕ) (garbage body rest : Bytes) (b : Buffer)
    → IsValid b
    → IsSendable h body
    → All (λ c. c ≢ 0xC1) (x ∷ garbage)
    → readable b ≡ (x ∷ garbage) ++ (frame h body ++ rest)
    → Returns b (sent h body) body rest
unfolding decode_client_frame
decode_resync h x garbage body rest b w s clean e =
    let skipped = retrieved b (x ∷ garbage) (frame h body ++ rest) w e in
    let b1 = retrieve b (length (x ∷ garbage)) in
    let present = room h body rest b1 1 skipped.valid s skipped.content in
    let found : search_pair 0xC1 0xEB (readable b) ≡ some (suc (length garbage)) = rw (e) (
      search_pair-behind 0xC1 0xEB (x ∷ garbage) (frame h body ++ rest) clean (
        rw (append_assoc (header_bytes h (client_header_size + length body)) body rest)
          (magic_at h (client_header_size + length body) (body ++ rest)))) in
    let longer : client_header_size ≤ readable_bytes b = omega (
      arith,
      length-readable b w,
      length-readable b1 skipped.valid,
      ap (length {A = ℕ}) e,
      ap (length {A = ℕ}) skipped.content,
      length-append {0} garbage (frame h body ++ rest),
    ) in
    let d = candidate-frame h body rest b1 1 skipped.valid s skipped.content in
    record {
      buffer = d.buffer;
      outcome =
          loop_done (round client_magic client_header_size candidate) 16 0 b d.buffer
            (ok (sent h body) body)
            (round_behind candidate client_magic client_header_size 0 b (length garbage)
                (omega arith) found longer (omega arith) (omega arith)
              ∙ d.outcome);
      holds = d.holds;
    }
