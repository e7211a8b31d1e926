-- ===== src/Base/ClientFrame/Stream.antt =====
-- Batches of client frames through one buffer.
use mmorpg_game_server.Common.{
  ℕ, zero, suc, ◌+◌, ◌≡◌, refl, sym, ap, ◌∙◌, Option, none, some, List, [], ◌∷◌, ◌++◌, append-nil,
  append_assoc, arith, length,
}
use mmorpg_game_server.Base.Bytes.{Bytes}
use mmorpg_game_server.Base.Buffer.{Buffer, readable, append}
use mmorpg_game_server.Base.Buffer.Content.{IsValid}
use mmorpg_game_server.Base.Buffer.Refine.{Holds, append_refines}
use mmorpg_game_server.Base.Frame.{Outcome, ok, need_more, error}
use mmorpg_game_server.Base.ClientFrame.{
  ClientHeader, client_header_size, header_bytes, total_length, append_body, encode_client_frame,
  decode_client_frame,
}
use mmorpg_game_server.Base.ClientFrame.RoundTrip.{IsSendable, frame, sent, decode-frame}

abbrev pub Message : Type 0
Message = ClientHeader × Bytes

-- The caller's loops: a batch of frames is encoded behind one another into one buffer, and frames are
-- decoded for as long as the decoder returns `kOk`, on fuel.
pub encode_all : Buffer → List Message → Option Buffer
encode_all out [] = some out
encode_all out ((h, body) ∷ ms) = elim (encode_client_frame out h body) [
  | none ↦ none
  | some out' ↦ encode_all out' ms
]

take_outcome :
    (Buffer → List Message × Buffer)
    → Buffer
    → Option (Outcome ClientHeader × Buffer)
    → List Message × Buffer
take_outcome later b none = ([], b)
take_outcome later b (some (need_more, b')) = ([], b')
take_outcome later b (some (error, b')) = ([], b')
take_outcome later b (some (ok h body, b')) = let (ms, b'') = later b' in ((h, body) ∷ ms, b'')

pub decode_all : ℕ → Buffer → List Message × Buffer
decode_all zero b = ([], b)
decode_all (suc fuel) b = take_outcome (λ b'. decode_all fuel b') b (decode_client_frame b)

abbrev pub AllSendable : List Message → Type 0
AllSendable [] = Unit {0}
AllSendable ((h, body) ∷ ms) = IsSendable h body × AllSendable ms

abbrev pub frames : List Message → Bytes
frames [] = []
frames ((h, body) ∷ ms) = frame h body ++ frames ms

abbrev pub as_received : List Message → List Message
as_received [] = []
as_received ((h, body) ∷ ms) = (sent h body, body) ∷ as_received ms

append_body_refines :
    (out : Buffer) (body : Bytes)
    → IsValid out
    → Holds (append_body out body) (readable out ++ body)
unfolding append_body
append_body_refines out [] v = rw append-nil (record { valid = v; content = refl })
append_body_refines out (x ∷ xs) v = append_refines out (x ∷ xs) v

-- What encoding leaves in the buffer.
record Encoded (r : Option Buffer) (bytes : Bytes) : Type 0 where
  buffer : Buffer
  outcome : r ≡ some buffer
  holds : Holds buffer bytes

encode-frame :
    (out : Buffer) (h : ClientHeader) (body : Bytes)
    → IsValid out
    → IsSendable h body
    → Encoded (encode_client_frame out h body) (readable out ++ frame h body)
unfolding encode_client_frame
encode-frame out h body v s =
    let total : total_length body ≡ client_header_size + length body = omega (arith, s.short) in
    let header = header_bytes h (client_header_size + length body) in
    let a = append_refines out header v in
    let b = append_body_refines (append out header) body a.valid in
    record {
      buffer = append_body (append out header) body;
      outcome = rw (s.name, total);
      holds = rw (a.content, append_assoc (readable out) header body) at b;
    }

encode_all-frames :
    (ms : List Message) (out : Buffer)
    → IsValid out
    → AllSendable ms
    → Encoded (encode_all out ms) (readable out ++ frames ms)
unfolding encode_all
encode_all-frames [] out v s = record {
  buffer = out;
  outcome = refl;
  holds = record { valid = v; content = sym (append-nil (readable out)) };
}
encode_all-frames ((h, body) ∷ ms) out v (s, ss) =
    let e = encode-frame out h body v s in
    let later = encode_all-frames ms e.buffer (e.holds).valid ss in
    record {
      buffer = later.buffer;
      outcome = rw (e.outcome, encode_all) (later.outcome);
      holds =
          rw ((e.holds).content, append_assoc (readable out) (frame h body) (frames ms)) at
            (later.holds);
    }

decode_all-frames :
    (ms : List Message) (rest : Bytes) (b : Buffer)
    → IsValid b
    → AllSendable ms
    → readable b ≡ frames ms ++ rest
    → ((decode_all (length ms) b).0 ≡ as_received ms) × Holds (decode_all (length ms) b).1 rest
unfolding decode_all take_outcome
decode_all-frames [] rest b v s e = (refl, record { valid = v; content = e })
decode_all-frames ((h, body) ∷ ms) rest b v (s, ss) e =
    let d =
      decode-frame h body (frames ms ++ rest) b v s
        (e ∙ append_assoc (frame h body) (frames ms) rest) in
    let later = decode_all-frames ms rest d.buffer (d.holds).valid ss (d.holds).content in
    (
      rw (d.outcome, take_outcome) (ap (◌∷◌ (sent h body, body)) later.0),
      rw (d.outcome, take_outcome) later.1,
    )

-- A batch of sendable messages, encoded one behind another into any valid buffer that holds nothing,
-- is accepted, and decoding that buffer returns the same messages in order and leaves nothing.
pub decode_all-encode_all :
    (ms : List Message) (out : Buffer)
    → IsValid out
    → readable out ≡ []
    → AllSendable ms
    → (wire : Buffer) × (encode_all out ms ≡ some wire)
      × ((decode_all (length ms) wire).0 ≡ as_received ms)
      × (readable (decode_all (length ms) wire).1 ≡ [])
decode_all-encode_all ms out v none_yet s =
    let e = encode_all-frames ms out v s in
    let d =
      decode_all-frames ms [] e.buffer (e.holds).valid s
        ((e.holds).content ∙ rw (none_yet) (sym (append-nil (frames ms)))) in
    (e.buffer, e.outcome, d.0, (d.1).content)
