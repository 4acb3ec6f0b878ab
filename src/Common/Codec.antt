-- ===== src/Common/Codec.antt =====
-- expose-common/src/protocol.rs: `Message::encode` and `Message::decode`. The binary format is
-- bincode's, which is no part of the repository: its two functions are a parameter, with the
-- documented behaviour that deserialising what was serialised gives the value back.
use expose.Prelude.{◌≤◌, ◌≡◌, Result, ok, err, ◌>>=◌, ◌>>◌, arith}
use expose.Prelude.Text.{Text, Bytes}
use expose.Common.Error.{ExposeError, EncodingError, Fallible}
use expose.Common.Message.{Message, validate, default_max_body_size, payload_size, validate-ok_iff}

pub record Bincode : Type 0 where
  pub serialize : Message → Result Text Bytes
  pub deserialize : Bytes → Result Text Message

-- bincode's round trip.
abbrev pub RoundTrips : Bincode → Type 0
RoundTrips b = (m : Message) (bs : Bytes) → b.serialize m ≡ ok bs → b.deserialize bs ≡ ok m

-- `map_err(EncodingError::from)?`.
abbrev pub map_encoding : {A : Type 0} → Result Text A → Fallible A
map_encoding (ok a) = ok a
map_encoding (err e) = err (ExposeError.encoding (EncodingError.bincode e))

unfoldable pub encode : Bincode → Message → Fallible Bytes
encode b m = do validate m default_max_body_size; map_encoding (b.serialize m)

unfoldable pub decode : Bincode → Bytes → Fallible Message
decode b bytes = do
  msg ← map_encoding (b.deserialize bytes)
  validate msg default_max_body_size
  ok msg

-- Whatever `encode` puts on the wire, `decode` reads back as the same message: the size check of
-- the reader refuses nothing that the writer let through.
pub decode-encode :
    (b : Bincode) (m : Message) (bs : Bytes)
    → RoundTrips b
    → encode b m ≡ ok bs
    → decode b bs ≡ ok m
unfolding encode decode
decode-encode b m bs rt h = ground (arith, rt m bs)

-- A message that `decode` accepts never carries more than ten MiB, whatever bytes a peer sends.
pub decode_bounded :
    (b : Bincode) (m : Message) (bs : Bytes)
    → decode b bs ≡ ok m
    → payload_size m ≤ default_max_body_size
unfolding decode
decode_bounded b m bs h = grind (arith, validate-ok_iff)
