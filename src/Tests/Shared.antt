-- ===== src/Tests/Shared.antt =====
-- A small message format that the tests use in place of bincode: it has the messages of a streamed
-- request, with an empty path and no headers.
use expose.Prelude.{zero, suc, ◌≡◌, refl, subst, [], ◌∷◌, none, Result, ok, err}
use expose.Prelude.Text.{Text, Bytes}
use expose.Common.Message.{Message}
use expose.Common.Codec.{Bincode, RoundTrips}

abbrev toy_serialize : Message → Result Text Bytes
toy_serialize (Message.http_request_end id) = ok (0 ∷ id ∷ [])
toy_serialize (Message.http_request_chunk id payload sequence) = ok (1 ∷ id ∷ sequence ∷ payload)
toy_serialize (Message.http_request_start id method [] [] none) = ok (2 ∷ id ∷ method)
toy_serialize _ = err []

abbrev toy_deserialize : Bytes → Result Text Message
toy_deserialize (zero ∷ id ∷ rest) = ok (Message.http_request_end id)
toy_deserialize (suc zero ∷ id ∷ sequence ∷ payload) =
    ok (Message.http_request_chunk id payload sequence)
toy_deserialize (suc (suc n) ∷ id ∷ method) = ok (Message.http_request_start id method [] [] none)
toy_deserialize _ = err []

abbrev pub toy : Bincode
toy = record { serialize = toy_serialize; deserialize = toy_deserialize }

pub toy-RoundTrips : RoundTrips toy
toy-RoundTrips (Message.http_request_end id) bs h =
    let e : 0 ∷ id ∷ [] ≡ bs = cc in
    subst (λ x. toy_deserialize x ≡ ok (Message.http_request_end id)) e refl
toy-RoundTrips (Message.http_request_chunk id payload sequence) bs h =
    let e : 1 ∷ id ∷ sequence ∷ payload ≡ bs = cc in
    subst (λ x. toy_deserialize x ≡ ok (Message.http_request_chunk id payload sequence)) e refl
toy-RoundTrips (Message.http_request_start id method [] [] none) bs h =
    let e : 2 ∷ id ∷ method ≡ bs = cc in
    subst (λ x. toy_deserialize x ≡ ok (Message.http_request_start id method [] [] none)) e refl
toy-RoundTrips m bs h = absurd (cc)
