-- ===== src/Tests/Format.antt =====
-- A message format that the tests use in place of bincode for the messages of a handshake and of TCP
-- traffic: texts are written after their length.
use expose.Prelude.{
  ℕ, zero, suc, ◌≡◌, refl, ◌∙◌, ap, subst, ◌++◌, [], ◌∷◌, Option, none, some, Result, ok, err,
  length, take, drop,
}
use expose.Prelude.Text.{Text, Bytes}
use expose.Common.Types.{TunnelProtocol}
use expose.Common.Message.{Message, ConnectRequest, ConnectResponse}
use expose.Common.Codec.{Bincode, RoundTrips}

abbrev put : Text → Bytes → Bytes
put t rest = length t ∷ (t ++ rest)

abbrev put_option : Option Text → Bytes → Bytes
put_option none rest = 0 ∷ rest
put_option (some t) rest = 1 ∷ put t rest

abbrev put_port : Option ℕ → Bytes → Bytes
put_port none rest = 0 ∷ rest
put_port (some n) rest = 1 ∷ n ∷ rest

abbrev put_protocol : TunnelProtocol → Bytes → Bytes
put_protocol TunnelProtocol.http rest = 0 ∷ rest
put_protocol TunnelProtocol.tcp rest = 1 ∷ rest

abbrev Reader : Type 0 → Type 0
Reader A = Bytes → Result Text Message

abbrev get_text : Bytes → (Text → Bytes → Result Text Message) → Result Text Message
get_text [] k = err []
get_text (n ∷ xs) k = k (take n xs) (drop n xs)

abbrev get_option : Bytes → (Option Text → Bytes → Result Text Message) → Result Text Message
get_option [] k = err []
get_option (zero ∷ xs) k = k none xs
get_option (suc n ∷ xs) k = get_text xs (λ t rest. k (some t) rest)

abbrev get_port : Bytes → (Option ℕ → Bytes → Result Text Message) → Result Text Message
get_port [] k = err []
get_port (zero ∷ xs) k = k none xs
get_port (suc n ∷ []) k = err []
get_port (suc n ∷ p ∷ xs) k = k (some p) xs

abbrev get_protocol : Bytes → (TunnelProtocol → Bytes → Result Text Message) → Result Text Message
get_protocol [] k = err []
get_protocol (zero ∷ xs) k = k TunnelProtocol.http xs
get_protocol (suc n ∷ xs) k = k TunnelProtocol.tcp xs

take-put : (t rest : Text) → take (length t) (t ++ rest) ≡ t
take-put [] rest = refl
take-put (c ∷ t) rest = ap (◌∷◌ c) (take-put t rest)

drop-put : (t rest : Text) → drop (length t) (t ++ rest) ≡ rest
drop-put [] rest = refl
drop-put (c ∷ t) rest = drop-put t rest

module _ (rest : Bytes) where
  get-put : (t : Text) (k : Text → Bytes → Result Text Message) → get_text (put t rest) k ≡ k t rest
  get-put t k =
      ap (λ x. k x (drop (length t) (t ++ rest))) (take-put t rest) ∙ ap (k t) (drop-put t rest)

  get-put_option :
      (o : Option Text) (k : Option Text → Bytes → Result Text Message)
      → get_option (put_option o rest) k ≡ k o rest
  get-put_option none k = refl
  get-put_option (some t) k = get-put t (λ x r. k (some x) r)

  get-put_port :
      (o : Option ℕ) (k : Option ℕ → Bytes → Result Text Message)
      → get_port (put_port o rest) k ≡ k o rest
  get-put_port none k = refl
  get-put_port (some n) k = refl

  get-put_protocol :
      (p : TunnelProtocol) (k : TunnelProtocol → Bytes → Result Text Message)
      → get_protocol (put_protocol p rest) k ≡ k p rest
  get-put_protocol TunnelProtocol.http k = refl
  get-put_protocol TunnelProtocol.tcp k = refl

abbrev request_bytes : ConnectRequest → Bytes
request_bytes r =
    r.protocol_version
    ∷ put_option r.api_key (
        put_option r.desired_subdomain
          (put_protocol r.tunnel_protocol (put r.client_version (put_option r.metadata []))))

abbrev read_request : Bytes → Result Text Message
read_request [] = err []
read_request (v ∷ xs) = get_option xs (λ key a. get_option a (λ name b. get_protocol b (λ p c.
    get_text c (λ cv d. get_option d (λ meta e. ok (
      Message.connect (record {
        protocol_version = v;
        api_key = key;
        desired_subdomain = name;
        tunnel_protocol = p;
        client_version = cv;
        metadata = meta;
      })))))))

abbrev response_bytes : ConnectResponse → Bytes
response_bytes r =
    r.protocol_version
    ∷ r.tunnel_id
    ∷ r.limits.max_body_bytes
    ∷ r.limits.max_headers
    ∷ put r.assigned_subdomain (
        put r.domain (
          put_protocol r.tunnel_protocol (
            put_option r.message
              (put r.public_scheme (put_port r.public_port (put r.public_url []))))))

abbrev read_response : Bytes → Result Text Message
read_response (v ∷ id ∷ mb ∷ mh ∷ xs) = get_text xs (λ name a. get_text a (λ domain b.
    get_protocol b (λ p c. get_option c (λ m d. get_text d (λ scheme e. get_port e (λ port f.
      get_text f (λ url g. ok (
        Message.connect_ack (record {
          protocol_version = v;
          tunnel_id = id;
          assigned_subdomain = name;
          domain = domain;
          tunnel_protocol = p;
          message = m;
          limits = record { max_body_bytes = mb; max_headers = mh };
          public_scheme = scheme;
          public_port = port;
          public_url = url;
        })))))))))
read_response _ = err []

read-request_bytes : (r : ConnectRequest) → read_request (request_bytes r) ≡ ok (Message.connect r)
read-request_bytes r = simp (get-put_option, get-put_protocol, get-put) refl

read-response_bytes :
    (r : ConnectResponse) → read_response (response_bytes r) ≡ ok (Message.connect_ack r)
read-response_bytes r = simp (get-put_option, get-put_protocol, get-put_port, get-put) refl

abbrev format_serialize : Message → Result Text Bytes
format_serialize (Message.connect r) = ok (0 ∷ request_bytes r)
format_serialize (Message.connect_ack r) = ok (1 ∷ response_bytes r)
format_serialize (Message.tcp_connect id addr) = ok (2 ∷ id ∷ addr)
format_serialize (Message.tcp_data id payload sequence) = ok (3 ∷ id ∷ sequence ∷ payload)
format_serialize _ = err []

abbrev format_deserialize : Bytes → Result Text Message
format_deserialize (zero ∷ xs) = read_request xs
format_deserialize (suc zero ∷ xs) = read_response xs
format_deserialize (suc (suc zero) ∷ id ∷ addr) = ok (Message.tcp_connect id addr)
format_deserialize (suc (suc (suc n)) ∷ id ∷ sequence ∷ payload) =
    ok (Message.tcp_data id payload sequence)
format_deserialize _ = err []

abbrev pub format : Bincode
format = record { serialize = format_serialize; deserialize = format_deserialize }

abbrev Reads : Message → Bytes → Type 0
Reads m bs = format_deserialize bs ≡ ok m

pub format-RoundTrips : RoundTrips format
format-RoundTrips (Message.connect r) bs h =
    let e : 0 ∷ request_bytes r ≡ bs = cc in
    subst (Reads (Message.connect r)) e (read-request_bytes r)
format-RoundTrips (Message.connect_ack r) bs h =
    let e : 1 ∷ response_bytes r ≡ bs = cc in
    subst (Reads (Message.connect_ack r)) e (read-response_bytes r)
format-RoundTrips (Message.tcp_connect id addr) bs h =
    let e : 2 ∷ id ∷ addr ≡ bs = cc in subst (Reads (Message.tcp_connect id addr)) e refl
format-RoundTrips (Message.tcp_data id payload sequence) bs h =
    let e : 3 ∷ id ∷ sequence ∷ payload ≡ bs = cc in
    subst (Reads (Message.tcp_data id payload sequence)) e refl
format-RoundTrips m bs h = absurd (cc)
