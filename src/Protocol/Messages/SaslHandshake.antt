-- ===== src/Protocol/Messages/SaslHandshake.antt =====
-- crates/oxidemq-protocol/src/messages.rs: SaslHandshake.
use oxide_mq.Base.{◌≡◌, refl, List, ◌++◌}
use oxide_mq.Base.Int.{ℤ}
use oxide_mq.Base.Result.{ok}
use oxide_mq.Bytes.{Bytes}
use oxide_mq.Broker.Codes.{KafkaErrorCode}
use oxide_mq.Protocol.Reader.{
  Reader, ◌>>=◌, returns, ◌▸◌, get_error, put_error, put_string, put_vec, IsText, IsVec,
}
use oxide_mq.Protocol.Reader.Laws.{Reads, reads_then, reads_last}
use oxide_mq.Protocol.Flexible.{guarded, get_required, get_bound_names}
use oxide_mq.Protocol.Flexible.Laws.{guarded_error, reads_required, reads_bound_names}

pub record SaslHandshakeRequest : Type 0 where
  pub mechanism : Bytes

unfoldable pub encode_request : ℤ → SaslHandshakeRequest → Bytes
encode_request _ m = put_string m.mechanism

unfoldable pub decode_request : ℤ → Reader SaslHandshakeRequest
decode_request _ = do mechanism ← get_required; returns (record { mechanism = mechanism })

pub record IsSaslHandshakeRequest (m : SaslHandshakeRequest) : Type 0 where
  pub mechanism_in : IsText m.mechanism

reads_request :
    (version : ℤ) (m : SaslHandshakeRequest)
    → IsSaslHandshakeRequest m
    → Reads (decode_request version) (encode_request version m) m
unfolding decode_request encode_request
reads_request version m h = reads_last _ (reads_required _ h.mechanism_in) refl

pub record SaslHandshakeResponse : Type 0 where
  pub error_code : KafkaErrorCode
  pub enabled_mechanisms : List Bytes

unfoldable pub encode_response : ℤ → SaslHandshakeResponse → Bytes
encode_response _ m = put_error m.error_code ▸ put_vec put_string m.enabled_mechanisms

unfoldable pub decode_response : ℤ → Reader SaslHandshakeResponse
decode_response _ = do
  error_code ← guarded 2 get_error
  enabled_mechanisms ← get_bound_names
  returns (record { error_code = error_code; enabled_mechanisms = enabled_mechanisms })

pub record IsSaslHandshakeResponse (m : SaslHandshakeResponse) : Type 0 where
  pub enabled_mechanisms_in : IsVec IsText m.enabled_mechanisms

reads_response :
    (version : ℤ) (m : SaslHandshakeResponse)
    → IsSaslHandshakeResponse m
    → Reads (decode_response version) (encode_response version m) m
unfolding decode_response encode_response
reads_response version m h =
    reads_then _ (guarded_error _) (reads_last _ (reads_bound_names _ h.enabled_mechanisms_in) refl)

-- A SaslHandshake request and its answer that fit the wire are read back whole from their bytes in any
-- version, whatever follows, which is left.
pub decode-encode_sasl_handshake :
    (version : ℤ) (req : SaslHandshakeRequest) (resp : SaslHandshakeResponse) (rest : Bytes)
    → IsSaslHandshakeRequest req
    → IsSaslHandshakeResponse resp
    → (decode_request version (encode_request version req ++ rest) ≡ ok (req, rest))
      × (decode_response version (encode_response version resp ++ rest) ≡ ok (resp, rest))
decode-encode_sasl_handshake version req resp rest h_req h_resp =
    ((reads_request version req h_req).taken rest, (reads_response version resp h_resp).taken rest)
