-- ===== src/Protocol/Messages/SaslAuthenticate.antt =====
-- crates/oxidemq-protocol/src/messages.rs: SaslAuthenticate.
-- An `if` over the version with several fields under it is that test on each of them.
use oxide_mq.Base.{◌≡◌, refl, ◌++◌, Option, if◌then◌else◌}
use oxide_mq.Base.Int.{ℤ, pos, leb_ℤ, IsI64}
use oxide_mq.Base.Result.{ok}
use oxide_mq.Bytes.{Bytes, get_i64, put_i64}
use oxide_mq.Broker.Codes.{KafkaErrorCode}
use oxide_mq.Protocol.Reader.{
  Reader, ◌>>=◌, returns, ◌▸◌, read_if, write_if, get_error, put_error, IsOptionalText, IsData,
}
use oxide_mq.Protocol.Reader.Laws.{Reads, reads_then, reads_last, reads_if}
use oxide_mq.Protocol.Flexible.{
  guarded, get_text, put_text, get_blob, put_blob, skip_tags, put_tags,
}
use oxide_mq.Protocol.Flexible.Laws.{
  guarded_i64, guarded_error, reads_any_text, reads_any_blob, reads_tags,
}

pub record SaslAuthenticateRequest : Type 0 where
  pub auth_bytes : Bytes

unfoldable pub encode_request : ℤ → SaslAuthenticateRequest → Bytes
encode_request version m =
    put_blob (leb_ℤ (pos 2) version) m.auth_bytes ▸ put_tags (leb_ℤ (pos 2) version)

unfoldable pub decode_request : ℤ → Reader SaslAuthenticateRequest
decode_request version = do
  auth_bytes ← get_blob (leb_ℤ (pos 2) version)
  _ ← skip_tags (leb_ℤ (pos 2) version)
  returns (record { auth_bytes = auth_bytes })

pub record IsSaslAuthenticateRequest (m : SaslAuthenticateRequest) : Type 0 where
  pub auth_bytes_in : IsData m.auth_bytes

reads_request :
    (version : ℤ) (m : SaslAuthenticateRequest)
    → IsSaslAuthenticateRequest m
    → Reads (decode_request version) (encode_request version m) m
unfolding decode_request encode_request
reads_request version m h =
    reads_then _ (reads_any_blob _ _ h.auth_bytes_in) (reads_last _ (reads_tags _) refl)

pub record SaslAuthenticateResponse : Type 0 where
  pub error_code : KafkaErrorCode
  pub error_message : Option Bytes
  pub auth_bytes : Bytes
  pub session_lifetime_ms : ℤ

unfoldable pub encode_response : ℤ → SaslAuthenticateResponse → Bytes
encode_response version m =
    put_error m.error_code
    ▸ put_text (leb_ℤ (pos 2) version) m.error_message
    ▸ put_blob (leb_ℤ (pos 2) version) m.auth_bytes
    ▸ write_if (leb_ℤ (pos 1) version) (put_i64 m.session_lifetime_ms)
    ▸ put_tags (leb_ℤ (pos 2) version)

unfoldable pub decode_response : ℤ → Reader SaslAuthenticateResponse
decode_response version = do
  error_code ← guarded 2 get_error
  error_message ← get_text (leb_ℤ (pos 2) version)
  auth_bytes ← get_blob (leb_ℤ (pos 2) version)
  session_lifetime_ms ← read_if (leb_ℤ (pos 1) version) (guarded 8 get_i64) (pos 0)
  _ ← skip_tags (leb_ℤ (pos 2) version)
  returns (record {
    error_code = error_code;
    error_message = error_message;
    auth_bytes = auth_bytes;
    session_lifetime_ms = session_lifetime_ms;
  })

pub record IsSaslAuthenticateResponse (m : SaslAuthenticateResponse) : Type 0 where
  pub error_message_in : IsOptionalText m.error_message
  pub auth_bytes_in : IsData m.auth_bytes
  pub session_lifetime_ms_in : IsI64 m.session_lifetime_ms

-- What a version carries of it; the decoder's defaults stand for the rest.
unfoldable pub response_at : ℤ → SaslAuthenticateResponse → SaslAuthenticateResponse
response_at version m = record {
  error_code = m.error_code;
  error_message = m.error_message;
  auth_bytes = m.auth_bytes;
  session_lifetime_ms = if leb_ℤ (pos 1) version then m.session_lifetime_ms else pos 0;
}

reads_response :
    (version : ℤ) (m : SaslAuthenticateResponse)
    → IsSaslAuthenticateResponse m
    → Reads (decode_response version) (encode_response version m) (response_at version m)
unfolding decode_response encode_response response_at
reads_response version m h = reads_then _ (guarded_error _) (
    reads_then _ (reads_any_text _ _ h.error_message_in) (
      reads_then _ (reads_any_blob _ _ h.auth_bytes_in) (
        reads_then _ (reads_if _ _ (guarded_i64 _ h.session_lifetime_ms_in))
          (reads_last _ (reads_tags _) refl))))

-- A SaslAuthenticate request and its answer that fit the wire are read back from their bytes in any version,
-- whatever follows, which is left, with what that version carries.
pub decode-encode_sasl_authenticate :
    (version : ℤ) (req : SaslAuthenticateRequest) (resp : SaslAuthenticateResponse) (rest : Bytes)
    → IsSaslAuthenticateRequest req
    → IsSaslAuthenticateResponse resp
    → (decode_request version (encode_request version req ++ rest) ≡ ok (req, rest))
      × (decode_response version (encode_response version resp ++ rest)
          ≡ ok (response_at version resp, rest))
decode-encode_sasl_authenticate version req resp rest h_req h_resp =
    ((reads_request version req h_req).taken rest, (reads_response version resp h_resp).taken rest)
