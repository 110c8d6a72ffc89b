-- ===== src/Protocol/Header/Laws.antt =====
-- The headers come back from their bytes.
use oxide_mq.Base.{
  ℕ, ◌≡◌, ◌<◌, ◌≤◌, ◌^◌, refl, [], ◌++◌, append_assoc, length, length-append, arith, if◌then◌else◌,
}
use oxide_mq.Base.Result.{ok}
use oxide_mq.Bytes.{Bytes, put_i16, put_i32}
use oxide_mq.Protocol.Parser.{write_string, write_unsigned_varint}
use oxide_mq.Protocol.ApiKeys.{key_code, key_codes}
use oxide_mq.Protocol.Reader.{IsI16, IsI32, IsOptionalText}
use oxide_mq.Protocol.Reader.Laws.{
  Reads, reads_then, reads_last, reads_nothing, reads_i16, reads_i32, reads_text, length-put_i16,
  length-put_i32,
}
use oxide_mq.Protocol.Flexible.Laws.{reads_guarded, reads_tag_count}
use oxide_mq.Protocol.Header.{
  RequestHeader, ResponseHeader, known_key, carries_tags, decode_fields, decode_request_header,
  encode_request_header, decode_response_header, encode_response_header,
}

pub record IsRequestHeader (h : RequestHeader) : Type 0 where
  pub api_version_in : IsI16 h.api_version
  pub correlation_id_in : IsI32 h.correlation_id
  pub client_id_in : IsOptionalText h.client_id

reads_fields :
    (h : RequestHeader) → IsRequestHeader h → Reads decode_fields (encode_request_header h) h
unfolding decode_fields encode_request_header known_key
reads_fields h fits = reads_then _ (reads_i16 (key_code h.api_key) (key_codes h.api_key).0) (
    rw (key_codes h.api_key).1 (
      reads_then _ (reads_nothing h.api_key) (
        reads_then _ (reads_i16 h.api_version fits.api_version_in) (
          reads_then _ (reads_i32 h.correlation_id fits.correlation_id_in)
            (reads_last _ (reads_text h.client_id fits.client_id_in) refl)))))

enough_bytes : (h : RequestHeader) (more : Bytes) → 8 ≤ length (encode_request_header h ++ more)
unfolding encode_request_header
enough_bytes h more = omega (
  arith,
  length-append
      (put_i16 (key_code h.api_key)
        ++ (put_i16 h.api_version ++ (put_i32 h.correlation_id ++ write_string h.client_id)))
      more,
  length-append (put_i16 (key_code h.api_key))
      (put_i16 h.api_version ++ (put_i32 h.correlation_id ++ write_string h.client_id)),
  length-append (put_i16 h.api_version) (put_i32 h.correlation_id ++ write_string h.client_id),
  length-append (put_i32 h.correlation_id) (write_string h.client_id),
  length-put_i16 (key_code h.api_key),
  length-put_i16 h.api_version,
  length-put_i32 h.correlation_id,
)

-- The header of a request whose numbers and client name fit is read back from its bytes: with the
-- number of tagged fields after them where the decoder looks for one, for ApiVersions from version 3
-- on, and alone otherwise. What follows is left.
pub decode-encode_request_header :
    (h : RequestHeader) (tag_count : ℕ) (rest : Bytes)
    → IsRequestHeader h
    → tag_count < 2 ^ 64
    → decode_request_header (
        encode_request_header h
        ++ ((if carries_tags h then write_unsigned_varint tag_count else []) ++ rest))
      ≡ ok (h, rest)
unfolding decode_request_header
decode-encode_request_header h tag_count rest fits ht =
    rw
      (← append_assoc (encode_request_header h)
        (if carries_tags h then write_unsigned_varint tag_count else []) rest)
      ((reads_guarded 8 (enough_bytes h _) (
          reads_then _ (reads_fields h fits)
            (reads_last _ (reads_tag_count (carries_tags h) tag_count ht) refl))).taken
        rest)

-- The header of an answer is read back from its bytes, and what follows is left.
pub decode-encode_response_header :
    (h : ResponseHeader) (rest : Bytes)
    → IsI32 h.correlation_id
    → decode_response_header (encode_response_header h ++ rest) ≡ ok (h, rest)
unfolding decode_response_header encode_response_header
decode-encode_response_header h rest fits =
    (reads_guarded 4 (omega (arith, length-put_i32 h.correlation_id))
        (reads_last _ (reads_i32 h.correlation_id fits) refl)).taken
      rest
