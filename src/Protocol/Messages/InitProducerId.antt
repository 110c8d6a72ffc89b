-- ===== src/Protocol/Messages/InitProducerId.antt =====
-- crates/oxidemq-protocol/src/messages.rs: InitProducerId.
use oxide_mq.Base.{◌≡◌, refl, ◌++◌, Option, if◌then◌else◌}
use oxide_mq.Base.Int.{ℤ, pos, negsuc, leb_ℤ, IsI64}
use oxide_mq.Base.Result.{ok}
use oxide_mq.Bytes.{Bytes, get_i16, get_i32, get_i64, put_i16, put_i32, put_i64}
use oxide_mq.Broker.Codes.{KafkaErrorCode}
use oxide_mq.Protocol.Parser.{read_string, write_string}
use oxide_mq.Protocol.Reader.{
  Reader, ◌>>=◌, returns, ◌▸◌, read_if, write_if, get_error, put_error, IsI16, IsI32,
  IsOptionalText,
}
use oxide_mq.Protocol.Reader.Laws.{
  Reads, reads_then, reads_last, reads_if, reads_i16, reads_i32, reads_i64, reads_error, reads_text,
}

pub record InitProducerIdRequest : Type 0 where
  pub transactional_id : Option Bytes
  pub transaction_timeout_ms : ℤ
  pub producer_id : ℤ
  pub producer_epoch : ℤ

unfoldable pub encode_request : ℤ → InitProducerIdRequest → Bytes
encode_request version m =
    write_string m.transactional_id
    ▸ put_i32 m.transaction_timeout_ms
    ▸ write_if (leb_ℤ (pos 3) version) (put_i64 m.producer_id)
    ▸ write_if (leb_ℤ (pos 3) version) (put_i16 m.producer_epoch)

unfoldable pub decode_request : ℤ → Reader InitProducerIdRequest
decode_request version = do
  transactional_id ← read_string
  transaction_timeout_ms ← get_i32
  producer_id ← read_if (leb_ℤ (pos 3) version) get_i64 (negsuc 0)
  producer_epoch ← read_if (leb_ℤ (pos 3) version) get_i16 (negsuc 0)
  returns (record {
    transactional_id = transactional_id;
    transaction_timeout_ms = transaction_timeout_ms;
    producer_id = producer_id;
    producer_epoch = producer_epoch;
  })

pub record IsInitProducerIdRequest (m : InitProducerIdRequest) : Type 0 where
  pub transactional_id_in : IsOptionalText m.transactional_id
  pub transaction_timeout_ms_in : IsI32 m.transaction_timeout_ms
  pub producer_id_in : IsI64 m.producer_id
  pub producer_epoch_in : IsI16 m.producer_epoch

-- What a version carries of it; the decoder's defaults stand for the rest.
unfoldable pub request_at : ℤ → InitProducerIdRequest → InitProducerIdRequest
request_at version m = record {
  transactional_id = m.transactional_id;
  transaction_timeout_ms = m.transaction_timeout_ms;
  producer_id = if leb_ℤ (pos 3) version then m.producer_id else negsuc 0;
  producer_epoch = if leb_ℤ (pos 3) version then m.producer_epoch else negsuc 0;
}

reads_request :
    (version : ℤ) (m : InitProducerIdRequest)
    → IsInitProducerIdRequest m
    → Reads (decode_request version) (encode_request version m) (request_at version m)
unfolding decode_request encode_request request_at
reads_request version m h = reads_then _ (reads_text _ h.transactional_id_in) (
    reads_then _ (reads_i32 _ h.transaction_timeout_ms_in) (
      reads_then _ (reads_if _ _ (reads_i64 _ h.producer_id_in))
        (reads_last _ (reads_if _ _ (reads_i16 _ h.producer_epoch_in)) refl)))

pub record InitProducerIdResponse : Type 0 where
  pub throttle_time_ms : ℤ
  pub error_code : KafkaErrorCode
  pub producer_id : ℤ
  pub producer_epoch : ℤ

unfoldable pub encode_response : ℤ → InitProducerIdResponse → Bytes
encode_response _ m =
    put_i32 m.throttle_time_ms
    ▸ put_error m.error_code
    ▸ put_i64 m.producer_id
    ▸ put_i16 m.producer_epoch

unfoldable pub decode_response : ℤ → Reader InitProducerIdResponse
decode_response _ = do
  throttle_time_ms ← get_i32
  error_code ← get_error
  producer_id ← get_i64
  producer_epoch ← get_i16
  returns (record {
    throttle_time_ms = throttle_time_ms;
    error_code = error_code;
    producer_id = producer_id;
    producer_epoch = producer_epoch;
  })

pub record IsInitProducerIdResponse (m : InitProducerIdResponse) : Type 0 where
  pub throttle_time_ms_in : IsI32 m.throttle_time_ms
  pub producer_id_in : IsI64 m.producer_id
  pub producer_epoch_in : IsI16 m.producer_epoch

reads_response :
    (version : ℤ) (m : InitProducerIdResponse)
    → IsInitProducerIdResponse m
    → Reads (decode_response version) (encode_response version m) m
unfolding decode_response encode_response
reads_response version m h = reads_then _ (reads_i32 _ h.throttle_time_ms_in) (
    reads_then _ (reads_error _) (
      reads_then _ (reads_i64 _ h.producer_id_in)
        (reads_last _ (reads_i16 _ h.producer_epoch_in) refl)))

-- An InitProducerId request and its answer that fit the wire are read back from their bytes in any
-- version, whatever follows, which is left, with what that version carries.
pub decode-encode_init_producer_id :
    (version : ℤ) (req : InitProducerIdRequest) (resp : InitProducerIdResponse) (rest : Bytes)
    → IsInitProducerIdRequest req
    → IsInitProducerIdResponse resp
    → (decode_request version (encode_request version req ++ rest)
        ≡ ok (request_at version req, rest))
      × (decode_response version (encode_response version resp ++ rest) ≡ ok (resp, rest))
decode-encode_init_producer_id version req resp rest h_req h_resp =
    ((reads_request version req h_req).taken rest, (reads_response version resp h_resp).taken rest)
