-- ===== src/Protocol/Messages/EndTxn.antt =====
-- crates/oxidemq-protocol/src/messages.rs: EndTxn.
use oxide_mq.Base.{◌≡◌, refl, ◌++◌, Bool}
use oxide_mq.Base.Int.{ℤ, IsI64}
use oxide_mq.Base.Result.{ok}
use oxide_mq.Bytes.{Bytes, get_i16, get_i32, get_i64, put_i16, put_i32, put_i64}
use oxide_mq.Broker.Codes.{KafkaErrorCode}
use oxide_mq.Protocol.Reader.{
  Reader, ◌>>=◌, returns, ◌▸◌, put_bool, get_flag, get_error, put_error, get_string, put_string,
  IsI16, IsI32, IsText,
}
use oxide_mq.Protocol.Reader.Laws.{
  Reads, reads_then, reads_last, reads_i16, reads_i32, reads_i64, reads_flag, reads_error,
  reads_string,
}

pub record EndTxnRequest : Type 0 where
  pub transactional_id : Bytes
  pub producer_id : ℤ
  pub producer_epoch : ℤ
  pub committed : Bool

unfoldable pub encode_request : ℤ → EndTxnRequest → Bytes
encode_request _ m =
    put_string m.transactional_id
    ▸ put_i64 m.producer_id
    ▸ put_i16 m.producer_epoch
    ▸ put_bool m.committed

unfoldable pub decode_request : ℤ → Reader EndTxnRequest
decode_request _ = do
  transactional_id ← get_string
  producer_id ← get_i64
  producer_epoch ← get_i16
  committed ← get_flag
  returns (record {
    transactional_id = transactional_id;
    producer_id = producer_id;
    producer_epoch = producer_epoch;
    committed = committed;
  })

pub record IsEndTxnRequest (m : EndTxnRequest) : Type 0 where
  pub transactional_id_in : IsText m.transactional_id
  pub producer_id_in : IsI64 m.producer_id
  pub producer_epoch_in : IsI16 m.producer_epoch

reads_request :
    (version : ℤ) (m : EndTxnRequest)
    → IsEndTxnRequest m
    → Reads (decode_request version) (encode_request version m) m
unfolding decode_request encode_request
reads_request version m h = reads_then _ (reads_string _ h.transactional_id_in) (
    reads_then _ (reads_i64 _ h.producer_id_in)
      (reads_then _ (reads_i16 _ h.producer_epoch_in) (reads_last _ (reads_flag _) refl)))

pub record EndTxnResponse : Type 0 where
  pub throttle_time_ms : ℤ
  pub error_code : KafkaErrorCode

unfoldable pub encode_response : ℤ → EndTxnResponse → Bytes
encode_response _ m = put_i32 m.throttle_time_ms ▸ put_error m.error_code

unfoldable pub decode_response : ℤ → Reader EndTxnResponse
decode_response _ = do
  throttle_time_ms ← get_i32
  error_code ← get_error
  returns (record { throttle_time_ms = throttle_time_ms; error_code = error_code })

pub record IsEndTxnResponse (m : EndTxnResponse) : Type 0 where
  pub throttle_time_ms_in : IsI32 m.throttle_time_ms

reads_response :
    (version : ℤ) (m : EndTxnResponse)
    → IsEndTxnResponse m
    → Reads (decode_response version) (encode_response version m) m
unfolding decode_response encode_response
reads_response version m h =
    reads_then _ (reads_i32 _ h.throttle_time_ms_in) (reads_last _ (reads_error _) refl)

-- An EndTxn request and its answer that fit the wire are read back whole from their bytes in any
-- version, whatever follows, which is left.
pub decode-encode_end_txn :
    (version : ℤ) (req : EndTxnRequest) (resp : EndTxnResponse) (rest : Bytes)
    → IsEndTxnRequest req
    → IsEndTxnResponse resp
    → (decode_request version (encode_request version req ++ rest) ≡ ok (req, rest))
      × (decode_response version (encode_response version resp ++ rest) ≡ ok (resp, rest))
decode-encode_end_txn version req resp rest h_req h_resp =
    ((reads_request version req h_req).taken rest, (reads_response version resp h_resp).taken rest)
