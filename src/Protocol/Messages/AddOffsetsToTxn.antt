-- ===== src/Protocol/Messages/AddOffsetsToTxn.antt =====
-- crates/oxidemq-protocol/src/messages.rs: AddOffsetsToTxn.
use oxide_mq.Base.{◌≡◌, refl, ◌++◌}
use oxide_mq.Base.Int.{ℤ, IsI64}
use oxide_mq.Base.Result.{ok}
use oxide_mq.Bytes.{Bytes, get_i16, get_i32, get_i64, put_i16, put_i32, put_i64}
use oxide_mq.Broker.Codes.{KafkaErrorCode}
use oxide_mq.Protocol.Reader.{
  Reader, ◌>>=◌, returns, ◌▸◌, get_error, put_error, get_string, put_string, IsI16, IsI32, IsText,
}
use oxide_mq.Protocol.Reader.Laws.{
  Reads, reads_then, reads_last, reads_i16, reads_i32, reads_i64, reads_error, reads_string,
}

pub record AddOffsetsToTxnRequest : Type 0 where
  pub transactional_id : Bytes
  pub producer_id : ℤ
  pub producer_epoch : ℤ
  pub group_id : Bytes

unfoldable pub encode_request : ℤ → AddOffsetsToTxnRequest → Bytes
encode_request _ m =
    put_string m.transactional_id
    ▸ put_i64 m.producer_id
    ▸ put_i16 m.producer_epoch
    ▸ put_string m.group_id

unfoldable pub decode_request : ℤ → Reader AddOffsetsToTxnRequest
decode_request _ = do
  transactional_id ← get_string
  producer_id ← get_i64
  producer_epoch ← get_i16
  group_id ← get_string
  returns (record {
    transactional_id = transactional_id;
    producer_id = producer_id;
    producer_epoch = producer_epoch;
    group_id = group_id;
  })

pub record IsAddOffsetsToTxnRequest (m : AddOffsetsToTxnRequest) : Type 0 where
  pub transactional_id_in : IsText m.transactional_id
  pub producer_id_in : IsI64 m.producer_id
  pub producer_epoch_in : IsI16 m.producer_epoch
  pub group_id_in : IsText m.group_id

reads_request :
    (version : ℤ) (m : AddOffsetsToTxnRequest)
    → IsAddOffsetsToTxnRequest m
    → Reads (decode_request version) (encode_request version m) m
unfolding decode_request encode_request
reads_request version m h = reads_then _ (reads_string _ h.transactional_id_in) (
    reads_then _ (reads_i64 _ h.producer_id_in) (
      reads_then _ (reads_i16 _ h.producer_epoch_in)
        (reads_last _ (reads_string _ h.group_id_in) refl)))

pub record AddOffsetsToTxnResponse : Type 0 where
  pub throttle_time_ms : ℤ
  pub error_code : KafkaErrorCode

unfoldable pub encode_response : ℤ → AddOffsetsToTxnResponse → Bytes
encode_response _ m = put_i32 m.throttle_time_ms ▸ put_error m.error_code

unfoldable pub decode_response : ℤ → Reader AddOffsetsToTxnResponse
decode_response _ = do
  throttle_time_ms ← get_i32
  error_code ← get_error
  returns (record { throttle_time_ms = throttle_time_ms; error_code = error_code })

pub record IsAddOffsetsToTxnResponse (m : AddOffsetsToTxnResponse) : Type 0 where
  pub throttle_time_ms_in : IsI32 m.throttle_time_ms

reads_response :
    (version : ℤ) (m : AddOffsetsToTxnResponse)
    → IsAddOffsetsToTxnResponse m
    → Reads (decode_response version) (encode_response version m) m
unfolding decode_response encode_response
reads_response version m h =
    reads_then _ (reads_i32 _ h.throttle_time_ms_in) (reads_last _ (reads_error _) refl)

-- An AddOffsetsToTxn request and its answer that fit the wire are read back whole from their bytes
-- in any version, whatever follows, which is left.
pub decode-encode_add_offsets_to_txn :
    (version : ℤ) (req : AddOffsetsToTxnRequest) (resp : AddOffsetsToTxnResponse) (rest : Bytes)
    → IsAddOffsetsToTxnRequest req
    → IsAddOffsetsToTxnResponse resp
    → (decode_request version (encode_request version req ++ rest) ≡ ok (req, rest))
      × (decode_response version (encode_response version resp ++ rest) ≡ ok (resp, rest))
decode-encode_add_offsets_to_txn version req resp rest h_req h_resp =
    ((reads_request version req h_req).taken rest, (reads_response version resp h_resp).taken rest)
