-- ===== src/Tests/Messages.antt =====
-- The wire's values and messages at concrete inputs.
use oxide_mq.Base.{◌≡◌, ◌≤◌, refl, [], ◌∷◌, ◌++◌, some, true, false, length, arith, if◌then◌else◌}
use oxide_mq.Base.Int.{pos, negsuc}
use oxide_mq.Base.Result.{ok}
use oxide_mq.Bytes.{Bytes}
use oxide_mq.Broker.Codes.{no_error}
use oxide_mq.Protocol.Parser.{
  is_utf8, utf8_run, utf8_next, lead, read_varint, write_varint, write_unsigned_varint,
}
use oxide_mq.Protocol.Parser.Varint.{read_varint-write_varint}
use oxide_mq.Protocol.Reader.{IsText}
use oxide_mq.Protocol.ApiKeys.{api_versions}
use oxide_mq.Protocol.Header.{
  RequestHeader, decode_request_header, encode_request_header, carries_tags,
}
use oxide_mq.Protocol.Header.Laws.{decode-encode_request_header}
use oxide_mq.Protocol.Messages.Produce
use oxide_mq.Protocol.Messages.Fetch
use oxide_mq.Protocol.Messages.Metadata
use oxide_mq.Protocol.Messages.CreateTopics
use oxide_mq.Protocol.Messages.DescribeAcls

read_varint-write_varint_example :
    (length (write_varint (negsuc 299)) ≤ 10)
    × (read_varint (write_varint (negsuc 299) ++ (7 ∷ [])) ≡ ok (negsuc 299, 7 ∷ []))
read_varint-write_varint_example = read_varint-write_varint (negsuc 299) (7 ∷ []) (omega arith)

-- "t", and a byte that begins no character.
abbrev name : Bytes
name = 116 ∷ []

name-IsText : IsText name
unfolding is_utf8 utf8_run utf8_next lead
name-IsText = (refl, omega arith)

not_text : is_utf8 (0xff ∷ []) ≡ false
unfolding is_utf8 utf8_run utf8_next lead
not_text = refl

abbrev header : RequestHeader
header = record {
  api_key = api_versions;
  api_version = pos 3;
  correlation_id = pos 42;
  client_id = some name;
}

decode-encode_request_header_example :
    decode_request_header (
      encode_request_header header
      ++ ((if carries_tags header then write_unsigned_varint 0 else []) ++ (9 ∷ [])))
    ≡ ok (header, 9 ∷ [])
decode-encode_request_header_example =
    decode-encode_request_header header 0 (9 ∷ [])
      (record {
        api_version_in = omega arith;
        correlation_id_in = omega arith;
        client_id_in = name-IsText;
      })
      (omega arith)

-- Messages.
abbrev produce_request : Produce.ProduceRequest
produce_request = record {
  acks = pos 3;
  timeout_ms = pos 3;
  topic_data =
      record { topic = name; partitions = record { partition = pos 3; records = 1 ∷ 2 ∷ [] } ∷ [] }
      ∷ [];
}

produce_request-IsProduceRequest : Produce.IsProduceRequest produce_request
produce_request-IsProduceRequest = record {
  acks_in = omega arith;
  timeout_ms_in = omega arith;
  topic_data_in = (
    omega arith,
    (
      record {
        topic_in = name-IsText;
        partitions_in =
            (omega arith, (record { partition_in = omega arith; records_in = omega arith }, tt));
      },
      tt,
    ),
  );
}

abbrev produce_response : Produce.ProduceResponse
produce_response = record {
  responses =
      record {
        topic = name;
        partitions =
            record {
              partition = pos 3;
              error_code = no_error;
              base_offset = pos 3;
              log_append_time_ms = pos 3;
              log_start_offset = pos 3;
            }
            ∷ [];
      }
      ∷ [];
  throttle_time_ms = pos 3;
}

produce_response-IsProduceResponse : Produce.IsProduceResponse produce_response
produce_response-IsProduceResponse = record {
  responses_in = (
    omega arith,
    (
      record {
        topic_in = name-IsText;
        partitions_in = (
          omega arith,
          (
            record {
              partition_in = omega arith;
              base_offset_in = omega arith;
              log_append_time_ms_in = omega arith;
              log_start_offset_in = omega arith;
            },
            tt,
          ),
        );
      },
      tt,
    ),
  );
  throttle_time_ms_in = omega arith;
}

decode-encode_produce_example :
    (Produce.decode_request (pos 7) (Produce.encode_request (pos 7) produce_request ++ (9 ∷ []))
      ≡ ok (produce_request, 9 ∷ []))
    × (Produce.decode_response
          (pos 7)
          (Produce.encode_response (pos 7) produce_response ++ (9 ∷ []))
        ≡ ok (Produce.response_at (pos 7) produce_response, 9 ∷ []))
decode-encode_produce_example =
    Produce.decode-encode_produce (pos 7) produce_request produce_response (9 ∷ [])
      produce_request-IsProduceRequest produce_response-IsProduceResponse

abbrev fetch_request : Fetch.FetchRequest
fetch_request = record {
  max_wait_ms = pos 3;
  min_bytes = pos 3;
  max_bytes = pos 3;
  isolation_level = pos 3;
  topics =
      record {
        topic = name;
        partitions =
            record { partition = pos 3; fetch_offset = pos 3; partition_max_bytes = pos 3 } ∷ [];
      }
      ∷ [];
}

fetch_request-IsFetchRequest : Fetch.IsFetchRequest fetch_request
fetch_request-IsFetchRequest = record {
  max_wait_ms_in = omega arith;
  min_bytes_in = omega arith;
  max_bytes_in = omega arith;
  isolation_level_in = omega arith;
  topics_in = (
    omega arith,
    (
      record {
        topic_in = name-IsText;
        partitions_in = (
          omega arith,
          (
            record {
              partition_in = omega arith;
              fetch_offset_in = omega arith;
              partition_max_bytes_in = omega arith;
            },
            tt,
          ),
        );
      },
      tt,
    ),
  );
}

abbrev fetch_response : Fetch.FetchResponse
fetch_response = record {
  throttle_time_ms = pos 3;
  error_code = no_error;
  responses =
      record {
        topic = name;
        partitions =
            record {
              partition_index = pos 3;
              error_code = no_error;
              high_watermark = pos 3;
              last_stable_offset = pos 3;
              records = 1 ∷ 2 ∷ [];
            }
            ∷ [];
      }
      ∷ [];
}

fetch_response-IsFetchResponse : Fetch.IsFetchResponse fetch_response
fetch_response-IsFetchResponse = record {
  throttle_time_ms_in = omega arith;
  responses_in = (
    omega arith,
    (
      record {
        topic_in = name-IsText;
        partitions_in = (
          omega arith,
          (
            record {
              partition_index_in = omega arith;
              high_watermark_in = omega arith;
              last_stable_offset_in = omega arith;
              records_in = omega arith;
            },
            tt,
          ),
        );
      },
      tt,
    ),
  );
}

decode-encode_fetch_example :
    (Fetch.decode_request (pos 7) (Fetch.encode_request (pos 7) fetch_request ++ (9 ∷ []))
      ≡ ok (Fetch.request_at (pos 7) fetch_request, 9 ∷ []))
    × (Fetch.decode_response (pos 7) (Fetch.encode_response (pos 7) fetch_response ++ (9 ∷ []))
        ≡ ok (Fetch.response_at (pos 7) fetch_response, 9 ∷ []))
decode-encode_fetch_example =
    Fetch.decode-encode_fetch (pos 7) fetch_request fetch_response (9 ∷ [])
      fetch_request-IsFetchRequest fetch_response-IsFetchResponse

abbrev metadata_response : Metadata.MetadataResponse
metadata_response = record {
  throttle_time_ms = pos 3;
  brokers = record { node_id = pos 3; host = name; port = pos 3; rack = some name } ∷ [];
  cluster_id = some name;
  controller_id = pos 3;
  topics =
      record {
        error_code = no_error;
        name = name;
        is_internal = true;
        partitions =
            record {
              error_code = no_error;
              partition_index = pos 3;
              leader_id = pos 3;
              leader_epoch = pos 3;
              replica_nodes = pos 1 ∷ [];
              isr_nodes = pos 1 ∷ [];
            }
            ∷ [];
      }
      ∷ [];
}

metadata_response-IsMetadataResponse : Metadata.IsMetadataResponse metadata_response
metadata_response-IsMetadataResponse = record {
  throttle_time_ms_in = omega arith;
  brokers_in = (
    omega arith,
    (
      record {
        node_id_in = omega arith;
        host_in = name-IsText;
        port_in = omega arith;
        rack_in = name-IsText;
      },
      tt,
    ),
  );
  cluster_id_in = name-IsText;
  controller_id_in = omega arith;
  topics_in = (
    omega arith,
    (
      record {
        name_in = name-IsText;
        partitions_in = (
          omega arith,
          (
            record {
              partition_index_in = omega arith;
              leader_id_in = omega arith;
              leader_epoch_in = omega arith;
              replica_nodes_in = (omega arith, (omega arith, tt));
              isr_nodes_in = (omega arith, (omega arith, tt));
            },
            tt,
          ),
        );
      },
      tt,
    ),
  );
}

decode-encode_metadata_example :
    (Metadata.decode_response
        (pos 7)
        (Metadata.encode_response (pos 7) metadata_response ++ (9 ∷ []))
      ≡ ok (Metadata.response_at (pos 7) metadata_response, 9 ∷ []))
decode-encode_metadata_example =
    Metadata.decode-encode_metadata (pos 7) metadata_response (9 ∷ [])
      metadata_response-IsMetadataResponse

abbrev describe_acls_request : DescribeAcls.DescribeAclsRequest
describe_acls_request = record {
  resource_type_filter = pos 3;
  resource_name_filter = some name;
  resource_pattern_type_filter = pos 3;
  principal_filter = some name;
  host_filter = some name;
  operation = pos 3;
  permission_type = pos 3;
}

describe_acls_request-IsDescribeAclsRequest :
    DescribeAcls.IsDescribeAclsRequest describe_acls_request
describe_acls_request-IsDescribeAclsRequest = record {
  resource_type_filter_in = omega arith;
  resource_name_filter_in = name-IsText;
  resource_pattern_type_filter_in = omega arith;
  principal_filter_in = name-IsText;
  host_filter_in = name-IsText;
  operation_in = omega arith;
  permission_type_in = omega arith;
}

abbrev describe_acls_response : DescribeAcls.DescribeAclsResponse
describe_acls_response = record {
  throttle_time_ms = pos 3;
  error_code = no_error;
  error_message = some name;
  resources =
      record {
        resource_type = pos 3;
        resource_name = name;
        resource_pattern_type = pos 3;
        acls =
            record { principal = name; host = name; operation = pos 3; permission_type = pos 3 }
            ∷ [];
      }
      ∷ [];
}

describe_acls_response-IsDescribeAclsResponse :
    DescribeAcls.IsDescribeAclsResponse describe_acls_response
describe_acls_response-IsDescribeAclsResponse = record {
  throttle_time_ms_in = omega arith;
  error_message_in = name-IsText;
  resources_in = (
    omega arith,
    (
      record {
        resource_type_in = omega arith;
        resource_name_in = name-IsText;
        resource_pattern_type_in = omega arith;
        acls_in = (
          omega arith,
          (
            record {
              principal_in = name-IsText;
              host_in = name-IsText;
              operation_in = omega arith;
              permission_type_in = omega arith;
            },
            tt,
          ),
        );
      },
      tt,
    ),
  );
}

decode-encode_describe_acls_example :
    (DescribeAcls.decode_request
        (pos 7)
        (DescribeAcls.encode_request (pos 7) describe_acls_request ++ (9 ∷ []))
      ≡ ok (DescribeAcls.request_at (pos 7) describe_acls_request, 9 ∷ []))
    × (DescribeAcls.decode_response
          (pos 7)
          (DescribeAcls.encode_response (pos 7) describe_acls_response ++ (9 ∷ []))
        ≡ ok (DescribeAcls.response_at (pos 7) describe_acls_response, 9 ∷ []))
decode-encode_describe_acls_example =
    DescribeAcls.decode-encode_describe_acls (pos 7) describe_acls_request describe_acls_response
      (9 ∷ []) describe_acls_request-IsDescribeAclsRequest
      describe_acls_response-IsDescribeAclsResponse

abbrev create_topics_request : CreateTopics.CreateTopicsRequest
create_topics_request = record {
  topics =
      record {
        name = name;
        num_partitions = pos 3;
        replication_factor = pos 3;
        assignments = record { partition_index = pos 0; broker_ids = pos 1 ∷ [] } ∷ [];
        configs = record { name = name; value = some name } ∷ [];
      }
      ∷ [];
  timeout_ms = pos 3;
  validate_only = true;
}

create_topics_request-IsCreateTopicsRequest :
    CreateTopics.IsCreateTopicsRequest create_topics_request
create_topics_request-IsCreateTopicsRequest = record {
  topics_in = (
    omega arith,
    (
      record {
        name_in = name-IsText;
        num_partitions_in = omega arith;
        replication_factor_in = omega arith;
        assignments_in = (
          omega arith,
          (
            record {
              partition_index_in = omega arith;
              broker_ids_in = (omega arith, (omega arith, tt));
            },
            tt,
          ),
        );
        configs_in = (omega arith, (record { name_in = name-IsText; value_in = name-IsText }, tt));
      },
      tt,
    ),
  );
  timeout_ms_in = omega arith;
}

abbrev create_topics_response : CreateTopics.CreateTopicsResponse
create_topics_response = record {
  throttle_time_ms = pos 3;
  topics = record { name = name; error_code = no_error; error_message = some name } ∷ [];
}

create_topics_response-IsCreateTopicsResponse :
    CreateTopics.IsCreateTopicsResponse create_topics_response
create_topics_response-IsCreateTopicsResponse = record {
  throttle_time_ms_in = omega arith;
  topics_in = (omega arith, (record { name_in = name-IsText; error_message_in = name-IsText }, tt));
}

decode-encode_create_topics_example :
    (CreateTopics.decode_request
        (pos 7)
        (CreateTopics.encode_request (pos 7) create_topics_request ++ (9 ∷ []))
      ≡ ok (CreateTopics.request_at (pos 7) create_topics_request, 9 ∷ []))
    × (CreateTopics.decode_response
          (pos 7)
          (CreateTopics.encode_response (pos 7) create_topics_response ++ (9 ∷ []))
        ≡ ok (CreateTopics.response_at (pos 7) create_topics_response, 9 ∷ []))
decode-encode_create_topics_example =
    CreateTopics.decode-encode_create_topics (pos 7) create_topics_request create_topics_response
      (9 ∷ []) create_topics_request-IsCreateTopicsRequest
      create_topics_response-IsCreateTopicsResponse
