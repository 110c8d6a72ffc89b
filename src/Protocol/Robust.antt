-- ===== src/Protocol/Robust.antt =====
-- The requests whose decoders look at the bytes left before each read: whatever a client sends, they
-- answer with a request or an error.
use oxide_mq.Base.{◌≢◌, false}
use oxide_mq.Base.Int.{ℤ, pos, pos_part, leb_ℤ}
use oxide_mq.Base.Result.{panic}
use oxide_mq.Bytes.{Bytes}
use oxide_mq.Protocol.Flexible.Checked.{
  NeverPanics, calm_then, calm_returns, calm_guarded, takes_i8, takes_i16, takes_i32, takes_i64,
  takes_bool, takes_pair, calm_string, calm_read_string, calm_blob, calm_tags, calm_checked,
  calm_lenient, calm_names, calm_required, calm_rest_bool, calm_ids, calm_if, calm_sizes_then,
}
use oxide_mq.Protocol.Messages.DeleteTopics
use oxide_mq.Protocol.Messages.DescribeGroups
use oxide_mq.Protocol.Messages.DeleteGroups
use oxide_mq.Protocol.Messages.AlterConfigs
use oxide_mq.Protocol.Messages.DeleteRecords
use oxide_mq.Protocol.Messages.CreateTopics
use oxide_mq.Protocol.Messages.SaslHandshake
use oxide_mq.Protocol.Messages.SaslAuthenticate

delete_topics : (version : ℤ) → NeverPanics (DeleteTopics.decode_request version)
unfolding DeleteTopics.decode_request
delete_topics version =
    calm_then _ calm_names (λ _. calm_then _ (calm_guarded 4 takes_i32) (λ _. calm_returns _))

describe_groups : (version : ℤ) → NeverPanics (DescribeGroups.decode_request version)
unfolding DescribeGroups.decode_request
describe_groups version = calm_then _ calm_names (λ _. calm_returns _)

delete_groups : (version : ℤ) → NeverPanics (DeleteGroups.decode_request version)
unfolding DeleteGroups.decode_request
delete_groups version = calm_then _ calm_names (λ _. calm_returns _)

-- A name with a value that may be absent.
config : NeverPanics AlterConfigs.decode_config
unfolding AlterConfigs.decode_config
config = calm_then _ calm_string (λ _. calm_then _ calm_read_string (λ _. calm_returns _))

resource : NeverPanics AlterConfigs.decode_resource
unfolding AlterConfigs.decode_resource
resource =
    calm_then _ (calm_guarded 1 takes_i8)
      (λ _. calm_then _ calm_string (λ _. calm_then _ (calm_checked config) (λ _. calm_returns _)))

alter_configs : (version : ℤ) → NeverPanics (AlterConfigs.decode_request version)
unfolding AlterConfigs.decode_request
alter_configs version =
    calm_then _ (calm_checked resource)
      (λ _. calm_then _ (calm_guarded 1 takes_bool) (λ _. calm_returns _))

deleted_partition : NeverPanics DeleteRecords.decode_partition
unfolding DeleteRecords.decode_partition
deleted_partition =
    calm_then _ (calm_guarded 12 (takes_pair takes_i32 takes_i64)) (λ _. calm_returns _)

deleted_topic : NeverPanics DeleteRecords.decode_topic
unfolding DeleteRecords.decode_topic
deleted_topic =
    calm_then _ calm_string
      (λ _. calm_then _ (calm_checked deleted_partition) (λ _. calm_returns _))

delete_records : (version : ℤ) → NeverPanics (DeleteRecords.decode_request version)
unfolding DeleteRecords.decode_request
delete_records version =
    calm_then _ (calm_checked deleted_topic)
      (λ _. calm_then _ (calm_guarded 4 takes_i32) (λ _. calm_returns _))

assignment : NeverPanics CreateTopics.decode_assignment
unfolding CreateTopics.decode_assignment
assignment =
    calm_sizes_then _ (λ a z h. calm_then _ (calm_ids (pos_part z) h) (λ _. calm_returns _))

topic_config : NeverPanics CreateTopics.decode_config
unfolding CreateTopics.decode_config
topic_config = calm_then _ calm_string (λ _. calm_then _ calm_read_string (λ _. calm_returns _))

created_topic : NeverPanics CreateTopics.decode_topic
unfolding CreateTopics.decode_topic
created_topic = calm_then _ calm_string (λ _.
    calm_then _ (calm_guarded 6 (takes_pair takes_i32 takes_i16)) (λ _.
      calm_then _ (calm_lenient assignment)
        (λ _. calm_then _ (calm_lenient topic_config) (λ _. calm_returns _))))

create_topics : (version : ℤ) → NeverPanics (CreateTopics.decode_request version)
unfolding CreateTopics.decode_request
create_topics version = calm_then _ (calm_checked created_topic) (λ _.
    calm_then _ (calm_guarded 4 takes_i32) (λ _.
      calm_then _ (calm_if (leb_ℤ (pos 1) version) (calm_rest_bool false) (calm_returns false))
        (λ _. calm_returns _)))

sasl_handshake : (version : ℤ) → NeverPanics (SaslHandshake.decode_request version)
unfolding SaslHandshake.decode_request
sasl_handshake version = calm_then _ calm_required (λ _. calm_returns _)

sasl_authenticate : (version : ℤ) → NeverPanics (SaslAuthenticate.decode_request version)
unfolding SaslAuthenticate.decode_request
sasl_authenticate version =
    calm_then _ (calm_blob (leb_ℤ (pos 2) version))
      (λ _. calm_then _ (calm_tags (leb_ℤ (pos 2) version)) (λ _. calm_returns _))

-- On any bytes and in any version the decoders of the CreateTopics, DeleteTopics, DeleteRecords,
-- AlterConfigs, DescribeGroups, DeleteGroups, SaslHandshake and SaslAuthenticate requests do not
-- panic: a truncated or malformed request is an error.
pub requests_total :
    (version : ℤ) (src : Bytes)
    → (CreateTopics.decode_request version src ≢ panic)
      × (DeleteTopics.decode_request version src ≢ panic)
      × (DeleteRecords.decode_request version src ≢ panic)
      × (AlterConfigs.decode_request version src ≢ panic)
      × (DescribeGroups.decode_request version src ≢ panic)
      × (DeleteGroups.decode_request version src ≢ panic)
      × (SaslHandshake.decode_request version src ≢ panic)
      × (SaslAuthenticate.decode_request version src ≢ panic)
requests_total version src = (
  (create_topics version).calm src,
  (delete_topics version).calm src,
  (delete_records version).calm src,
  (alter_configs version).calm src,
  (describe_groups version).calm src,
  (delete_groups version).calm src,
  (sasl_handshake version).calm src,
  (sasl_authenticate version).calm src,
)
