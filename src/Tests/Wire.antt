-- ===== src/Tests/Wire.antt =====
-- The framing at concrete inputs.
use oxide_mq.Base.{◌↔◌, ◌≡◌, refl, [], ◌∷◌, ◌++◌, some, none, arith}
use oxide_mq.Base.Result.{ok}
use oxide_mq.Bytes.{put_i32, put_u32}
use oxide_mq.Base.Int.{pos, ◌≤ℤ◌}
use oxide_mq.Protocol.ApiKeys.{from_i16, key_code, offset_commit}
use oxide_mq.Protocol.Messages.ApiVersions.{ApiVersionKey}
use oxide_mq.Protocol.Advertised.{
  default_supported, entries_of, once, find_version, default_supported-from_i16,
}
use oxide_mq.Protocol.Codec.{decode, encode}
use oxide_mq.Protocol.Codec.Frames.{decode-encode_frame, decode_torn_frame}

decode-encode_frame_example :
    decode (encode (7 ∷ 8 ∷ []) [] ++ (0 ∷ [])) ≡ (ok (some (7 ∷ 8 ∷ [])), 0 ∷ [])
decode-encode_frame_example = decode-encode_frame (7 ∷ 8 ∷ []) (0 ∷ []) (omega arith)

frame_cut : encode (7 ∷ 8 ∷ []) [] ≡ (0 ∷ 0 ∷ 0 ∷ 2 ∷ 7 ∷ []) ++ (8 ∷ [])
unfolding encode put_i32 put_u32
frame_cut = refl

decode_torn_frame_example : decode (0 ∷ 0 ∷ 0 ∷ 2 ∷ 7 ∷ []) ≡ (ok none, 0 ∷ 0 ∷ 0 ∷ 2 ∷ 7 ∷ [])
decode_torn_frame_example =
    decode_torn_frame (7 ∷ 8 ∷ []) (0 ∷ 0 ∷ 0 ∷ 2 ∷ 7 ∷ []) [] 8 (omega arith) frame_cut

default_supported-from_i16_example :
    ((from_i16 (pos 4) ≡ some offset_commit) ↔ (pos 4 ≡ key_code offset_commit))
    × (entries_of (pos 4) default_supported.api_keys ≡ once (from_i16 (pos 4)))
    × ((v : ApiVersionKey) × (find_version (key_code offset_commit) default_supported.api_keys
          ≡ some v)
        × (v.min_version ≡ pos 0)
        × (v.min_version ≤ℤ v.max_version))
default_supported-from_i16_example = default_supported-from_i16 (pos 4) offset_commit
