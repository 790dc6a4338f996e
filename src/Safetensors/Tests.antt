-- ===== src/Safetensors/Tests.antt =====
-- The theorem on the index at a file of one tensor, with readers that stand for serde's.
use dyninfer.Prelude.{ℕ, ◌≡◌, refl, Option, none, some, [], ◌∷◌, List, ok, arith}
use dyninfer.Prelude.Json.{Json, object, field, null, end}
use dyninfer.Core.Scalar.{f32, scalar, little}
use dyninfer.Checkpoint.Catalog.{RawCheckpointIndex}
use dyninfer.Checkpoint.Limits.{BytesSource, default_limits}
use dyninfer.Safetensors.Probe.{probe_score}
use dyninfer.Safetensors.Container.{TensorInfo, index}
use dyninfer.Safetensors.Container.Indexed.{Indexed, index-Indexed}

abbrev parse_json : List ℕ → Option Json
parse_json header = some (object (field "w" null end))

abbrev tensor_info : Json → Option TensorInfo
tensor_info value = some (record { dtype = "F32"; shape = 1 ∷ []; start = 0; stop = 4 })

abbrev file : BytesSource
file = record {
  path = some "w.safetensors";
  data_bytes = 2 ∷ 0 ∷ 0 ∷ 0 ∷ 0 ∷ 0 ∷ 0 ∷ 0 ∷ b'{' ∷ b'}' ∷ 1 ∷ 2 ∷ 3 ∷ 4 ∷ [];
}

abbrev indexed : RawCheckpointIndex
indexed = record {
  container = record { format_id = "safetensors"; version = some 1; magic = some "safetensors" };
  source_files = record { path = "w.safetensors"; size_bytes = 14; content_digest = none } ∷ [];
  metadata = [];
  entries =
      record {
        key = "w";
        source_file_index = 0;
        shape = 1 ∷ [];
        storage_type = scalar f32;
        byte_ranges = record { offset = 10; length = 4 } ∷ [];
        alignment = 1;
        endianness = little;
        metadata = [];
      }
      ∷ [];
  data_offset = 10;
}

indexes : index parse_json tensor_info file default_limits ≡ ok indexed
unfolding index
indexes = refl

index-Indexed_example : Indexed file default_limits indexed
index-Indexed_example =
    index-Indexed parse_json tensor_info file default_limits indexed (omega arith) indexes

probed : probe_score file ≡ ok 100
unfolding probe_score
probed = refl
