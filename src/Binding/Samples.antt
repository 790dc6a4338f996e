-- ===== src/Binding/Samples.antt =====
-- A catalog with one tensor and the slot for it.
use dyninfer.Prelude.{true, false, none, some, [], ◌∷◌}
use dyninfer.Core.Scalar.{f32, scalar, row_major, little}
use dyninfer.Core.Shape.{Shape}
use dyninfer.Core.Types.{embedding, plain, StorageComponent, ParameterSlot}
use dyninfer.Checkpoint.Catalog.{LogicalParameter, CheckpointCatalog}

abbrev pub table_shape : Shape
table_shape = record { dims = 2 ∷ 4 ∷ [] }

abbrev pub component : StorageComponent
component = record {
  name = "weight";
  key = "token_embd.weight";
  source_file_index = 0;
  shape = table_shape;
  storage_type = scalar f32;
  byte_ranges = record { offset = 64; length = 32 } ∷ [];
  alignment = 32;
  endianness = little;
}

abbrev pub table : LogicalParameter
table = record {
  canonical_name = "token_embd.weight";
  role = embedding;
  logical_type = record { shape = table_shape; element_type = f32 };
  encoding = plain f32 row_major;
  components = component ∷ [];
  aliases = "token_embd.weight" ∷ [];
}

abbrev pub catalog : CheckpointCatalog
catalog = record {
  container = record { format_id = "gguf"; version = some 3; magic = some "GGUF" };
  convention_id = "gguf.native";
  source_files = record { path = "model.gguf"; size_bytes = 96; content_digest = none } ∷ [];
  metadata = [];
  raw_entries = [];
  parameters = table ∷ [];
  schema_fingerprint = record { digest = "d"; entry_count = 1; total_bytes = 32 };
}

abbrev pub slot : ParameterSlot
slot = record {
  id = "tok";
  canonical_name = "token_embd.weight";
  role = embedding;
  expected_type = record { rank = some 2; shape = some table_shape; element_types = f32 ∷ [] };
  optional = false;
  tied_group = some "embedding";
}

abbrev pub extra : ParameterSlot
extra = record {
  id = "out";
  canonical_name = "output.weight";
  role = embedding;
  expected_type = record { rank = none; shape = none; element_types = [] };
  optional = true;
  tied_group = some "embedding";
}
