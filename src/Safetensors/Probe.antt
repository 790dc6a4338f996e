-- ===== src/Safetensors/Probe.antt =====
-- `SafetensorsContainer::probe` and its provider plan of crates/dyninfer-checkpoint-safetensors/src/container.rs. A
-- path does not end in a slash.
use dyninfer.Prelude.{
  ℕ, ◌+◌, ◌*◌, String, Bool, false, not, ◌&&◌, ◌||◌, ◌==◌, min, Option, none, some, List, [], ◌∷◌,
  first, map, Result, ok, ◌>>=◌, ltb, str_eq, from_le_bytes, if◌then◌else◌,
}
use dyninfer.Prelude.Strings.{ends_with, strip_suffix}
use dyninfer.Checkpoint.Errors.{CheckpointError}
use dyninfer.Checkpoint.Catalog.{RawCheckpointIndex, RuntimeProviderPlan}
use dyninfer.Checkpoint.Limits.{BytesSource, source_len, read_range}

-- whether `path.extension()` is `safetensors`: a file name that starts with its only dot has none
unfoldable pub has_extension : Option String → Bool
unfolding strip_suffix
has_extension none = false
has_extension (some p) =
    ends_with p ".safetensors" && not (str_eq p ".safetensors" || ends_with p "/.safetensors")

abbrev pub opens_object : Option ℕ → Bool
opens_object none = false
opens_object (some b) = b == b'{'

-- what the first byte of the header says
abbrev pub score_of : Option String → List ℕ → ℕ
score_of path header =
    if opens_object (first header) then (if has_extension path then 100 else 80) else 0

-- the score for the length that the file starts with
abbrev pub probe_header : BytesSource → ℕ → Result CheckpointError ℕ
probe_header source header_len =
    if header_len == 0
      || ltb (64 * 1024 * 1024) header_len
      || ltb (source_len source) (8 + header_len)
    then ok 0
    else read_range source 8 (min header_len 64) >>= λ header. ok (score_of source.path header)

unfoldable pub probe_score : BytesSource → Result CheckpointError ℕ
unfolding read_range from_le_bytes has_extension
probe_score source =
    if ltb (source_len source) 8
    then ok 0
    else read_range source 0 8 >>= λ prefix. probe_header source (from_le_bytes prefix)

abbrev pub dense_provider_plan : RawCheckpointIndex → RuntimeProviderPlan
dense_provider_plan i = record {
  kind = "file-mapped-external-parameters";
  scope = "weights";
  file_paths = map (λ f. f.path) i.source_files;
  parameters = [];
  notes = "SafeTensors dense tensors use direct byte ranges" ∷ [];
}
