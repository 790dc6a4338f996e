-- ===== src/Safetensors/Container/Indexed.antt =====
-- The index of crates/dyninfer-checkpoint-safetensors/src/container.rs: each tensor in its file and of
-- its exact size, the ranges disjoint, the keys sorted.
use dyninfer.Prelude.{
  from_le_bytes, ℕ, ◌≤◌, ◌<◌, ◌≡◌, not, ◌||◌, Option, List, [], All, length, ok, Ensures,
  then-Ensures, ok-Ensures, ok_or-Ensures, guard-Ensures, self-Ensures, leb, ltb, ◌==◌, leb→le,
  u64_max, arith,
}
use dyninfer.Prelude.Json.{Json, as_object}
use dyninfer.Prelude.Sort.{
  sort, IsSorted, sort-IsSorted, All-sort, Pairwise, Pairwise-sort, Pairwise-of_sort, length-sort,
}
use dyninfer.Checkpoint.Catalog.{RawCheckpointIndex}
use dyninfer.Checkpoint.Entries.{entry_leq, entry_total, entry_trans}
use dyninfer.Checkpoint.Limits.{InspectionLimits, BytesSource, source_len, read_range}
use dyninfer.Safetensors.Container.{
  TensorInfo, spans, start_leq, saturating_total, all_ranges, data_base_of, index,
}
use dyninfer.Safetensors.Container.Entries.{InFile, scan-InFile}
use dyninfer.Safetensors.Container.Overlaps.{
  Disjoint, Disjoint-symm, Apart, Apart-symm, check_overlaps-Apart, Pairwise-Apart, spans_ordered,
  spans-Disjoint,
}

-- what `index` promises of its result
pub record Indexed (source : BytesSource) (limits : InspectionLimits) (i : RawCheckpointIndex)
    : Type 0 where
  pub in_file : All (InFile limits (source_len source)) i.entries
  pub disjoint : Pairwise Disjoint i.entries
  pub by_key : IsSorted entry_leq i.entries
  pub count_fits : length i.entries ≤ limits.max_tensor_count
  pub data_after_header : i.data_offset ≤ source_len source

-- Of a file of fewer than 2 ^ 64 - 1 bytes, an index that is returned lists tensors that have one byte
-- range each, of the exact size of their elements and within the file; the ranges do not meet, keys and
-- shapes are within the limits, the tensors stand in the order of their keys and are no more than the
-- limit, and the data begins within the file.
pub index-Indexed :
    (parse_json : List ℕ → Option Json) (tensor_info : Json → Option TensorInfo)
    (source : BytesSource) (limits : InspectionLimits) (i : RawCheckpointIndex)
    → source_len source < u64_max
    → index parse_json tensor_info source limits ≡ ok i
    → Indexed source limits i
unfolding index
index-Indexed parse_json tensor_info source limits i small e =
    let whole : Ensures (index parse_json tensor_info source limits) (Indexed source limits) =
      then-Ensures (self-Ensures (read_range source 0 8)) (λ prefix u1.
        then-Ensures
          (guard-Ensures
            (not (from_le_bytes prefix == 0 || ltb limits.max_header_bytes (from_le_bytes prefix)))
            _)
          (λ u2 u3.
            then-Ensures
              (guard-Ensures (leb (data_base_of (from_le_bytes prefix)) (source_len source)) _)
              (λ u4 begins.
                then-Ensures (self-Ensures (read_range source 8 (from_le_bytes prefix)))
                  (λ header u5. then-Ensures (ok_or-Ensures (parse_json header) _) (λ value u6.
                    then-Ensures (ok_or-Ensures (as_object value) _) (λ obj u7.
                      then-Ensures
                        (scan-InFile tensor_info limits (data_base_of (from_le_bytes prefix))
                          (source_len source) small obj (record { metadata = []; entries = [] }) tt)
                        (λ s good.
                          then-Ensures
                            (guard-Ensures (leb (length s.entries) limits.max_tensor_count) _)
                            (λ u8 few.
                              then-Ensures
                                (check_overlaps-Apart (sort start_leq (spans s.entries)) (
                                  All-sort start_leq (λ t. t.start ≤ t.stop) (spans s.entries)
                                    (spans_ordered limits (source_len source) s.entries small
                                      good)))
                                (λ u9 before.
                                  then-Ensures
                                    (guard-Ensures
                                      (leb (saturating_total 0 (all_ranges s.entries))
                                        limits.max_total_declared_bytes)
                                      _)
                                    (λ u10 u11. ok-Ensures (record {
                                      in_file =
                                          All-sort entry_leq (InFile limits (source_len source))
                                            s.entries good;
                                      disjoint =
                                          Pairwise-sort entry_leq Disjoint Disjoint-symm s.entries (
                                            spans-Disjoint limits (source_len source) s.entries good
                                              (Pairwise-of_sort start_leq Apart Apart-symm
                                                (spans s.entries)
                                                (Pairwise-Apart (sort start_leq (spans s.entries))
                                                  before)));
                                      by_key =
                                          sort-IsSorted entry_leq entry_total entry_trans s.entries;
                                      count_fits =
                                          let same = length-sort entry_leq s.entries in
                                          let k = leb→le _ _ few in omega arith;
                                      data_after_header = leb→le _ _ begins;
                                    }))))))))))) in
    whole.run i e
