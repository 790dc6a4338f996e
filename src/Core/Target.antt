-- ===== src/Core/Target.antt =====
-- `TargetProfile` of crates/dyninfer-core/src/types.rs. The digest is a hash that the `sha2` package
-- computes over the printed fields: `hash` takes the fields.
use dyninfer.Prelude.{
  ℕ, String, Bool, true, false, ◌&&◌, ◌||◌, not, Option, none, some, List, [], ◌∷◌, ◌++◌, str_eq,
  text_leq, if◌then◌else◌,
}
use dyninfer.Prelude.Sort.{sort}

pub record TargetProfile : Type 0 where
  pub driver : String
  pub device_id : Option ℕ
  pub triple : Option String
  pub architecture : Option String
  pub features : List String
  pub capability_fingerprint : String
  pub device_uri : Option String
  pub device_name : Option String
  pub subgroup_size : Option ℕ
  pub max_workgroup_invocations : Option ℕ
  pub executable_target_flags : List String
  pub verified : Bool

abbrev pub is_some {ℓ} : {A : Type ℓ} → Option A → Bool
is_some none = false
is_some (some a) = true

-- `o.or(p)`
abbrev pub or_else {ℓ} : {A : Type ℓ} → Option A → Option A → Option A
or_else none p = p
or_else (some a) p = some a

unfoldable pub is_compile_ready : TargetProfile → Bool
is_compile_ready t =
    t.verified
    && (not (str_eq t.driver "cuda" || str_eq t.driver "hip" || str_eq t.driver "rocm")
        || is_some t.architecture)

-- the device's URI where it is known and not empty
unfoldable pub runtime_device : TargetProfile → String
runtime_device t = elim t.device_uri [
  | none ↦ t.driver
  | some uri ↦ if str_eq uri "" then t.driver else uri
]

unfoldable pub rocm_target : TargetProfile → Option String
rocm_target t = if str_eq t.driver "hip" || str_eq t.driver "rocm" then t.architecture else none

unfoldable pub cuda_target : TargetProfile → Option String
cuda_target t = if str_eq t.driver "cuda" then t.architecture else none

unfoldable pub gpu_compile_arch : TargetProfile → Option String
unfolding rocm_target cuda_target
gpu_compile_arch t = or_else (rocm_target t) (cuda_target t)

-- `Vec::dedup`: of equal neighbours the first stays
unfoldable pub dedup_from : String → List String → List String
dedup_from x [] = []
dedup_from x (y ∷ ys) =
    let same = dedup_from x ys in let new = y ∷ dedup_from y ys in if str_eq x y then same else new

unfoldable pub dedup : List String → List String
unfolding dedup_from
dedup [] = []
dedup (x ∷ xs) = x ∷ dedup_from x xs

-- `sort()` and then `dedup()`
unfoldable pub normalize : List String → List String
unfolding dedup sort text_leq
normalize xs = dedup (sort text_leq xs)

module _ (hash : TargetProfile → String) where
  unfoldable pub refresh_fingerprint : TargetProfile → TargetProfile
  unfolding normalize
  refresh_fingerprint t =
      let t' = record t {
        features = normalize t.features;
        executable_target_flags = normalize t.executable_target_flags;
      } in
      record t' { capability_fingerprint = hash t' }

  unfoldable pub with_discovered_features : TargetProfile → List String → TargetProfile
  unfolding refresh_fingerprint
  with_discovered_features t features =
      refresh_fingerprint (record t { features = t.features ++ features })

  unfoldable pub with_execution_limits : TargetProfile → Option ℕ → Option ℕ → TargetProfile
  unfolding refresh_fingerprint
  with_execution_limits t subgroup workgroup = refresh_fingerprint (record t {
    subgroup_size = or_else subgroup t.subgroup_size;
    max_workgroup_invocations = or_else workgroup t.max_workgroup_invocations;
  })
