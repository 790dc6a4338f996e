-- ===== src/Kernel/Reasons/Eligible.antt =====
-- A candidate has no rejection reason exactly where it is eligible, said without the code's tests.
use dyninfer.Prelude.{
  ℕ, ◌%◌, ◌<◌, ◌≡◌, ◌↔◌, ◌⊎◌, inl, inr, refl, Bool, true, false, ◌||◌, Option, none, some, List, [],
  ◌∷◌, ◌++◌, Memᴰ, All, any, any-mem, any-true, is_empty, get_elem?, String, str_eq, str_eq_iff,
  arith, ◌==◌, ==_iff,
}
use dyninfer.Prelude.Eq.{contains_iff, nat_eq, string_eq, option_eq, option_beq_iff}
use dyninfer.Core.Scalar.{scalar_eq}
use dyninfer.Core.Shape.{Shape, rank}
use dyninfer.Core.Ir.{mode_eq}
use dyninfer.Core.Target.{TargetProfile}
use dyninfer.Kernel.{
  encoding_eq, orientation_eq, is_precision_sensitive, AxisMultiple, is_production,
  KernelCandidateDescriptor, KernelRequest, ProductionReadiness, production, prototype,
  CandidateRejectionReason, rank_mismatch,
}
use dyninfer.Kernel.Reasons.{
  unless, architecture_listed, feature_reasons, rank_reasons, axis_reason, multiple_reasons,
  axis_reasons, type_reasons, rejection_reasons,
}

abbrev pub Divides : List ℕ → AxisMultiple → Type 0
Divides dims m =
    (d : ℕ) → get_elem? dims m.axis ≡ some d → (0 < m.multiple_of) × (d % m.multiple_of ≡ 0)

pub record IsEligible (c : KernelCandidateDescriptor) (r : KernelRequest) (t : TargetProfile)
    : Type 0 where
  pub encoding : c.encoding ≡ r.encoding
  pub ready : c.readiness ≡ production
  pub mode : Memᴰ r.mode c.modes
  pub backend : Memᴰ "any" c.target.backends ⊎ Memᴰ t.driver c.target.backends
  pub architecture :
      (c.target.exact_architectures ≡ [])
      ⊎ ((a : String) × (t.architecture ≡ some a) × Memᴰ a c.target.exact_architectures)
  pub features : All (λ f. Memᴰ f t.features) c.target.required_features
  pub logical_rank :
      (s : Shape) (n : ℕ) → r.logical_shape ≡ some s → c.shape.logical_rank ≡ some n → rank s ≡ n
  pub multiples :
      (s : Shape) → r.logical_shape ≡ some s → All (Divides s.dims) c.shape.axis_multiples
  pub orientation : (c.orientations ≡ []) ⊎ Memᴰ r.orientation c.orientations
  pub types :
      (is_empty c.input_types ≡ false)
      × (is_empty c.output_types ≡ false)
      × (is_empty c.accumulator_types ≡ false)
  pub precision :
      is_precision_sensitive r.operation ≡ true
      → Memᴰ r.precision_policy.sensitive_internal_type c.accumulator_types

append-eq-nil : (xs ys : List CandidateRejectionReason) → (xs ++ ys ≡ []) ↔ ((xs ≡ []) × (ys ≡ []))
append-eq-nil [] ys = (λ h. (refl, h), λ h. h.1)
append-eq-nil (x ∷ xs) ys = (λ h. absurd (cc), λ h. absurd (cc (h.0)))

unless-eq-nil : (b : Bool) (x : CandidateRejectionReason) → (unless b x ≡ []) ↔ (b ≡ true)
unless-eq-nil true x = (λ h. refl, λ h. refl)
unless-eq-nil false x = (λ h. cc, λ h. cc)

-- both halves of a list of checks
split :
    {P Q : Type 0} (xs ys : List CandidateRejectionReason)
    → (xs ≡ []) ↔ P
    → (ys ≡ []) ↔ Q
    → (xs ++ ys ≡ []) ↔ (P × Q)
split xs ys p q =
    let e = append-eq-nil xs ys in
    (λ h. (p.0 (e.0 h).0, q.0 (e.0 h).1), λ h. e.1 (p.1 h.0, q.1 h.1))

check :
    {P : Type 0} (b : Bool) (x : CandidateRejectionReason) → (b ≡ true) ↔ P → (unless b x ≡ []) ↔ P
check b x p = let e = unless-eq-nil b x in (λ h. p.0 (e.0 h), λ h. e.1 (p.1 h))

features-eq-nil :
    (features fs : List String) → (feature_reasons features fs ≡ []) ↔ All (λ f. Memᴰ f features) fs
unfolding feature_reasons
features-eq-nil features [] = (λ h. tt, λ h. refl)
features-eq-nil features (f ∷ fs) =
    split _ _ (check _ _ (contains_iff features f)) (features-eq-nil features fs)

axis_reason-eq-nil :
    (m : AxisMultiple) (o : Option ℕ)
    → (axis_reason m o ≡ [])
      ↔ ((d : ℕ) → o ≡ some d → (0 < m.multiple_of) × (d % m.multiple_of ≡ 0))
axis_reason-eq-nil m none = (λ h d e. absurd (cc), λ h. refl)
axis_reason-eq-nil m (some d) =
    (λ h d' e. let p : d ≡ d' = cc in rw (← p) (ground arith), λ h. ground (arith, h d refl))

multiples-eq-nil :
    (dims : List ℕ) (ms : List AxisMultiple)
    → (multiple_reasons dims ms ≡ []) ↔ All (Divides dims) ms
unfolding multiple_reasons
multiples-eq-nil dims [] = (λ h. tt, λ h. refl)
multiples-eq-nil dims (m ∷ ms) =
    split _ _ (axis_reason-eq-nil m (get_elem? dims m.axis)) (multiples-eq-nil dims ms)

-- What is asked of a shape that may be absent.
abbrev RankFits : Option Shape → Option ℕ → Type 0
RankFits o p = (s : Shape) (n : ℕ) → o ≡ some s → p ≡ some n → rank s ≡ n

rank-eq-nil : (o : Option Shape) (p : Option ℕ) → (rank_reasons o p ≡ []) ↔ RankFits o p
unfolding rank_reasons
rank-eq-nil none p = (λ h s n e f. absurd (cc), λ h. refl)
rank-eq-nil (some s) none = (λ h s n e f. absurd (cc), λ h. refl)
rank-eq-nil (some s) (some n) =
    let e = check (rank s == n) (rank_mismatch n (rank s)) (==_iff (rank s) n) in
    (λ h s' n' p q. cc (e.0 h), λ h. e.1 (h s n refl refl))

abbrev Divided : Option Shape → List AxisMultiple → Type 0
Divided o ms = (s : Shape) → o ≡ some s → All (Divides s.dims) ms

axes-eq-nil : (o : Option Shape) (ms : List AxisMultiple) → (axis_reasons o ms ≡ []) ↔ Divided o ms
unfolding axis_reasons
axes-eq-nil none ms = (λ h s e. absurd (cc), λ h. refl)
axes-eq-nil (some s) ms =
    let e = multiples-eq-nil s.dims ms in
    (λ h s' p. let q : s ≡ s' = cc in rw (← q) (e.0 h), λ h. e.1 (h s refl))

or-eq-true {ℓ κ} :
    {P : Type ℓ} {Q : Type κ} (a b : Bool)
    → (a ≡ true) ↔ P
    → (b ≡ true) ↔ Q
    → ((a || b) ≡ true) ↔ (P ⊎ Q)
or-eq-true true b p q = (λ h. inl (p.0 refl), λ h. refl)
or-eq-true false b p q =
    (λ h. inr (q.0 h), λ h. elim h [ inl x ↦ absurd (cc (p.1 x)) | inr y ↦ q.1 y ])

empty-eq-true {ℓ} : {A : Type ℓ} (xs : List A) → (is_empty xs ≡ true) ↔ (xs ≡ [])
empty-eq-true [] = (λ h. refl, λ h. refl)
empty-eq-true (x ∷ xs) = (λ h. absurd (cc), λ h. absurd (cc))

backends-eq-true :
    (driver : String) (bs : List String)
    → (any (λ b. str_eq b "any" || str_eq b driver) bs ≡ true) ↔ (Memᴰ "any" bs ⊎ Memᴰ driver bs)
backends-eq-true driver bs =
    let test = λ (b : String). str_eq b "any" || str_eq b driver in
    (
      λ h.
          let (b, m, e) = any-true test bs h in
          elim ((or-eq-true _ _ (str_eq_iff b "any") (str_eq_iff b driver)).0 e) [
            | inl p ↦ inl (rw (← p) m)
            | inr p ↦ inr (rw (← p) m)
          ],
      λ h. elim h [
        | inl m ↦ any-mem test m refl
        | inr m ↦ any-mem test m (ground (arith, (str_eq_iff driver driver).1 refl))
      ],
    )

listed-eq-true :
    (exact : List String) (o : Option String)
    → (architecture_listed exact o ≡ true) ↔ ((a : String) × (o ≡ some a) × Memᴰ a exact)
listed-eq-true exact none = (λ h. absurd (cc), λ h. absurd (cc (h.1)))
listed-eq-true exact (some a) =
    let e = contains_iff exact a in
    (λ h. (a, refl, e.0 h), λ h. let p : a ≡ h.0 = cc (h.1) in e.1 (rw p (h.2)))

ready-eq-true : (p : ProductionReadiness) → (is_production p ≡ true) ↔ (p ≡ production)
ready-eq-true prototype = (λ h. absurd (cc), λ h. absurd (cc))
ready-eq-true production = (λ h. refl, λ h. refl)

-- `MissingTypeChoice` and `PrecisionFloor`
abbrev Typed : KernelCandidateDescriptor → KernelRequest → Type 0
Typed c r =
    (is_empty c.input_types ≡ false)
    × (is_empty c.output_types ≡ false)
    × (is_empty c.accumulator_types ≡ false)
    × (is_precision_sensitive r.operation ≡ true
        → Memᴰ r.precision_policy.sensitive_internal_type c.accumulator_types)

types-eq-nil :
    (c : KernelCandidateDescriptor) (r : KernelRequest) → (type_reasons c r ≡ []) ↔ Typed c r
unfolding type_reasons
types-eq-nil c r =
    let p = contains_iff c.accumulator_types r.precision_policy.sensitive_internal_type in
    (
      λ h. (ground arith, ground arith, ground arith, λ s. p.0 (ground arith)),
      λ h. ground (arith, p.1, h.3),
    )

-- The checks in their order.
abbrev Checked : KernelCandidateDescriptor → KernelRequest → TargetProfile → Type 0
Checked c r t =
    (c.encoding ≡ r.encoding)
    × ((c.readiness ≡ production)
        × (Memᴰ r.mode c.modes
            × ((Memᴰ "any" c.target.backends ⊎ Memᴰ t.driver c.target.backends)
                × (((c.target.exact_architectures ≡ [])
                      ⊎ ((a : String) × (t.architecture ≡ some a)
                          × Memᴰ a c.target.exact_architectures))
                    × (All (λ f. Memᴰ f t.features) c.target.required_features
                        × (RankFits r.logical_shape c.shape.logical_rank
                            × (Divided r.logical_shape c.shape.axis_multiples
                                × (((c.orientations ≡ []) ⊎ Memᴰ r.orientation c.orientations)
                                    × Typed c r))))))))

reasons-eq-nil :
    (c : KernelCandidateDescriptor) (r : KernelRequest) (t : TargetProfile)
    → (rejection_reasons c r t ≡ []) ↔ Checked c r t
unfolding rejection_reasons
reasons-eq-nil c r t = split _ _ (check _ _ (option_beq_iff c.encoding r.encoding)) (
    split _ _ (check _ _ (ready-eq-true c.readiness)) (
      split _ _ (check _ _ (contains_iff c.modes r.mode)) (
        split _ _ (check _ _ (backends-eq-true t.driver c.target.backends)) (
          split _ _
            (check _ _ (
              or-eq-true _ _ (empty-eq-true c.target.exact_architectures)
                (listed-eq-true c.target.exact_architectures t.architecture)))
            (split _ _ (features-eq-nil t.features c.target.required_features) (
              split _ _ (rank-eq-nil r.logical_shape c.shape.logical_rank) (
                split _ _ (axes-eq-nil r.logical_shape c.shape.axis_multiples) (
                  split _ _
                    (check _ _ (
                      or-eq-true _ _ (empty-eq-true c.orientations)
                        (contains_iff c.orientations r.orientation)))
                    (types-eq-nil c r)))))))))

-- The list of reasons is empty exactly for an eligible candidate: the encodings agree, the candidate
-- is for production and for the mode, the backend is listed or any, the architecture is listed or
-- none is, every required feature is there, a known shape has the rank and divisible axes, the
-- orientation is listed or none is, each type list has a choice, and a sensitive operation's
-- accumulator type is supported.
pub rejection_reasons-eq-nil :
    (c : KernelCandidateDescriptor) (r : KernelRequest) (t : TargetProfile)
    → (rejection_reasons c r t ≡ []) ↔ IsEligible c r t
rejection_reasons-eq-nil c r t =
    let checks = reasons-eq-nil c r t in
    (
      λ h.
          let (e, (p, (m, (b, (a, (f, (k, (d, (o, y))))))))) = checks.0 h in
          record {
            encoding = e;
            ready = p;
            mode = m;
            backend = b;
            architecture = a;
            features = f;
            logical_rank = k;
            multiples = d;
            orientation = o;
            types = (y.0, y.1, y.2);
            precision = y.3;
          },
      λ h. checks.1 (
        h.encoding,
        (
          h.ready,
          (
            h.mode,
            (
              h.backend,
              (
                h.architecture,
                (
                  h.features,
                  (
                    h.logical_rank,
                    (h.multiples, (h.orientation, (h.types.0, h.types.1, h.types.2, h.precision))),
                  ),
                ),
              ),
            ),
          ),
        ),
      ),
    )
