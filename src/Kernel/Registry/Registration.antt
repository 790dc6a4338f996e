-- ===== src/Kernel/Registry/Registration.antt =====
-- `register` of crates/dyninfer-kernel-registry/src/lib.rs keeps the ids of a registry unique.
use mathlib.Core.List.Memᴰ
use dyninfer.Prelude.{
  ◌≡◌, ◌≢◌, ◌↔◌, sym, ap, ◌∙◌, true, false, List, [], ◌∷◌, ◌++◌, Memᴰ, ok, err, any, any-mem,
  any-true, inl, inr, Bool-cases, arith, str_eq, str_eq_iff, Result,
}
use dyninfer.Kernel.{KernelCandidateDescriptor}
use dyninfer.Kernel.Registry.{KernelError, KernelRegistry, register, duplicate_candidate}

-- No two candidates share an id.
abbrev pub HasUniqueIds : List KernelCandidateDescriptor → Type 0
HasUniqueIds cs = (c d : KernelCandidateDescriptor) → Memᴰ c cs → Memᴰ d cs → c.id ≡ d.id → c ≡ d

fresh :
    (cs : List KernelCandidateDescriptor) (c d : KernelCandidateDescriptor)
    → any (λ e. str_eq e.id c.id) cs ≡ false
    → Memᴰ d cs
    → d.id ≢ c.id
fresh cs c d h m e =
    let hit : any (λ e. str_eq e.id c.id) cs ≡ true =
      any-mem (λ (e : KernelCandidateDescriptor). str_eq e.id c.id) m
        ((str_eq_iff d.id c.id).1 e) in
    cc

append-HasUniqueIds :
    (cs : List KernelCandidateDescriptor) (c : KernelCandidateDescriptor)
    → any (λ e. str_eq e.id c.id) cs ≡ false
    → HasUniqueIds cs
    → HasUniqueIds (cs ++ c ∷ [])
append-HasUniqueIds cs c new_id h a b m n e = elim (Memᴰ.append_cases cs m) [
  | inl p ↦ elim (Memᴰ.append_cases cs n) [
    | inl q ↦ h a b p q e
    | inr q ↦ absurd (
        fresh cs c a new_id p
          (e ∙ ap (λ (x : KernelCandidateDescriptor). x.id) (Memᴰ.eq_of_singleton q)))
  ]
  | inr p ↦ elim (Memᴰ.append_cases cs n) [
    | inl q ↦ absurd (
        fresh cs c b new_id q
          (sym e ∙ ap (λ (x : KernelCandidateDescriptor). x.id) (Memᴰ.eq_of_singleton p)))
    | inr q ↦ Memᴰ.eq_of_singleton p ∙ sym (Memᴰ.eq_of_singleton q)
  ]
]

pub register-HasUniqueIds :
    (reg : KernelRegistry) (c : KernelCandidateDescriptor) {reg' : KernelRegistry}
    → HasUniqueIds reg.candidates
    → register reg c ≡ ok reg'
    → HasUniqueIds reg'.candidates × (reg'.candidates ≡ reg.candidates ++ c ∷ [])
unfolding register
register-HasUniqueIds reg c {reg'} h e =
    elim (Bool-cases (any (λ e. str_eq e.id c.id) reg.candidates)) [
      | inl old ↦
          let f : ◌≡◌ {A = Result KernelError KernelRegistry} (err (duplicate_candidate c.id))
              (ok reg') =
            rw old at e in
          absurd (cc)
      | inr is_new ↦
          let g : reg'.candidates ≡ reg.candidates ++ c ∷ [] = ground arith in
          (rw g (append-HasUniqueIds reg.candidates c is_new h), g)
    ]

-- `register` refuses a candidate exactly where its id is registered already.
pub register-duplicate :
    (reg : KernelRegistry) (c : KernelCandidateDescriptor)
    → (register reg c ≡ err (duplicate_candidate c.id))
      ↔ ((d : KernelCandidateDescriptor) × Memᴰ d reg.candidates × (d.id ≡ c.id))
unfolding register
register-duplicate reg c = (
  λ e.
      let old : any (λ e. str_eq e.id c.id) reg.candidates ≡ true = ground arith in
      let (d, m, q) =
        any-true (λ (e : KernelCandidateDescriptor). str_eq e.id c.id) reg.candidates old in
      (d, m, (str_eq_iff d.id c.id).0 q),
  λ h.
      let old =
        any-mem (λ (e : KernelCandidateDescriptor). str_eq e.id c.id) h.1
          ((str_eq_iff h.0.id c.id).1 h.2) in
      rw old,
)
