-- ===== src/Gguf/Container/Alignment.antt =====
-- `align_up` of crates/dyninfer-checkpoint-gguf/src/container.rs does not wrap on the positions of a file.
use native.Mathlib.Nat.{
  mod-lt, mod-eq_of_lt, div-add-mod', mul-mod_left, div-eq_of_lt, div-mul-le_self, zero-mul,
}
use dyninfer.Prelude.{
  ℕ, ◌+◌, ◌*◌, ◌/◌, ◌%◌, ◌^◌, ◌≤◌, ◌<◌, ◌≡◌, ◌∙◌, ap, inl, inr, Bool-cases, ◌==◌, ==_iff, ltb,
  ltb→lt, arith,
}
use dyninfer.Gguf.Container.{div_ceil, align_up}

-- A position as it is rounded up: at or after it, less than one alignment away, and a multiple of it.
pub record Aligned (value align result : ℕ) : Type 0 where
  pub at_or_after : value ≤ result
  pub near : (0 < align) → result < value + align
  pub multiple : (0 < align) → result % align ≡ 0

-- the least multiple at or after the value, before it is cut to 64 bits
record Ceiled (value align result : ℕ) : Type 0 where
  bound : result < 2 ^ 64
  reaches : value ≤ result
  close : result < value + align
  divides : result % align ≡ 0

-- the next multiple after the quotient, in 64 bits
next-bound :
    (value align : ℕ) → align < 2 ^ 64 → value < 2 ^ 63 → value / align * align + align < 2 ^ 64
next-bound value align small_align small = elim (Bool-cases (ltb value align)) [
  | inl e ↦
      let none : value / align ≡ 0 = div-eq_of_lt (ltb→lt value align e) in
      let product : value / align * align ≡ 0 = ap (λ q. q * align) none ∙ zero-mul align in
      omega (arith, product, small_align)
  | inr e ↦
      let below = div-mul-le_self value align in
      let ordered : align ≤ value = ground (arith, e) in omega (arith, below, ordered, small)
]

div_ceil-Ceiled :
    (value align : ℕ)
    → 0 < align
    → align < 2 ^ 64
    → value < 2 ^ 63
    → Ceiled value align (div_ceil value align * align)
div_ceil-Ceiled value align some_align small_align small =
    let parts = div-add-mod' value align in
    let rest = mod-lt value some_align in
    let bound = next-bound value align small_align small in
    let below = div-mul-le_self value align in
    elim (Bool-cases (value % align == 0)) [
      | inl e ↦
          let exact = (==_iff (value % align) 0).0 e in
          rw e (record {
            bound = omega (arith, bound);
            reaches = omega (arith, parts, exact);
            close = omega (arith, below, some_align);
            divides = mul-mod_left (value / align) align;
          })
      | inr e ↦
          let left : 0 < value % align = ground (arith, e) in
          let next : (value / align + 1) * align ≡ value / align * align + align = omega arith in
          rw e (record {
            bound = omega (arith, next, bound);
            reaches = omega (arith, next, parts, rest);
            close = omega (arith, next, parts, left);
            divides = mul-mod_left (value / align + 1) align;
          })
    ]

pub align_up-Aligned :
    (value align : ℕ) → align < 2 ^ 64 → value < 2 ^ 63 → Aligned value align (align_up value align)
unfolding align_up
align_up-Aligned value align small_align small = elim (Bool-cases (align == 0)) [
  | inl e ↦
      let none = (==_iff align 0).0 e in
      rw e (record {
        at_or_after = omega arith;
        near = λ h. omega (arith, h);
        multiple = λ h. absurd (omega (arith, h, none));
      })
  | inr e ↦
      let some_align : 0 < align = ground (arith, e) in
      let c = div_ceil-Ceiled value align some_align small_align small in
      let same = mod-eq_of_lt c.bound in
      rw (e, same)
        (record { at_or_after = c.reaches; near = λ h. c.close; multiple = λ h. c.divides })
]
