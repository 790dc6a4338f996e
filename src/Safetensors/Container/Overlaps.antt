-- ===== src/Safetensors/Container/Overlaps.antt =====
-- The check for overlaps in crates/dyninfer-checkpoint-safetensors/src/container.rs: where it passes, the
-- ranges of any two tensors are disjoint.
use mathlib.Core.Path.{subst}
use dyninfer.Prelude.{
  ℕ, ◌+◌, ◌≤◌, ◌<◌, ◌≡◌, ◌∙◌, sym, ap, ◌⊎◌, inl, inr, Option, none, some, List, [], ◌∷◌, Memᴰ, All,
  All-mem, All-of-mem, first, Ensures, then-Ensures, ok-Ensures, guard-Ensures, imp-Ensures,
  All-imp, leb, leb→le, u64_max, arith,
}
use dyninfer.Prelude.Sort.{Pairwise}
use dyninfer.Core.Shape.{ByteRange, end}
use dyninfer.Checkpoint.Catalog.{RawTensorEntry}
use dyninfer.Checkpoint.Limits.{InspectionLimits}
use dyninfer.Safetensors.Container.{Span, span_of, cons_span, spans, check_overlaps}
use dyninfer.Safetensors.Container.Entries.{InFile}

-- the first span ends before the second starts
abbrev pub Before : Span → Span → Type 0
Before a b = a.stop ≤ b.start

abbrev pub Apart : Span → Span → Type 0
Apart a b = Before a b ⊎ Before b a

pub Apart-symm : (a b : Span) → Apart a b → Apart b a
Apart-symm a b (inl h) = inr h
Apart-symm a b (inr h) = inl h

pub check_overlaps-Apart :
    (ss : List Span)
    → All (λ s. s.start ≤ s.stop) ss
    → Ensures (check_overlaps ss) (λ u. Pairwise Before ss)
unfolding check_overlaps
check_overlaps-Apart [] h = ok-Ensures tt
check_overlaps-Apart (a ∷ []) h = ok-Ensures (tt, tt)
check_overlaps-Apart (a ∷ b ∷ rest) h = then-Ensures (guard-Ensures (leb a.stop b.start) _) (λ u e.
    imp-Ensures (check_overlaps-Apart (b ∷ rest) h.1) (λ v k.
      let first_step = leb→le _ _ e in
      let b_ordered = h.1.0 in
      (
        (
          first_step,
          All-imp (Before b) (Before a) (λ c (q : b.stop ≤ c.start). omega arith) rest k.0,
        ),
        k,
      )))

pub Pairwise-Apart : (ss : List Span) → Pairwise Before ss → Pairwise Apart ss
Pairwise-Apart [] h = tt
Pairwise-Apart (a ∷ ss) h =
    (All-imp (Before a) (Apart a) (λ c q. inl q) ss h.0, Pairwise-Apart ss h.1)

end_ordered :
    (e : RawTensorEntry) (r : ByteRange) (size : ℕ)
    → size < u64_max
    → r.offset + r.length ≤ size
    → (span_of e r).start ≤ (span_of e r).stop
unfolding span_of end
end_ordered e r size small h = ground arith

tail_cons :
    (e : RawTensorEntry) (o : Option ByteRange) (rest : List Span) {x : Span}
    → Memᴰ x rest
    → Memᴰ x (cons_span e o rest)
tail_cons e none rest m = m
tail_cons e (some r) rest m = Memᴰ.tail m

range_eq : {r s : ByteRange} → r ∷ [] ≡ s ∷ [] → r ≡ s
range_eq e = cc

-- a span begins before its end
pub spans_ordered :
    (limits : InspectionLimits) (size : ℕ) (es : List RawTensorEntry)
    → size < u64_max
    → All (InFile limits size) es
    → All (λ (s : Span). s.start ≤ s.stop) (spans es)
unfolding spans
spans_ordered limits size [] small good = tt
spans_ordered limits size (e ∷ es) small good =
    let own = good.0 in
    subst (λ x. All (λ (s : Span). s.start ≤ s.stop) (cons_span e x (spans es)))
      (sym (ap first own.one_range))
      (end_ordered e own.range size small own.within, spans_ordered limits size es small good.1)

-- The ranges of two tensors do not meet.
abbrev pub Disjoint : RawTensorEntry → RawTensorEntry → Type 0
Disjoint e f =
    (r s : ByteRange)
    → e.byte_ranges ≡ r ∷ []
    → f.byte_ranges ≡ s ∷ []
    → (end r ≤ s.offset) ⊎ (end s ≤ r.offset)

pub Disjoint-symm : (e f : RawTensorEntry) → Disjoint e f → Disjoint f e
Disjoint-symm e f h r s p q = elim (h s r q p) [ inl x ↦ inr x | inr x ↦ inl x ]

Apart-disjoint :
    (e f : RawTensorEntry) (r s : ByteRange)
    → Apart (span_of e r) (span_of f s)
    → (end r ≤ s.offset) ⊎ (end s ≤ r.offset)
unfolding span_of end
Apart-disjoint e f r s h = h

mem-spans :
    (es : List RawTensorEntry) {f : RawTensorEntry} (s : ByteRange)
    → Memᴰ f es
    → f.byte_ranges ≡ s ∷ []
    → Memᴰ (span_of f s) (spans es)
unfolding spans
mem-spans [] s m q = elim m [ ]
mem-spans (e ∷ es) {f} s (Memᴰ.head p) q =
    let o : first e.byte_ranges ≡ some s =
      ap (λ (x : RawTensorEntry). first x.byte_ranges) (sym p) ∙ ap first q in
    subst (λ x. Memᴰ (span_of f s) (cons_span e x (spans es))) (sym o)
      (Memᴰ.head (ap (λ x. span_of x s) p))
mem-spans (e ∷ es) {f} s (Memᴰ.tail m) q =
    tail_cons e (first e.byte_ranges) (spans es) (mem-spans es s m q)

pub spans-Disjoint :
    (limits : InspectionLimits) (size : ℕ) (es : List RawTensorEntry)
    → All (InFile limits size) es
    → Pairwise Apart (spans es)
    → Pairwise Disjoint es
unfolding spans
spans-Disjoint limits size [] good h = tt
spans-Disjoint limits size (e ∷ es) good h =
    let own = good.0 in
    let k = subst (λ x. Pairwise Apart (cons_span e x (spans es))) (ap first own.one_range) h in
    (
      All-of-mem (Disjoint e) es (λ f m r s p q.
          let same : own.range ≡ r = range_eq (sym own.one_range ∙ p) in
          Apart-disjoint e f r s (
            subst (λ x. Apart (span_of e x) (span_of f s)) same
              (All-mem (Apart (span_of e own.range)) k.0 (mem-spans es s m q)))),
      spans-Disjoint limits size es good.1 k.1,
    )
