-- ===== src/Architecture/Typing/Rules.antt =====
-- The typing rules of the methods of `ModelBuilder`, in crates/dyninfer-architecture/src/builder.rs.
use Prim.Native.String.{◌++◌ as ◌<>◌}
use mathlib.Core.List.{append-nil}
use mathlib.Core.Path.{subst, subst₂}
use dyninfer.Prelude.Membership.{mem-append_left, mem-append_right}
use dyninfer.Prelude.{
  ℕ, String, ◌≡◌, refl, sym, List, [], ◌∷◌, ◌++◌, map, length, Memᴰ, All, All-imp, All-mem,
}
use dyninfer.Prelude.Effects.{
  ◌>>=◌, Hoare, bind-Hoare, then-Hoare, get_state-Hoare, modify-Hoare, pure-Hoare, check-Hoare,
  lift-Hoare, from-Hoare, to-Hoare, pure,
}
use dyninfer.Core.Types.{ParameterRole}
use dyninfer.Core.Graph.{SemanticTensorType, tokens, GraphValue, OperationKind}
use dyninfer.Architecture.Builder.{
  ModelBuilder, Build, operation, with_output, weighted, binary, input_tokens,
}
use dyninfer.Architecture.Typing.{
  Signature, input_type, Live, Context, Holds, Holds-with_step, Live-output,
}
use dyninfer.Architecture.Typing.Steps.{
  operation_of, new_value-Hoare, operation-Hoare, with_output-Hoare, push_slot-Hoare,
}

module _ {F : Type 0} where
  -- From a builder where the context holds, the step gives a value of the type, live after it.
  abbrev pub Yields : Context → Build F GraphValue → SemanticTensorType → Type 0
  Yields Γ m t = Hoare (Holds Γ) m (λ v. Holds ((v, t) ∷ Γ))

  Holds-drop :
      {Γ : Context} {v w : GraphValue} {t u : SemanticTensorType} (s : ModelBuilder F)
      → Holds ((w, u) ∷ (v, t) ∷ Γ) s
      → Holds ((w, u) ∷ Γ) s
  Holds-drop s h = record { ordered = h.ordered; context = (h.context.0, h.context.1.1) }

  pub bind-Yields :
      {Γ : Context} {m : Build F GraphValue} {f : GraphValue → Build F GraphValue}
      {t u : SemanticTensorType}
      → Yields Γ m t
      → ((v : GraphValue) → Yields ((v, t) ∷ Γ) (f v) u)
      → Yields Γ (m >>= f) u
  bind-Yields first after = bind-Hoare first λ v. to-Hoare (λ w s h. Holds-drop s h) (after v)

  -- what the context says of a value
  Holds-at :
      {Γ : Context} {p : GraphValue × SemanticTensorType} (s : ModelBuilder F)
      → Holds Γ s
      → Memᴰ p Γ
      → Live s p.0 × (p.0.tensor_type ≡ p.1)
  Holds-at s h m = All-mem _ h.context m

  pub pure-Yields :
      {Γ : Context} {v : GraphValue} {t : SemanticTensorType} → Memᴰ (v, t) Γ → Yields Γ (pure v) t
  pure-Yields m =
      from-Hoare (λ s h. record { ordered = h.ordered; context = (Holds-at s h m, h.context) })
        (pure-Hoare _)

  -- what the context says of several values
  All-Holds-at :
      {Γ : Context} (s : ModelBuilder F) (ins : Context)
      → Holds Γ s
      → All (λ p. Memᴰ p Γ) ins
      → All (λ v. Live s v) (map (λ p. p.0) ins)
        × (map (λ v. v.tensor_type) (map (λ p. p.0) ins) ≡ map (λ p. p.1) ins)
        × All (λ p. p.0.tensor_type ≡ p.1) ins
  All-Holds-at s [] h given = (tt, refl, tt)
  All-Holds-at s (p ∷ ps) h given =
      let here = Holds-at s h given.0 in
      let rest = All-Holds-at s ps h given.1 in
      ((here.0, rest.0), cc (here.1, rest.1), (here.1, rest.2))

  pub with_output-Yields :
      {Γ : Context} {kind : OperationKind F} {out t : SemanticTensorType} (ins : Context)
      (id : String) (parameters : List String)
      → All (λ p. Memᴰ p Γ) ins
      → Signature kind (map (λ p. p.1) ins) (t ∷ []) (length parameters)
      → (All (λ p. p.0.tensor_type ≡ p.1) ins → out ≡ t)
      → Yields Γ (with_output id kind (map (λ p. p.0) ins) out parameters) t
  with_output-Yields {Γ} {kind} {out} {t} ins id parameters given signature fits =
      let v : GraphValue = record { id = id <> ".output"; tensor_type = out } in
      let op = operation_of id kind (map (λ p. p.0) ins) (v ∷ []) parameters in
      from-Hoare
        (λ s h.
          let (live, types, typed) = All-Holds-at s ins h given in
          let e = fits typed in
          let known = Holds-with_step s (v ∷ []) op h (record {
            ins = map (λ p. p.0) ins;
            outs = v ∷ [];
            inputs_are = refl;
            outputs_are = refl;
            ins_given =
                All-imp _ _ (λ w k. (mem-append_left s.values (v ∷ []) k.0, k.1))
                  (map (λ p. p.0) ins) live;
            outs_known = (mem-append_right s.values (v ∷ []) (Memᴰ.head refl), tt);
            signature =
                subst₂ (λ i o. Signature kind i (o ∷ []) (length parameters)) (sym types) (sym e)
                  signature;
          }) in
          record {
            ordered = known.ordered;
            context = ((Live-output s v op refl, e), known.context);
          })
        (with_output-Hoare id kind (map (λ p. p.0) ins) out parameters)

  pub weighted-Yields :
      {Γ : Context} {x : GraphValue} {tx out t : SemanticTensorType} {kind : OperationKind F}
      (id weight : String) (role : ParameterRole) (rank : ℕ)
      → Memᴰ (x, tx) Γ
      → Signature kind (tx ∷ []) (t ∷ []) 1
      → (x.tensor_type ≡ tx → out ≡ t)
      → Yields Γ (weighted id kind x weight role rank out) t
  unfolding weighted
  weighted-Yields {x = x} {tx} id weight role rank m signature fits =
      bind-Hoare {Q = λ slot. Holds _}
        (from-Hoare (λ s h. record { ordered = h.ordered; context = h.context })
          (push_slot-Hoare weight role rank))
        λ slot. with_output-Yields ((x, tx) ∷ []) id (slot ∷ []) (m, tt) signature (λ h. fits h.0)

  pub binary-Yields :
      {Γ : Context} {x y : GraphValue} {t : SemanticTensorType} {kind : OperationKind F}
      (id : String)
      → Memᴰ (x, t) Γ
      → Memᴰ (y, t) Γ
      → Signature kind (t ∷ t ∷ []) (t ∷ []) 0
      → Yields Γ (binary id kind x y) t
  unfolding binary
  binary-Yields {x = x} {y} {t} id m n signature =
      then-Hoare (from-Hoare (λ s h e. h) (check-Hoare _ _))
        (with_output-Yields ((x, t) ∷ (y, t) ∷ []) id [] (m, (n, tt)) signature (λ h. h.0))

  -- an operation that gives no value
  pub operation-Holds :
      {Γ : Context} {x : GraphValue} {t : SemanticTensorType} {kind : OperationKind F} (id : String)
      → Memᴰ (x, t) Γ
      → Signature kind (t ∷ []) [] 0
      → Hoare (Holds Γ) (operation id kind (x ∷ []) [] []) (λ u. Holds Γ)
  operation-Holds {Γ} {x} {kind = kind} id m signature =
      let op = operation_of id kind (x ∷ []) [] [] in
      from-Hoare
        (λ s h.
          let (live, e) = Holds-at s h m in
          let known = Holds-with_step s [] op h (record {
            ins = x ∷ [];
            outs = [];
            inputs_are = refl;
            outputs_are = refl;
            ins_given = ((mem-append_left s.values [] live.0, live.1), tt);
            outs_known = tt;
            signature = subst (λ i. Signature kind (i ∷ []) [] 0) (sym e) signature;
          }) in
          subst (λ vs. Holds Γ (record s { values = vs; operations = s.operations ++ op ∷ [] }))
            (append-nil s.values) known)
        (operation-Hoare id kind (x ∷ []) [] [])

  pub input_tokens-Yields : (name : String) → Yields [] (input_tokens name) tokens
  unfolding input_tokens
  input_tokens-Yields name =
      let v : GraphValue = record { id = name; tensor_type = tokens } in
      let op = operation_of ("input." <> name) OperationKind.input [] (v ∷ []) [] in
      bind-Hoare {Q = λ b s. Holds [] s} (from-Hoare (λ s h. h) get_state-Hoare) λ b.
        then-Hoare
          (from-Hoare
            (λ s h u e.
              let known = Holds-with_step s (v ∷ []) op h (record {
                ins = [];
                outs = v ∷ [];
                inputs_are = refl;
                outputs_are = refl;
                ins_given = tt;
                outs_known = (mem-append_right s.values (v ∷ []) (Memᴰ.head refl), tt);
                signature = input_type;
              }) in
              record { ordered = known.ordered; context = ((Live-output s v op refl, refl), tt) })
            (lift-Hoare _))
          (bind-Hoare (new_value-Hoare name tokens) λ v.
            then-Hoare (operation-Hoare _ OperationKind.input [] (v ∷ []) [])
              (then-Hoare (modify-Hoare _) (pure-Hoare _)))
