-- ===== src/Runtime/Generate/Greedy.antt =====
-- What the loop of crates/dyninfer-runtime/src/generate.rs produces.
use mathlib.Core.Path.{subst}
use mathlib.Core.List.{append_assoc, append-nil}
use dyninfer.Prelude.{
  ℕ, zero, suc, ◌≡◌, ◌∙◌, refl, sym, ap, inl, inr, Bool, true, false, List, [], ◌∷◌, ◌++◌, Result,
  ok, err, Bool-cases, is_empty, if◌then◌else◌,
}
use dyninfer.Runtime.Generate.{
  ModelSession, is_stop, Generated, push_token, after, decode_loop, generate,
}

module _ {S E : Type 0} (session : ModelSession S E) (stop : List ℕ) where
  -- A session at the state `s` whose last call gave `next` produces these tokens, at most `n`: each is the
  -- token that the former call gave, none stops, and the last state is the one after the last decode.
  pub data Produces : ℕ → ℕ → S → List ℕ → S → Type 0 where
    full : {next : ℕ} {s : S} → Produces 0 next s [] s
    stopped : {n next : ℕ} {s : S} → is_stop stop next ≡ true → Produces (suc n) next s [] s
    token :
        (next' : ℕ) {n next : ℕ} {s s' s'' : S} {rest : List ℕ}
        → is_stop stop next ≡ false
        → session.decode_argmax next s ≡ (s', ok next')
        → Produces n next' s' rest s''
        → Produces (suc n) next s (next ∷ rest) s''

  after-ok :
      {A B : Type 0} (f : A → S → S × Result E B) (o : S × Result E A) {b : B} {s' : S}
      → after f o ≡ (s', ok b)
      → (s₁ : S) × (a : A) × (o ≡ (s₁, ok a)) × (f a s₁ ≡ (s', ok b))
  unfolding after
  after-ok f (s₁, ok a) h = (s₁, a, refl, h)
  after-ok f (s₁, err e) h = absurd (cc)

  -- The tokens `rest` are added to both lists.
  abbrev pub Extends : Generated → List ℕ → Generated → Type 0
  Extends g rest g' = (g'.generated ≡ g.generated ++ rest) × (g'.ids ≡ g.ids ++ rest)

  Extends-refl : (g g' : Generated) → g ≡ g' → Extends g [] g'
  Extends-refl g g' e = (
    ap (λ x. x.generated) (sym e) ∙ sym (append-nil g.generated),
    ap (λ x. x.ids) (sym e) ∙ sym (append-nil g.ids),
  )

  Extends-push :
      (g g' : Generated) (next : ℕ) (rest : List ℕ)
      → Extends (push_token g next) rest g'
      → Extends g (next ∷ rest) g'
  Extends-push g g' next rest h =
      (h.0 ∙ append_assoc g.generated (next ∷ []) rest, h.1 ∙ append_assoc g.ids (next ∷ []) rest)

  loop_test :
      (n next : ℕ) (g : Generated) (s : S) (x : Bool)
      → is_stop stop next ≡ x
      → decode_loop session stop (suc n) g next s ≡ (
          if x
          then (s, ok g)
          else after
              (decode_loop session stop n (push_token g next))
              (session.decode_argmax next s))
  unfolding decode_loop
  loop_test n next g s x e =
      ap
        (λ x.
          if x
          then (s, ok g)
          else after (decode_loop session stop n (push_token g next))
              (session.decode_argmax next s))
        e

  decode_loop-Produces :
      (n next : ℕ) (g g' : Generated) (s s' : S)
      → decode_loop session stop n g next s ≡ (s', ok g')
      → (rest : List ℕ) × Produces n next s rest s' × Extends g rest g'
  unfolding decode_loop
  decode_loop-Produces zero next g g' s s' h =
      ([], subst (λ x. Produces 0 next s [] x) (ap (λ x. x.0) h) full, Extends-refl g g' (cc))
  decode_loop-Produces (suc n) next g g' s s' h = elim (Bool-cases (is_stop stop next)) [
    | inl e ↦
        let done : (s, ok g) ≡ (s', ok g') = sym (loop_test n next g s true e) ∙ h in
        (
          [],
          subst (λ x. Produces (suc n) next s [] x) (ap (λ x. x.0) done) (stopped e),
          Extends-refl g g' (cc),
        )
    | inr e ↦
        let (s₁, next', decoded, looped) =
          after-ok (decode_loop session stop n (push_token g next)) (session.decode_argmax next s)
            (sym (loop_test n next g s false e) ∙ h) in
        let (rest, more, lists) =
          decode_loop-Produces n next' (push_token g next) g' s₁ s' looped in
        (next ∷ rest, token next' e decoded more, Extends-push g g' next rest lists)
  ]

  -- What a run that succeeds has done.
  pub record Greedy (limit : ℕ) (ids : List ℕ) (s : S) (g : Generated) (s' : S) : Type 0 where
    pub first : ℕ
    pub prefilled : S
    pub prefill : session.prefill_argmax ids s ≡ (prefilled, ok first)
    pub produces : Produces limit first prefilled g.generated s'
    pub lists : g.ids ≡ ids ++ g.generated

  empty_test :
      (limit : ℕ) (no_tokens : E) (ids : List ℕ) (s : S) (g : Generated) (s' : S) (x : Bool)
      → is_empty ids ≡ x
      → generate session stop limit no_tokens ids s ≡ (s', ok g)
      → after
          (decode_loop session stop limit (record { generated = []; ids = ids }))
          (session.prefill_argmax ids s)
        ≡ (s', ok g)
  unfolding generate
  empty_test limit no_tokens [] s g s' x e h = absurd (cc)
  empty_test limit no_tokens (t ∷ ts) s g s' x e h = h

  -- A generation that succeeds has prefilled the prompt and then decoded the session's own token, again
  -- and again, until the limit or a stop token: the generated tokens are those decoded, none of them
  -- stops, and the ids are the prompt's and then these.
  pub generate-Greedy :
      (limit : ℕ) (no_tokens : E) (ids : List ℕ) (s : S) (g : Generated) (s' : S)
      → generate session stop limit no_tokens ids s ≡ (s', ok g)
      → Greedy limit ids s g s'
  generate-Greedy limit no_tokens ids s g s' h =
      let (s₁, t, prefill, looped) =
        after-ok (decode_loop session stop limit (record { generated = []; ids = ids }))
          (session.prefill_argmax ids s)
          (empty_test limit no_tokens ids s g s' (is_empty ids) refl h) in
      let (rest, more, lists) = decode_loop-Produces limit t _ g s₁ s' looped in
      record {
        first = t;
        prefilled = s₁;
        prefill = prefill;
        produces = subst (λ l. Produces limit t s₁ l s') (sym lists.0) more;
        lists = lists.1 ∙ ap (λ l. ids ++ l) (sym lists.0);
      }
