-- ===== src/Runtime/Session/Cells.antt =====
-- What the positions of the device's cache hold, told by the calls of the context that
-- crates/dyninfer-runtime/src/session.rs makes.
use dyninfer.Prelude.{
  ℕ, zero, suc, ◌-◌, ◌<◌, ◌≤◌, ◌≡◌, ◌∙◌, refl, sym, ap, inl, inr, Bool-cases, ltb, ltb→lt, Option,
  none, List, [], ◌∷◌, ◌++◌, Result, ok, err, length, length-append, take, get_elem?, if◌then◌else◌,
  arith,
}
use dyninfer.Runtime.Context.{Context, RuntimeError}
use dyninfer.Runtime.Session.{IreeSession}
use dyninfer.Runtime.Session.Actions.{Outcome, Triple, call}

-- the token at each position, where it is known
abbrev pub Cells : Type 0
Cells = ℕ → Option ℕ

abbrev pub no_cells : Cells
no_cells p = none

-- The tokens are written from `start` on; what stood at later positions is not relied on.
abbrev pub write : Cells → ℕ → List ℕ → Cells
write cells start tokens p = if ltb p start then cells p else get_elem? tokens (p - start)

-- A call that fails leaves nothing to rely on from `start` on.
abbrev pub after_call : {A : Type 0} → Result RuntimeError A → Cells → ℕ → List ℕ → Cells
after_call (ok a) cells start tokens = write cells start tokens
after_call (err e) cells start tokens = write cells start []

-- the first positions hold these tokens, in order
abbrev pub Holds : Cells → List ℕ → Type 0
Holds cells ts = (p : ℕ) → p < length ts → cells p ≡ get_elem? ts p

get_elem?-append_left :
    (xs ys : List ℕ) (p : ℕ) → p < length xs → get_elem? (xs ++ ys) p ≡ get_elem? xs p
get_elem?-append_left [] ys p h = absurd (omega arith)
get_elem?-append_left (x ∷ xs) ys zero h = refl
get_elem?-append_left (x ∷ xs) ys (suc p) h = get_elem?-append_left xs ys p (omega arith)

get_elem?-append_right :
    (xs ys : List ℕ) (p : ℕ) → length xs ≤ p → get_elem? (xs ++ ys) p ≡ get_elem? ys (p - length xs)
get_elem?-append_right [] ys p h = ap (get_elem? ys) (omega arith)
get_elem?-append_right (x ∷ xs) ys zero h = absurd (omega arith)
get_elem?-append_right (x ∷ xs) ys (suc p) h =
    get_elem?-append_right xs ys p (omega arith) ∙ ap (get_elem? ys) (omega arith)

-- tokens written behind those that are held
pub Holds-write :
    (cells : Cells) (front tokens : List ℕ)
    → Holds cells front
    → Holds (write cells (length front) tokens) (front ++ tokens)
Holds-write cells front tokens h p bound = elim (Bool-cases (ltb p (length front))) [
  | inl q ↦ rw q (h p (ltb→lt p _ q) ∙ sym (get_elem?-append_left front tokens p (ltb→lt p _ q)))
  | inr q ↦ rw q (sym (get_elem?-append_right front tokens p (ground arith)))
]

-- a front of what is held is held
pub Holds-front :
    (cells : Cells) (front rest : List ℕ) → Holds cells (front ++ rest) → Holds cells front
Holds-front cells front rest h p bound =
    h p (omega (arith, length-append front rest)) ∙ get_elem?-append_left front rest p bound

module _ {S : Type 0} where
  abbrev pub writing :
      {A : Type 0}
      → (S → S × Result RuntimeError A)
      → ℕ
      → List ℕ
      → S × Cells
      → (S × Cells) × Result RuntimeError A
  writing op start tokens s = let r = op s.0 in ((r.0, after_call r.1 s.1 start tokens), r.1)

  abbrev pub keeping :
      {A : Type 0}
      → (S → S × Result RuntimeError A)
      → S × Cells
      → (S × Cells) × Result RuntimeError A
  keeping op s = let r = op s.0 in ((r.0, s.1), r.1)

module _ {S F : Type 0} where
  -- Any context, with the cells beside its state: an invocation writes the real tokens of its window, up
  -- to and with the index of the last one, from its start position on. A reset leaves no tokens.
  abbrev pub mirror : Context S F → Context (S × Cells) F
  mirror ctx = record {
    reset_paged_kv = λ s. let r = ctx.reset_paged_kv s.0 in ((r.0, no_cells), r.1);
    ensure_kv_pages = λ pages. keeping (ctx.ensure_kv_pages pages);
    invoke_paged_chunk_ex = λ window last start want.
        writing (ctx.invoke_paged_chunk_ex window last start want) start (take (suc last) window);
    invoke_prefill =
        λ window last. writing (ctx.invoke_prefill window last) 0 (take (suc last) window);
    invoke_decode = λ token position bias.
        writing (ctx.invoke_decode token position bias) position (token ∷ []);
  }

  -- a predicate that does not look at the native state
  abbrev pub Blind : (IreeSession (S × Cells) F → Type 0) → Type 0
  Blind P = (s : IreeSession (S × Cells) F) (c : S × Cells) → P s → P (record s { context = c })

  -- the session is fixed so, and the first cells hold these tokens
  abbrev pub Held :
      (IreeSession (S × Cells) F → Type 0) → List ℕ → IreeSession (S × Cells) F → Type 0
  Held P ts s = P s × Holds s.context.1 ts

  module _ {A : Type 0} (op : S → S × Result RuntimeError A)
      (P : IreeSession (S × Cells) F → Type 0) (blind : Blind P) where
    written :
        (s : IreeSession (S × Cells) F) (n : S) (r : Result RuntimeError A) (front tokens : List ℕ)
        → Held P front s
        → Outcome
            (λ (a : A). Held P (front ++ tokens))
            (Held P front)
            (record s { context = (n, after_call r s.context.1 (length front) tokens) }, r)
    written s n (ok a) front tokens h = (blind s _ h.0, Holds-write s.context.1 front tokens h.1)
    written s n (err e) front tokens h =
        (blind s _ h.0, Holds-front _ front [] (Holds-write s.context.1 front [] h.1))

    -- an invocation at the first position behind the tokens that are held
    pub writing-Triple :
        (start : ℕ) (front tokens : List ℕ)
        → start ≡ length front
        → Triple
            (Held P front)
            (call (writing op start tokens))
            (λ _. Held P (front ++ tokens))
            (Held P front)
    unfolding call
    writing-Triple start front tokens e = record {
      run = λ s h. let r = op s.context.0 in rw e (written s r.0 r.1 front tokens h);
    }

    kept :
        (s : IreeSession (S × Cells) F) (n : S) (r : Result RuntimeError A) (front : List ℕ)
        → Held P front s
        → Outcome
            (λ (a : A). Held P front)
            (Held P front)
            (record s { context = (n, s.context.1) }, r)
    kept s n (ok a) front h = (blind s _ h.0, h.1)
    kept s n (err e) front h = (blind s _ h.0, h.1)

    pub keeping-Triple :
        (front : List ℕ)
        → Triple (Held P front) (call (keeping op)) (λ _. Held P front) (Held P front)
    unfolding call
    keeping-Triple front = record { run = λ s h. let r = op s.context.0 in kept s r.0 r.1 front h }
