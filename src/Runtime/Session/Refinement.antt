-- ===== src/Runtime/Session/Refinement.antt =====
-- Sessions of crates/dyninfer-runtime/src/session.rs as an abstract sequence of tokens: what the history,
-- the position and the cache hold in a run.
use mathlib.Core.Path.{subst}
use dyninfer.Prelude.{
  ℕ, ◌≤◌, ◌<◌, ◌≡◌, ◌∙◌, refl, sym, ap, Option, none, some, List, [], ◌∷◌, ◌++◌, length,
  length-append, max, ok, err, arith,
}
use dyninfer.Prelude.Json.{Json}
use dyninfer.Core.KvCache.{KvCacheDescriptor, static_globals, paged, KvCacheStorage}
use dyninfer.Runtime.Floats.{Floats}
use dyninfer.Runtime.Context.{Context, RuntimeError}
use dyninfer.Runtime.Session.{
  IreeSession, ModelMetadata, SessionConfig, max_seq, new, paged_geometry,
}
use dyninfer.Runtime.Session.Actions.{Action, Outcome, Triple}
use dyninfer.Runtime.Session.Setup.{geometry-setup, Setup, setup, Unchanged}
use dyninfer.Runtime.Session.PrefillOutcome.{
  Prefilled, PrefillFailed, prefill_lem, prefill_argmax_lem,
}
use dyninfer.Runtime.Session.DecodeOutcome.{Advanced, decode_lem, decode_argmax_lem, reset_lem}
use dyninfer.Runtime.Session.Prefill.{prefill, prefill_argmax}
use dyninfer.Runtime.Session.Decode.{decode, decode_argmax, reset}
use dyninfer.Runtime.Session.Invariant.{PrefillOk, DecodeOk, ResetOk}
use dyninfer.Runtime.Session.Cells.{Cells, no_cells, Holds, mirror, Held}
use dyninfer.Runtime.Session.Fed.{ChunksFit}
use dyninfer.Runtime.Session.Prompted.{prefill-Held, prefill_argmax-Held}
use dyninfer.Runtime.Session.Stepped.{decode-Stepped, decode_argmax-Stepped}

module _ {S F A : Type 0} {Q : A → IreeSession S F → Type 0} {R P : IreeSession S F → Type 0} where
  -- a guarantee at a run that is known to succeed, or to fail
  succeeded :
      {m : Action S F A} {s t : IreeSession S F} {a : A}
      → Triple P m Q R
      → P s
      → m s ≡ (t, ok a)
      → Q a t
  succeeded {s = s} h p e = subst (Outcome Q R) e (h.run s p)

  failed :
      {m : Action S F A} {s t : IreeSession S F} {x : RuntimeError}
      → Triple P m Q R
      → P s
      → m s ≡ (t, err x)
      → R t
  failed {s = s} h p e = subst (Outcome Q R) e (h.run s p)

module _ {S F : Type 0} (ctx : Context S F) (floats : Floats F) where
  -- A run from `start` in which every prefill and every reset succeeds: the session, and the tokens that
  -- it has been given since the last prefill or reset.
  pub data Run (start : IreeSession (S × Cells) F)
      : IreeSession (S × Cells) F → List ℕ → Type 0 where
    opened : Run start start []
    prefilled :
        {s t : IreeSession (S × Cells) F} {given tokens : List ℕ} {values : List F}
        → Run start s given
        → prefill (mirror ctx) tokens s ≡ (t, ok values)
        → Run start t tokens
    prefilled_argmax :
        {s t : IreeSession (S × Cells) F} {given tokens : List ℕ} {next : ℕ}
        → Run start s given
        → prefill_argmax (mirror ctx) floats tokens s ≡ (t, ok next)
        → Run start t tokens
    decoded :
        {s t : IreeSession (S × Cells) F} {given : List ℕ} (token : ℕ) {values : List F}
        → Run start s given
        → decode (mirror ctx) floats token s ≡ (t, ok values)
        → Run start t (given ++ token ∷ [])
    decoded_argmax :
        {s t : IreeSession (S × Cells) F} {given : List ℕ} (token : ℕ) {next : ℕ}
        → Run start s given
        → decode_argmax (mirror ctx) floats token s ≡ (t, ok next)
        → Run start t (given ++ token ∷ [])
    decode_failed :
        {s t : IreeSession (S × Cells) F} {given : List ℕ} (token : ℕ) {e : RuntimeError}
        → Run start s given
        → decode (mirror ctx) floats token s ≡ (t, err e)
        → Run start t given
    decode_argmax_failed :
        {s t : IreeSession (S × Cells) F} {given : List ℕ} (token : ℕ) {e : RuntimeError}
        → Run start s given
        → decode_argmax (mirror ctx) floats token s ≡ (t, err e)
        → Run start t given
    was_reset :
        {s t : IreeSession (S × Cells) F} {given : List ℕ} {u : Unit {0}}
        → Run start s given
        → reset (mirror ctx) s ≡ (t, ok u)
        → Run start t []

  -- the history, the position and the cache's cells are those of these tokens
  pub record Refines (start : IreeSession (S × Cells) F) (given : List ℕ)
      (s : IreeSession (S × Cells) F) : Type 0 where
    pub setup_kept : setup s ≡ setup start
    pub history : s.history ≡ given
    pub position : s.position ≡ length given
    pub cells : Holds s.context.1 given

  module _ (start : IreeSession (S × Cells) F) (fit : ChunksFit start) where
    still_fits : (s : IreeSession (S × Cells) F) → setup s ≡ setup start → ChunksFit s
    still_fits s p page size e =
        let q = fit page size (sym (geometry-setup s start p) ∙ e) in
        let w = ap (λ (t : Setup). t.3) p in omega (arith, q, w)

    module _ (s t : IreeSession (S × Cells) F) (given : List ℕ) (r : Refines start given s) where
      Prefilled-Refines :
          (tokens : List ℕ)
          → Prefilled s tokens t
          → Holds t.context.1 tokens
          → Refines start tokens t
      Prefilled-Refines tokens p h = record {
        setup_kept = p.0.0 ∙ r.setup_kept;
        history = p.0.2;
        position = p.0.1;
        cells = h;
      }

      Advanced-Refines :
          (token : ℕ)
          → Advanced (mirror ctx) floats s token t
          → Holds t.context.1 (s.history ++ token ∷ [])
          → Refines start (given ++ token ∷ []) t
      Advanced-Refines token p h =
          let same = ap (λ x. x ++ token ∷ []) r.history in
          record {
            setup_kept = p.0 ∙ r.setup_kept;
            history = p.2 ∙ same;
            position =
                let k = r.position in
                let q = p.1 in omega (arith, length-append given (token ∷ []));
            cells = subst (Holds t.context.1) same h;
          }

      Unchanged-Refines : Held (Unchanged s) s.history t → Refines start given t
      Unchanged-Refines u = record {
        setup_kept = u.0.0 ∙ r.setup_kept;
        history = u.0.2 ∙ r.history;
        position = u.0.1 ∙ r.position;
        cells = subst (Holds t.context.1) r.history u.1;
      }

      counted : s.position ≡ length s.history
      counted = r.position ∙ ap length (sym r.history)

      ready : Held (Unchanged s) s.history s
      ready = ((refl, refl, refl), subst (Holds s.context.1) (sym r.history) r.cells)

    Run-Refines :
        {s : IreeSession (S × Cells) F} {given : List ℕ}
        → Run start s given
        → start.history ≡ []
        → start.position ≡ 0
        → Refines start given s
    Run-Refines Run.opened h p = record {
      setup_kept = refl;
      history = h;
      position = p;
      cells = λ i bound. absurd (omega arith);
    }
    Run-Refines
          (Run.prefilled {s = s} {t = t} {given = given} {tokens = tokens} {values = values} r e) h
          p =
        let before = Run-Refines r h p in
        Prefilled-Refines s t given before tokens
          (subst (Outcome (PrefillOk (mirror ctx) floats s tokens) (PrefillFailed s tokens)) e
            (prefill_lem (mirror ctx) s tokens)).0
          (succeeded (prefill-Held ctx s (still_fits s before.setup_kept) tokens) refl e).1
    Run-Refines (Run.prefilled_argmax {s = s} {t = t} {given = given} {tokens = tokens} r e) h p =
        let before = Run-Refines r h p in
        Prefilled-Refines s t given before tokens
          (subst (Outcome (λ v. Prefilled s tokens) (PrefillFailed s tokens)) e
            (prefill_argmax_lem (mirror ctx) floats s tokens))
          (succeeded (prefill_argmax-Held ctx s (still_fits s before.setup_kept) floats tokens) refl
            e).1
    Run-Refines (Run.decoded {s = s} {t = t} {given = given} token r e) h p =
        let before = Run-Refines r h p in
        Advanced-Refines s t given before token
          (subst (Outcome (DecodeOk (mirror ctx) floats s token) (Unchanged s)) e
            (decode_lem (mirror ctx) floats s token)).0.0
          (succeeded (decode-Stepped ctx floats s token (counted s t given before))
            (ready s t given before) e)
    Run-Refines (Run.decoded_argmax {s = s} {t = t} {given = given} token r e) h p =
        let before = Run-Refines r h p in
        Advanced-Refines s t given before token
          (subst
            (Outcome (λ v u. Advanced (mirror ctx) floats s token u × (s.position < max_seq s))
              (Unchanged s))
            e (decode_argmax_lem (mirror ctx) floats s token)).0
          (succeeded (decode_argmax-Stepped ctx floats s token (counted s t given before))
            (ready s t given before) e)
    Run-Refines (Run.decode_failed {s = s} {t = t} {given = given} token r e) h p =
        let before = Run-Refines r h p in
        Unchanged-Refines s t given before (
          failed (decode-Stepped ctx floats s token (counted s t given before))
            (ready s t given before) e)
    Run-Refines (Run.decode_argmax_failed {s = s} {t = t} {given = given} token r e) h p =
        let before = Run-Refines r h p in
        Unchanged-Refines s t given before (
          failed (decode_argmax-Stepped ctx floats s token (counted s t given before))
            (ready s t given before) e)
    Run-Refines (Run.was_reset {s = s} {t = t} r e) h p =
        let before = Run-Refines r h p in
        let q =
          subst (Outcome (ResetOk (mirror ctx) floats s) (Unchanged s)) e
            (reset_lem (mirror ctx) s) in
        record {
          setup_kept = q.0 ∙ before.setup_kept;
          history = q.2;
          position = q.1;
          cells = λ i bound. absurd (omega arith);
        }

  opened_fits :
      (storage : KvCacheStorage) (window page size : ℕ)
      → ((page size : ℕ) → storage ≡ paged page size → size ≤ window)
      → ◌≡◌ {A = Option (ℕ × ℕ)}
          (elim storage [ static_globals ↦ none | paged p q ↦ some (p, q) ])
          (some (page, size))
      → size ≤ window
  opened_fits static_globals window page size fit e = absurd (cc)
  opened_fits (paged p q) window page size fit e =
      let same : ◌≡◌ {A = ℕ × ℕ} (p, q) (page, size) = ground arith in
      fit page size (ap (λ (g : ℕ × ℕ). paged g.0 g.1) same)

  -- A session refines the sequence of tokens that the model has been fed. Over any context, take a run of a
  -- new session in which every prefill and every reset succeeds (a decode may fail), where a chunk of the paged
  -- cache is no longer than the window. Then the history is the tokens of the last prefill since the opening or
  -- the last reset, and of the successful decodes since; the position is their number; and the positions from 0 on
  -- of the cache, as the calls of the context tell, hold these tokens in order. In this account of the
  -- calls, an invocation that succeeds writes the real tokens of its window from its start position on, one that
  -- fails leaves nothing known from its start position on, and a reset of the paged cache empties the cache.
  pub run_refines :
      (as_u64 : Json → Option ℕ) (m : ModelMetadata) (c : SessionConfig) (kv : KvCacheDescriptor)
      (w : ℕ) (native : S) {s : IreeSession (S × Cells) F} {given : List ℕ}
      → ((page size : ℕ) → kv.storage ≡ paged page size → size ≤ max w 1)
      → Run (new as_u64 m c kv w (native, no_cells)) s given
      → (s.history ≡ given) × (s.position ≡ length given) × Holds s.context.1 given
  unfolding new paged_geometry
  run_refines as_u64 m c kv w native fit r =
      let start : IreeSession (S × Cells) F = new as_u64 m c kv w (native, no_cells) in
      let whole =
        Run-Refines start (λ page size e. opened_fits kv.storage (max w 1) page size fit e) r refl
          refl in
      (whole.history, whole.position, whole.cells)
