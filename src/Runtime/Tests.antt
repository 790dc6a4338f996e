-- ===== src/Runtime/Tests.antt =====
-- The theorems on sessions at a concrete session, whose floating-point numbers are small naturals.
use dyninfer.Prelude.{
  ℕ, ◌≡◌, ◌<◌, ◌≤◌, if◌then◌else◌, refl, Option, none, some, [], ◌∷◌, ◌++◌, List, length, ok, ltb,
  arith, true, false,
}
use dyninfer.Prelude.Json.{Json}
use dyninfer.Core.Scalar.{f16}
use dyninfer.Core.KvCache.{KvCacheDescriptor, layers_heads_seq_dim, paged}
use dyninfer.Runtime.Floats.{Floats}
use dyninfer.Runtime.Session.{
  IreeSession, ModelMetadata, SessionConfig, max_seq, paged_geometry, new,
}
use dyninfer.Runtime.Session.Actions.{Outcome, ◌>>=◌}
use dyninfer.Runtime.Session.Prefill.{prefill, prefill_argmax}
use dyninfer.Runtime.Session.Decode.{decode, decode_argmax, reset}
use dyninfer.Runtime.Session.Setup.{setup, Unchanged}
use dyninfer.Runtime.Session.PrefillOutcome.{
  Prefilled, PrefillFailed, prefill_lem, prefill_argmax_lem,
}
use dyninfer.Runtime.Session.DecodeOutcome.{Advanced, decode_lem, decode_argmax_lem, reset_lem}
use dyninfer.Runtime.Session.Invariant.{
  prefill_call, decode_call, reset_call, Bounded, perform_all, perform_all-Bounded,
}
use dyninfer.Runtime.Context.{Context}
use dyninfer.Prelude.Int.{pos}
use dyninfer.Runtime.Session.Cells.{Cells, no_cells, write, Holds, mirror}
use dyninfer.Runtime.Session.Refinement.{Run, run_refines}
use dyninfer.Runtime.Session.Windows.{Invocation, Feeds}
use dyninfer.Runtime.Session.Recorded.{prefill_feeds}
use dyninfer.Runtime.Session.Recorder.{recorder}

abbrev floats : Floats ℕ
floats = record { zero = 1; masked = 0; neg_infinity = 0; gt = λ a b. ltb b a }

abbrev metadata : ModelMetadata
metadata = record {
  architecture_id = "llama.decoder";
  architecture_revision = "0.1.0";
  vocabulary_size = 3;
  context_length = 32;
  num_layers = 2;
  num_heads = 4;
  num_kv_heads = 2;
  head_dim = 8;
  hidden_size = 32;
  extra = [];
}

abbrev config : SessionConfig
config = record { max_sequence_length = 8; batch_size = 1; seed = none }

abbrev cache : KvCacheDescriptor
cache = record {
  layer_count = 2;
  max_batch_size = 1;
  max_sequence_length = 32;
  kv_head_count = 2;
  head_dimension = 8;
  element_type = f16;
  layout = layers_heads_seq_dim;
  alignment = 64;
  storage = paged 16 2;
}

-- the logits tell how many invocations there have been
abbrev logits : List Invocation → List ℕ
logits vs = length vs ∷ 9 ∷ 5 ∷ []

abbrev prompt : List ℕ
prompt = 1 ∷ 2 ∷ 0 ∷ []

abbrev no_number : Json → Option ℕ
no_number j = none

abbrev opened : IreeSession (List Invocation) ℕ
opened = record {
  metadata = metadata;
  config = config;
  kv = cache;
  prefill_window = 4;
  pad_token_id = 0;
  position = 0;
  history = [];
  context = [];
  attn_bias = [];
}

abbrev fed : List Invocation
fed =
    record { window = 1 ∷ 2 ∷ 0 ∷ 0 ∷ []; last = 1; start = 0; want_logits = false }
    ∷ record { window = 0 ∷ 0 ∷ 0 ∷ 0 ∷ []; last = 0; start = 2; want_logits = true }
    ∷ []

abbrev loaded : IreeSession (List Invocation) ℕ
loaded = record opened { history = prompt; position = 3; context = fed }

abbrev longer : IreeSession (List Invocation) ℕ
longer = record loaded {
  history = 1 ∷ 2 ∷ 0 ∷ 1 ∷ [];
  position = 4;
  context = fed ++ record { window = 1 ∷ []; last = 0; start = 3; want_logits = true } ∷ [];
}

prefills : prefill (recorder logits) prompt opened ≡ (loaded, ok (logits fed))
unfolding prefill ◌>>=◌
prefills = refl

decodes : decode (recorder logits) floats 1 loaded ≡ (longer, ok (logits longer.context))
unfolding decode ◌>>=◌
decodes = refl

prefill_lem_example :
    Outcome
      (λ values s. Prefilled opened prompt s × (length values ≡ 3))
      (PrefillFailed opened prompt)
      (prefill (recorder logits) prompt opened)
prefill_lem_example = prefill_lem (recorder logits) opened prompt

prefill_argmax_lem_example :
    Outcome
      (λ token. Prefilled opened prompt)
      (PrefillFailed opened prompt)
      (prefill_argmax (recorder logits) floats prompt opened)
prefill_argmax_lem_example = prefill_argmax_lem (recorder logits) floats opened prompt

decode_lem_example :
    Outcome
      (λ values s.
        (Advanced (recorder logits) floats loaded 1 s × (3 < max_seq loaded)) × (length values ≡ 3))
      (Unchanged loaded)
      (decode (recorder logits) floats 1 loaded)
decode_lem_example = decode_lem (recorder logits) floats loaded 1

decode_argmax_lem_example :
    Outcome
      (λ next s. Advanced (recorder logits) floats loaded 1 s × (3 < max_seq loaded))
      (Unchanged loaded)
      (decode_argmax (recorder logits) floats 1 loaded)
decode_argmax_lem_example = decode_argmax_lem (recorder logits) floats loaded 1

reset_lem_example :
    Outcome
      (λ _ s. (setup s ≡ setup loaded) × (s.position ≡ 0) × (s.history ≡ []))
      (Unchanged loaded)
      (reset (recorder logits) loaded)
reset_lem_example = reset_lem (recorder logits) loaded

perform_all-Bounded_example : Bounded opened (
    perform_all
      (recorder logits)
      floats
      (prefill_call prompt ∷ decode_call 1 ∷ reset_call ∷ [])
      opened)
perform_all-Bounded_example =
    perform_all-Bounded (recorder logits) floats
      (prefill_call prompt ∷ decode_call 1 ∷ reset_call ∷ []) opened (omega arith)

-- a context without a state, which gives logits where they are asked for
abbrev plain : Context (Unit {0}) ℕ
plain = record {
  reset_paged_kv = λ s. (s, ok tt);
  ensure_kv_pages = λ pages s. (s, ok tt);
  invoke_paged_chunk_ex =
      λ window last start want s. (s, ok ((if want then some prompt else none), pos 1));
  invoke_prefill = λ window last s. (s, ok prompt);
  invoke_decode = λ token position bias s. (s, ok prompt);
}

abbrev fresh : IreeSession (Unit {0} × Cells) ℕ
fresh = record {
  metadata = metadata;
  config = config;
  kv = cache;
  prefill_window = 4;
  pad_token_id = 0;
  position = 0;
  history = [];
  context = (tt, no_cells);
  attn_bias = [];
}

-- the cells of two chunks, and of a decoded token behind them
abbrev prompt_cells : Cells
prompt_cells = write (write no_cells 0 (1 ∷ 2 ∷ [])) 2 (0 ∷ [])

abbrev prompted : IreeSession (Unit {0} × Cells) ℕ
prompted = record fresh { history = prompt; position = 3; context = (tt, prompt_cells) }

abbrev stepped : IreeSession (Unit {0} × Cells) ℕ
stepped = record prompted {
  history = 1 ∷ 2 ∷ 0 ∷ 1 ∷ [];
  position = 4;
  context = (tt, write prompt_cells 3 (1 ∷ []));
}

starts : new no_number metadata config cache 4 (tt, no_cells) ≡ fresh
unfolding new
starts = refl

chunks_fit : (page size : ℕ) → paged 16 2 ≡ paged page size → size ≤ 4
chunks_fit page size e = let q : 2 ≡ size = cc in omega arith

prefills_cells : prefill (mirror plain) prompt fresh ≡ (prompted, ok prompt)
unfolding prefill ◌>>=◌
prefills_cells = refl

decodes_cells : decode (mirror plain) floats 1 prompted ≡ (stepped, ok prompt)
unfolding decode ◌>>=◌
decodes_cells = refl

run_refines_example :
    (stepped.history ≡ 1 ∷ 2 ∷ 0 ∷ 1 ∷ [])
    × (stepped.position ≡ 4)
    × Holds stepped.context.1 (1 ∷ 2 ∷ 0 ∷ 1 ∷ [])
unfolding new
run_refines_example =
    run_refines plain floats no_number metadata config cache 4 tt chunks_fit
      (Run.decoded 1 (Run.prefilled Run.opened prefills_cells) decodes_cells)

geometry : paged_geometry opened ≡ some (16, 2)
unfolding paged_geometry
geometry = refl

limit : max_seq opened ≡ 8
unfolding max_seq
limit = refl

prefill_feeds_example :
    Outcome
      (λ values s.
        (setup s ≡ setup opened) × Feeds 0 s.context prompt × (values ≡ logits s.context))
      (λ s. ⊥)
      (prefill (recorder logits) prompt opened)
prefill_feeds_example =
    prefill_feeds logits opened 16 2 prompt (omega arith) (omega arith) (omega arith) (omega arith)
      geometry refl (let e = limit in omega arith) (λ vs. refl)
