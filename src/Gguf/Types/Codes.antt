-- ===== src/Gguf/Types/Codes.antt =====
-- The codes of crates/dyninfer-checkpoint-gguf/src/types.rs are read back, and nothing else is.
use dyninfer.Prelude.{ℕ, ◌≡◌, ◌↔◌, refl, some, List, [], ◌∷◌, All, ok, ok_or-eq-ok, arith}
use dyninfer.Checkpoint.Errors.{unknown_type_code}
use dyninfer.Gguf.Types.{GgufType, code, arms, match_code, from_u32}

from_u32-code_lem : (t : GgufType) → from_u32 (code t) ≡ ok t
unfolding from_u32 code
from_u32-code_lem GgufType.f32 = refl
from_u32-code_lem GgufType.f16 = refl
from_u32-code_lem GgufType.q4_0 = refl
from_u32-code_lem GgufType.q4_1 = refl
from_u32-code_lem GgufType.q5_0 = refl
from_u32-code_lem GgufType.q5_1 = refl
from_u32-code_lem GgufType.q8_0 = refl
from_u32-code_lem GgufType.q8_1 = refl
from_u32-code_lem GgufType.q2_k = refl
from_u32-code_lem GgufType.q3_k = refl
from_u32-code_lem GgufType.q4_k = refl
from_u32-code_lem GgufType.q5_k = refl
from_u32-code_lem GgufType.q6_k = refl
from_u32-code_lem GgufType.q8_k = refl
from_u32-code_lem GgufType.iq2_xxs = refl
from_u32-code_lem GgufType.iq2_xs = refl
from_u32-code_lem GgufType.iq3_xxs = refl
from_u32-code_lem GgufType.iq1_s = refl
from_u32-code_lem GgufType.iq4_nl = refl
from_u32-code_lem GgufType.iq3_s = refl
from_u32-code_lem GgufType.iq2_s = refl
from_u32-code_lem GgufType.iq4_xs = refl
from_u32-code_lem GgufType.i8 = refl
from_u32-code_lem GgufType.i16 = refl
from_u32-code_lem GgufType.i32 = refl
from_u32-code_lem GgufType.i64 = refl
from_u32-code_lem GgufType.f64 = refl
from_u32-code_lem GgufType.iq1_m = refl
from_u32-code_lem GgufType.bf16 = refl
from_u32-code_lem GgufType.tq1_0 = refl
from_u32-code_lem GgufType.tq2_0 = refl
from_u32-code_lem GgufType.mxfp4 = refl

-- every arm pairs a type with its own code
abbrev Coded : ℕ × GgufType → Type 0
Coded p = code p.1 ≡ p.0

arms-Coded : All Coded arms
unfolding code
arms-Coded = omega arith

match_code-some :
    (v : ℕ) (l : List (ℕ × GgufType)) {t : GgufType}
    → All Coded l
    → match_code v l ≡ some t
    → code t ≡ v
unfolding match_code
match_code-some v [] h e = absurd (cc)
match_code-some v ((c, s) ∷ rest) {t} h e = ground (arith, h.0, match_code-some v rest {t = t} h.1)

from_u32_sound : (v : ℕ) (t : GgufType) → from_u32 v ≡ ok t → code t ≡ v
unfolding from_u32
from_u32_sound v t e =
    match_code-some v arms arms-Coded (ok_or-eq-ok (match_code v arms) (unknown_type_code v) e)

-- `from_u32` reads the code of every type back as that type, and accepts no other number: what it
-- returns has the number as its code.
pub from_u32_iff : (v : ℕ) (t : GgufType) → (from_u32 v ≡ ok t) ↔ (code t ≡ v)
from_u32_iff v t = (from_u32_sound v t, λ e. rw (← e) (from_u32-code_lem t))
