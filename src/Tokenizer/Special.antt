-- ===== src/Tokenizer/Special.antt =====
-- Where the special pieces stand in a text: `find` and the loop over `special_pieces` in `encode`, in
-- crates/dyninfer-runtime/src/tokenizer_bpe.rs.
use mathlib.Core.Path.{subst}
use mathlib.Core.Option.{some-injective}
use dyninfer.Prelude.{
  ℕ, suc, ◌+◌, ◌≤◌, ◌≡◌, ◌∙◌, refl, sym, ap, ◌⊎◌, inl, inr, Bool, true, false, &&_parts, Option,
  none, some, List, [], ◌∷◌, ◌++◌, Memᴰ, All, length, take, drop, Option-cases, Bool-cases, ltb,
  ◌==◌, ==_iff, if◌then◌else◌, arith,
}
use dyninfer.Tokenizer.Bpe.{Text}
use dyninfer.Tokenizer.Encode.{
  TokenEntry, starts_with, find_piece, SpecialAt, note_special, find_special,
}

starts_with-append : (p text : Text) → starts_with p text ≡ true → text ≡ p ++ drop (length p) text
unfolding starts_with
starts_with-append [] text h = refl
starts_with-append (c ∷ p) [] h = cc
starts_with-append (c ∷ p) (d ∷ text) h =
    let parts = &&_parts (c == d) (starts_with p text) h in
    let same = (==_iff c d).0 parts.0 in λ i. sym same i ∷ starts_with-append p text parts.1 i

suc_plus : (a b : ℕ) → suc (a + b) ≡ suc a + b
suc_plus a b = omega arith

-- The piece stands at the position `k`.
abbrev pub StandsAt : Text → Text → ℕ → Type 0
StandsAt p text k =
    (text ≡ take k text ++ (p ++ drop (k + length p) text)) × (length (take k text) ≡ k)

stands_first : (p text : Text) → starts_with p text ≡ true → StandsAt p text 0
stands_first p text h =
    (starts_with-append p text h ∙ ap (λ n. p ++ drop n text) (omega arith), refl)

stands_later : (p text : Text) (d k : ℕ) → StandsAt p text k → StandsAt p (d ∷ text) (suc k)
stands_later p text d k h =
    let same : drop (k + length p) text ≡ drop (suc k + length p) (d ∷ text) =
      ap (λ n. drop n (d ∷ text)) (suc_plus k (length p)) in
    (ap (λ l. d ∷ l) (h.0 ∙ ap (λ l. take k text ++ (p ++ l)) same), ap suc h.1)

pub find_piece-StandsAt : (p text : Text) (k : ℕ) → find_piece p text ≡ some k → StandsAt p text k
unfolding find_piece
find_piece-StandsAt p [] k h = elim (Bool-cases (starts_with p [])) [
  | inl e ↦ subst (StandsAt p []) (ground arith) (stands_first p [] e)
  | inr e ↦ absurd (ground arith)
]
find_piece-StandsAt p (d ∷ text) k h = elim (Bool-cases (starts_with p (d ∷ text))) [
  | inl e ↦ subst (StandsAt p (d ∷ text)) (ground arith) (stands_first p (d ∷ text) e)
  | inr e ↦ elim (Option-cases (find_piece p text)) [
    | inl n ↦ absurd (ground arith)
    | inr (i, s) ↦
        subst (StandsAt p (d ∷ text)) (ground arith)
          (stands_later p text d i (find_piece-StandsAt p text i s))
  ]
]

note_special-none :
    (best : Option SpecialAt) (q : TokenEntry) (o : Option ℕ)
    → note_special best q o ≡ none
    → (best ≡ none) × (o ≡ none)
note_special-none best q none h = (h, refl)
note_special-none none q (some k) h = absurd (cc)
note_special-none (some b) q (some k) h = ground arith

abbrev noted : TokenEntry → ℕ → SpecialAt → Bool → Option SpecialAt
noted q k a x = if x then some (record { pos = k; special = q }) else some a

noted-true :
    (q : TokenEntry) (k : ℕ) (a : SpecialAt)
    → ltb k a.pos ≡ true
    → note_special (some a) q (some k) ≡ some (record { pos = k; special = q })
noted-true q k a e = ap (noted q k a) e

noted-false :
    (q : TokenEntry) (k : ℕ) (a : SpecialAt)
    → ltb k a.pos ≡ false
    → note_special (some a) q (some k) ≡ some a
noted-false q k a e = ap (noted q k a) e

pos_eq : (a b : SpecialAt) → some a ≡ some b → a.pos ≡ b.pos
pos_eq a b h = ap (λ s. s.pos) (some-injective a b h)

from_noted :
    (q : TokenEntry) (k : ℕ) (best : Option SpecialAt) (s : SpecialAt)
    → some (record { pos = k; special = q }) ≡ some s
    → (best ≡ some s) ⊎ ((s.special ≡ q) × (some k ≡ some s.pos))
from_noted q k best s h =
    let e = some-injective _ _ h in inr (ap (λ x. x.special) (sym e), ap (λ x. some x.pos) e)

note_special-some :
    (best : Option SpecialAt) (q : TokenEntry) (o : Option ℕ) (s : SpecialAt)
    → note_special best q o ≡ some s
    → (best ≡ some s) ⊎ ((s.special ≡ q) × (o ≡ some s.pos))
note_special-some best q none s h = inl h
note_special-some none q (some k) s h = from_noted q k none s h
note_special-some (some b) q (some k) s h = elim (Bool-cases (ltb k b.pos)) [
  | inl e ↦ from_noted q k (some b) s (sym (noted-true q k b e) ∙ h)
  | inr e ↦ inl (sym (noted-false q k b e) ∙ h)
]

note_special-keeps :
    (best : Option SpecialAt) (q : TokenEntry) (o : Option ℕ) (b : SpecialAt)
    → best ≡ some b
    → (b' : SpecialAt) × (note_special best q o ≡ some b') × (b'.pos ≤ b.pos)
note_special-keeps best q none b h = (b, h, omega arith)
note_special-keeps none q (some k) b h = absurd (cc)
note_special-keeps (some a) q (some k) b h =
    let same : a.pos ≡ b.pos = pos_eq a b h in
    elim (Bool-cases (ltb k a.pos)) [
      | inl e ↦ (record { pos = k; special = q }, noted-true q k a e, ground arith)
      | inr e ↦ (a, noted-false q k a e, omega arith)
    ]

note_special-notes :
    (best : Option SpecialAt) (q : TokenEntry) (o : Option ℕ) (k : ℕ)
    → o ≡ some k
    → (b' : SpecialAt) × (note_special best q o ≡ some b') × (b'.pos ≤ k)
note_special-notes best q none k h = absurd (cc)
note_special-notes none q (some j) k h = (record { pos = j; special = q }, refl, ground arith)
note_special-notes (some a) q (some j) k h = elim (Bool-cases (ltb j a.pos)) [
  | inl e ↦ (record { pos = j; special = q }, noted-true q j a e, ground arith)
  | inr e ↦ (a, noted-false q j a e, ground arith)
]

-- No special piece stands in the text.
pub NoSpecial : List TokenEntry → Text → Type 0
NoSpecial qs text = All (λ q. find_piece q.piece text ≡ none) qs

-- No special piece stands before the position `n`.
pub NoneBefore : List TokenEntry → Text → ℕ → Type 0
NoneBefore qs text n = All (λ q. (k : ℕ) → find_piece q.piece text ≡ some k → n ≤ k) qs

pub find_special-none :
    (qs : List TokenEntry) (text : Text) (best : Option SpecialAt)
    → find_special qs text best ≡ none
    → (best ≡ none) × NoSpecial qs text
unfolding find_special NoSpecial
find_special-none [] text best h = (h, tt)
find_special-none (q ∷ qs) text best h =
    let rest = find_special-none qs text (note_special best q (find_piece q.piece text)) h in
    let now = note_special-none best q (find_piece q.piece text) rest.0 in (now.0, (now.1, rest.1))

-- The special piece that is chosen is one of `qs` that stands at its position.
abbrev pub Chosen : List TokenEntry → Text → SpecialAt → Type 0
Chosen qs text s = Memᴰ s.special qs × (find_piece s.special.piece text ≡ some s.pos)

pub find_special-some :
    (qs : List TokenEntry) (text : Text) (best : Option SpecialAt) (s : SpecialAt)
    → find_special qs text best ≡ some s
    → ((best ≡ some s) ⊎ Chosen qs text s)
      × ((b : SpecialAt) → best ≡ some b → s.pos ≤ b.pos)
      × NoneBefore qs text s.pos
unfolding find_special NoneBefore
find_special-some [] text best s h =
    (inl h, λ b e. let same = pos_eq b s (sym e ∙ h) in omega arith, tt)
find_special-some (q ∷ qs) text best s h =
    let o = find_piece q.piece text in
    let rest = find_special-some qs text (note_special best q o) s h in
    (
      elim rest.0 [
        | inl e ↦ elim (note_special-some best q o s e) [
          | inl kept ↦ inl kept
          | inr (is_q, at_pos) ↦
              inr (Memᴰ.head is_q, ap (λ x. find_piece x.piece text) is_q ∙ at_pos)
        ]
        | inr (m, at_pos) ↦ inr (Memᴰ.tail m, at_pos)
      ],
      λ b e.
          let kept = note_special-keeps best q o b e in
          let le = rest.1 kept.0 kept.1 in omega arith,
      (
        λ k e.
            let now = note_special-notes best q o k e in let le = rest.1 now.0 now.1 in omega arith,
        rest.2,
      ),
    )
