-- ===== src/Tokenizer/Table.antt =====
-- The byte table of crates/dyninfer-runtime/src/tokenizer_bpe.rs gives each byte a character that the
-- decoder's map takes back.
use mathlib.Core.Path.{subst}
use dyninfer.Prelude.{
  ℕ, zero, suc, ◌+◌, ◌≤◌, ◌<◌, ◌≡◌, ◌∙◌, refl, sym, ap, inl, inr, Bool, true, false, some, List, [],
  ◌∷◌, ◌++◌, map, any, Bool-cases, leb, ◌==◌, ==_iff, if◌then◌else◌, all, arith,
}
use dyninfer.Tokenizer.Bytes.{lookup, range_from, printable, remaining, byte_pairs, char_pairs}

abbrev Table : Type 0
Table = List (ℕ × ℕ)

abbrev twice : List ℕ → Table
twice xs = map (λ b. (b, b)) xs

abbrev swapped : Table → Table
swapped ps = map (λ p. (p.1, p.0)) ps

abbrev known : List ℕ → ℕ → Bool
known xs b = any (λ c. b == c) xs

lookup-hit : (k v b : ℕ) (ps : Table) → (k == b) ≡ true → lookup ((k, v) ∷ ps) b ≡ some v
unfolding lookup
lookup-hit k v b ps e = ap (λ x. if x then some v else lookup ps b) e

lookup-miss : (k v b : ℕ) (ps : Table) → (k == b) ≡ false → lookup ((k, v) ∷ ps) b ≡ lookup ps b
unfolding lookup
lookup-miss k v b ps e = ap (λ x. if x then some v else lookup ps b) e

eq_flip : (a b : ℕ) (x : Bool) → (a == b) ≡ x → (b == a) ≡ x
eq_flip a b true e = ground arith
eq_flip a b false e = ground arith

known_tail :
    (x b : ℕ) (xs : List ℕ) → known (x ∷ xs) b ≡ true → (b == x) ≡ false → known xs b ≡ true
known_tail x b xs h e = ground arith

unknown_parts :
    (x b : ℕ) (xs : List ℕ) → known (x ∷ xs) b ≡ false → ((b == x) ≡ false) × (known xs b ≡ false)
unknown_parts x b xs h = ground arith

lookup-known :
    (xs : List ℕ) (ps : Table) (b : ℕ) → known xs b ≡ true → lookup (twice xs ++ ps) b ≡ some b
lookup-known [] ps b h = absurd (cc)
lookup-known (x ∷ xs) ps b h = elim (Bool-cases (b == x)) [
  | inl e ↦ lookup-hit x x b (twice xs ++ ps) (eq_flip b x true e) ∙ ap some (ground arith)
  | inr e ↦
      lookup-miss x x b (twice xs ++ ps) (eq_flip b x false e)
      ∙ lookup-known xs ps b (known_tail x b xs h e)
]

lookup-unknown :
    (xs : List ℕ) (ps : Table) (b : ℕ)
    → known xs b ≡ false
    → lookup (twice xs ++ ps) b ≡ lookup ps b
lookup-unknown [] ps b h = refl
lookup-unknown (x ∷ xs) ps b h =
    let parts = unknown_parts x b xs h in
    lookup-miss x x b (twice xs ++ ps) (eq_flip b x false parts.0) ∙ lookup-unknown xs ps b parts.1

swapped-twice : (xs : List ℕ) (ps : Table) → swapped (twice xs ++ ps) ≡ twice xs ++ swapped ps
swapped-twice [] ps = refl
swapped-twice (x ∷ xs) ps = ap (λ l. (x, x) ∷ l) (swapped-twice xs ps)

-- The table's entry of `b` is a character from `256 + n` on, which the swapped table takes back.
abbrev Back : ℕ → ℕ → Table → Type 0
Back n b ps = (c : ℕ) × (256 + n ≤ c) × (lookup ps b ≡ some c) × (lookup (swapped ps) c ≡ some b)

Back-later :
    (n b d : ℕ) (ps : Table) → (d == b) ≡ false → Back (suc n) b ps → Back n b ((d, 256 + n) ∷ ps)
Back-later n b d ps e (c, le, there, back) = (
  c,
  omega arith,
  lookup-miss d (256 + n) b ps e ∙ there,
  lookup-miss (256 + n) d c (swapped ps) (ground arith) ∙ back,
)

Back-now : (n b d : ℕ) (ps : Table) → (d == b) ≡ true → Back n b ((d, 256 + n) ∷ ps)
Back-now n b d ps e = (
  256 + n,
  omega arith,
  lookup-hit d (256 + n) b ps e,
  lookup-hit (256 + n) d (256 + n) (swapped ps) (ground arith) ∙ ap some (ground arith),
)

remaining-known :
    (d n : ℕ) (bs : List ℕ) → known printable d ≡ true → remaining (d ∷ bs) n ≡ remaining bs n
unfolding remaining
remaining-known d n bs e =
    ap
      (λ x.
        let rest = remaining bs (if x then n else suc n) in if x then rest else (d, 256 + n) ∷ rest)
      e

remaining-unknown :
    (d n : ℕ) (bs : List ℕ)
    → known printable d ≡ false
    → remaining (d ∷ bs) n ≡ (d, 256 + n) ∷ remaining bs (suc n)
unfolding remaining
remaining-unknown d n bs e =
    ap
      (λ x.
        let rest = remaining bs (if x then n else suc n) in if x then rest else (d, 256 + n) ∷ rest)
      e

known_differ : (xs : List ℕ) (b d : ℕ) → known xs d ≡ true → known xs b ≡ false → (b == d) ≡ false
known_differ xs b d e h = elim (Bool-cases (b == d)) [
  | inl same ↦ let other = subst (λ x. known xs x ≡ false) ((==_iff b d).0 same) h in absurd (cc)
  | inr different ↦ different
]

remaining-Back :
    (bs : List ℕ) (n b : ℕ)
    → known bs b ≡ true
    → known printable b ≡ false
    → Back n b (remaining bs n)
remaining-Back [] n b m h = absurd (cc)
remaining-Back (d ∷ bs) n b m h = elim (Bool-cases (known printable d)) [
  | inl e ↦
      subst (Back n b) (sym (remaining-known d n bs e))
        (remaining-Back bs n b (known_tail d b bs m (known_differ printable b d e h)) h)
  | inr e ↦ subst (Back n b) (sym (remaining-unknown d n bs e)) (elim (Bool-cases (b == d)) [
    | inl same ↦ Back-now n b d _ (eq_flip b d true same)
    | inr different ↦
        Back-later n b d _ (eq_flip b d false different)
          (remaining-Back bs (suc n) b (known_tail d b bs m different) h)
  ])
]

range_from-known : (lo n b : ℕ) → lo ≤ b → b < lo + n → known (range_from lo n) b ≡ true
unfolding range_from
range_from-known lo zero b le lt = absurd (omega arith)
range_from-known lo (suc n) b le lt = elim (Bool-cases (b == lo)) [
  | inl e ↦ ground arith
  | inr e ↦ let later = range_from-known (suc lo) n b (ground arith) (omega arith) in ground arith
]

large_unknown :
    (xs : List ℕ) (c : ℕ) → 256 ≤ c → all (λ x. leb x 255) xs ≡ true → known xs c ≡ false
large_unknown [] c h small = refl
large_unknown (x ∷ xs) c h small = ground (arith, large_unknown xs c h)

printable_small : all (λ x. leb x 255) printable ≡ true
unfolding range_from
printable_small = refl

-- Each byte has a character in the table, and the decoder's map takes it back to the byte.
pub byte_pairs-char_pairs :
    (b : ℕ) → b < 256 → (c : ℕ) × (lookup byte_pairs b ≡ some c) × (lookup char_pairs c ≡ some b)
byte_pairs-char_pairs b small =
    let rest = remaining (range_from 0 256) 0 in
    let swap = swapped-twice printable rest in
    elim (Bool-cases (known printable b)) [
      | inl e ↦ (
        b,
        lookup-known printable rest b e,
        ap (λ ps. lookup ps b) swap ∙ lookup-known printable (swapped rest) b e,
      )
      | inr e ↦
          let found =
            remaining-Back (range_from 0 256) 0 b
              (range_from-known 0 256 b (omega arith) (omega arith)) e in
          (
            found.0,
            lookup-unknown printable rest b e ∙ found.2,
            ap (λ ps. lookup ps found.0) swap
                ∙ lookup-unknown printable (swapped rest) found.0 (
                    large_unknown printable found.0 (let le = found.1 in omega arith)
                      printable_small)
                ∙ found.3,
          )
    ]
