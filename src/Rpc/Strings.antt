-- ===== src/Rpc/Strings.antt =====
-- The texts of a request: C strings, and comparison of bytes.
use void_orchestrator.Base.{
  ℕ, suc, zero, ◌≤◌, ◌≡◌, ◌≢◌, ◌↔◌, inl, inr, refl, ap, true, none, some, List, [], ◌∷◌, ◌++◌,
  arith, All, Bool-cases, Option-cases, nat_eq, length, take, drop,
}
use void_orchestrator.Utf8.{
  from_bytes_with_nul, next_chunk, Chunk, valid, invalid, lossy_from, to_string_lossy, is_utf8_from,
  from_utf8,
}
use void_orchestrator.Text.{bytes_beq}

-- No byte is zero.
abbrev pub HasNoNul : List ℕ → Type 0
HasNoNul = All (λ b. b ≢ 0)

-- `bytes` is the C string of `s`.
abbrev pub IsCString : List ℕ → List ℕ → Type 0
IsCString bytes s = (bytes ≡ s ++ (0 ∷ [])) × HasNoNul s

pub from_bytes_with_nul-IsCString :
    (bytes s : List ℕ) → from_bytes_with_nul bytes ≡ some s → IsCString bytes s
unfolding from_bytes_with_nul
from_bytes_with_nul-IsCString [] s e = cc
from_bytes_with_nul-IsCString (b ∷ []) [] e = ground arith
from_bytes_with_nul-IsCString (b ∷ []) (x ∷ s) e = ground arith
from_bytes_with_nul-IsCString (b ∷ c ∷ rest) s e =
    elim (Option-cases (from_bytes_with_nul (c ∷ rest))) [
      | inl bad ↦ ground (arith, bad)
      | inr (t, good) ↦
          let (whole, clean) = from_bytes_with_nul-IsCString (c ∷ rest) t good in
          let (same, pos) : (b ∷ t ≡ s) × (b ≢ 0) = ground arith in
          rw (← same) ((ap (λ u. b ∷ u) whole, (pos, clean)))
    ]

-- A zero before the last byte.
pub from_bytes_with_nul-early :
    (s : List ℕ) (b : ℕ) (rest : List ℕ) → from_bytes_with_nul (s ++ (0 ∷ b ∷ rest)) ≡ none
unfolding from_bytes_with_nul
from_bytes_with_nul-early [] b rest = refl
from_bytes_with_nul-early (x ∷ []) b rest = ground arith
from_bytes_with_nul-early (x ∷ y ∷ s) b rest =
    rw (from_bytes_with_nul-early (y ∷ s) b rest) (ground arith)

pub IsCString-from_bytes_with_nul :
    (s : List ℕ) → HasNoNul s → from_bytes_with_nul (s ++ (0 ∷ [])) ≡ some s
unfolding from_bytes_with_nul
IsCString-from_bytes_with_nul [] h = refl
IsCString-from_bytes_with_nul (b ∷ []) h = ground arith
IsCString-from_bytes_with_nul (b ∷ c ∷ s) h =
    rw (IsCString-from_bytes_with_nul (c ∷ s) h.1) (ground arith)

pub bytes_beq_iff : (xs ys : List ℕ) → (bytes_beq xs ys ≡ true) ↔ (xs ≡ ys)
bytes_beq_iff [] [] = ground arith
bytes_beq_iff [] (y ∷ ys) = ground arith
bytes_beq_iff (x ∷ xs) [] = ground arith
bytes_beq_iff (x ∷ xs) (y ∷ ys) = ground (arith, bytes_beq_iff xs ys)

take-append-drop : (n : ℕ) (xs : List ℕ) → take n xs ++ drop n xs ≡ xs
take-append-drop zero xs = refl
take-append-drop (suc n) [] = refl
take-append-drop (suc n) (x ∷ xs) = ap (λ t. x ∷ t) (take-append-drop n xs)

length-drop : (n : ℕ) (xs : List ℕ) → length (drop n xs) ≤ length xs
length-drop zero xs = omega arith
length-drop (suc n) [] = omega arith
length-drop (suc n) (x ∷ xs) = omega (arith, length-drop n xs)

next_chunk-pos : (b : ℕ) (rest : List ℕ) (n : ℕ) → next_chunk b rest ≡ valid n → 1 ≤ n
unfolding next_chunk
next_chunk-pos b rest n e = ground arith

lossy_step :
    (fuel b : ℕ) (rest : List ℕ) (c : Chunk)
    → next_chunk b rest ≡ c
    → length rest ≤ fuel
    → is_utf8_from (suc fuel) (b ∷ rest) ≡ true
    → ((bytes : List ℕ)
        → length bytes ≤ fuel
        → is_utf8_from fuel bytes ≡ true
        → lossy_from fuel bytes ≡ bytes)
    → lossy_from (suc fuel) (b ∷ rest) ≡ b ∷ rest
unfolding lossy_from is_utf8_from
lossy_step fuel b rest (valid zero) e h v ih = absurd (omega (arith, next_chunk-pos b rest 0 e))
lossy_step fuel b rest (valid (suc n)) e h v ih =
    let v' = rw (is_utf8_from, e) at v in
    rw (lossy_from, e)
      (rw (ih (drop n rest) (omega (arith, length-drop n rest)) v')
        (take-append-drop (suc n) (b ∷ rest)))
lossy_step fuel b rest (invalid n) e h v ih = absurd (cc (rw (is_utf8_from, e) at v))

lossy_from-valid :
    (fuel : ℕ) (bytes : List ℕ)
    → length bytes ≤ fuel
    → is_utf8_from fuel bytes ≡ true
    → lossy_from fuel bytes ≡ bytes
unfolding lossy_from
lossy_from-valid zero [] h v = refl
lossy_from-valid zero (b ∷ rest) h v = absurd (omega arith)
lossy_from-valid (suc fuel) [] h v = refl
lossy_from-valid (suc fuel) (b ∷ rest) h v =
    lossy_step fuel b rest (next_chunk b rest) refl (omega arith) v (lossy_from-valid fuel)

-- Valid UTF-8 is read as it is.
pub to_string_lossy-from_utf8 :
    (bytes t : List ℕ) → from_utf8 bytes ≡ some t → (t ≡ bytes) × (to_string_lossy bytes ≡ bytes)
unfolding from_utf8 to_string_lossy
to_string_lossy-from_utf8 bytes t e = elim (Bool-cases (is_utf8_from (length bytes) bytes)) [
  | inl good ↦ (cc (rw good at e), lossy_from-valid (length bytes) bytes (omega arith) good)
  | inr bad ↦ absurd (cc (rw bad at e))
]
