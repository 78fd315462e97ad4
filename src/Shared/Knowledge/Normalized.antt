-- ===== src/Shared/Knowledge/Normalized.antt =====
-- The normalized text and its map to the source (`normalizeWithSourceMap` of
-- packages/shared/src/knowledge.ts).
use lex_os.Prelude.{
  ℕ, suc, ◌+◌, ◌≤◌, ◌<◌, ◌≡◌, ◌≢◌, refl, ◌⊎◌, Bool, true, false, ◌&&◌, inl, inr, List, [], ◌∷◌,
  arith, ◌==◌, length, Bool-cases,
}
use lex_os.Shared.Knowledge.{
  Mapped, note_space, note, scan, drop_last_space, reverse_onto, normalize_with_source_map,
}

-- The list as it is built, its last element first: the ranges go backwards and are not empty, no
-- two spaces meet, and the text does not begin with a space.
abbrev Behind : Mapped → List Mapped → Type 0
Behind m [] = (m.start < m.finish) × (m.unit ≢ 32)
Behind m (k ∷ ms) =
    (m.start < m.finish)
    × (k.finish ≤ m.start)
    × ((m.unit == 32 && k.unit == 32) ≡ false)
    × Behind k ms

abbrev Tidy : ℕ → List Mapped → Type 0
Tidy i [] = Unit
Tidy i (m ∷ ms) = (m.finish ≤ i) × Behind m ms

-- The finished list, read forwards from the source position `p`: each range starts after the one
-- before and is not empty, no space follows a space (`after_space`), and the last is no space.
abbrev pub Forward : ℕ → ℕ → Bool → List Mapped → Type 0
Forward size p after_space [] = (p ≤ size) × (after_space ≡ false)
Forward size p after_space (m ∷ ms) =
    (p ≤ m.start)
    × (m.start < m.finish)
    × ((after_space && m.unit == 32) ≡ false)
    × Forward size m.finish (m.unit == 32) ms

note-Tidy : (c i e : ℕ) (ms : List Mapped) → i < e → Tidy i ms → Tidy e (note c i e ms)
unfolding note note_space
note-Tidy c i e [] h t = ground arith
note-Tidy c i e (m ∷ []) h t = ground arith
note-Tidy c i e (m ∷ k ∷ ms) h t = ground arith

scan-Tidy :
    (i : ℕ) (rest : List ℕ) (ms : List Mapped) → Tidy i ms → Tidy (i + length rest) (scan i rest ms)
unfolding scan
scan-Tidy i [] ms t = let same : i + 0 ≡ i = omega arith in rw same t
scan-Tidy i (c ∷ []) ms t = note-Tidy c i (i + 1) ms (omega arith) t
scan-Tidy i (c ∷ d ∷ rest) ms t = elim (Bool-cases (c == 13 && d == 10)) [
  | inl both ↦
      let after =
        scan-Tidy (i + 2) rest (note c i (i + 2) ms) (note-Tidy c i (i + 2) ms (omega arith) t) in
      let same : i + 2 + length rest ≡ i + suc (suc (length rest)) = omega arith in
      rw (both, scan) (rw (← same) after)
  | inr other ↦
      let after =
        scan-Tidy (i + 1) (d ∷ rest) (note c i (i + 1) ms)
          (note-Tidy c i (i + 1) ms (omega arith) t) in
      let same : i + 1 + suc (length rest) ≡ i + suc (suc (length rest)) = omega arith in
      rw (other, scan) (rw (← same) after)
]

reverse_onto-Forward :
    (size : ℕ) (m : Mapped) (ms out : List Mapped)
    → Behind m ms
    → Forward size m.finish (m.unit == 32) out
    → Forward size 0 true (reverse_onto (m ∷ ms) out)
unfolding reverse_onto
reverse_onto-Forward size m [] out b f = (omega arith, b.0, ground arith, f)
reverse_onto-Forward size m (k ∷ ms) out b f =
    reverse_onto-Forward size k ms (m ∷ out) b.3 (b.1, b.0, ground arith, f)

-- Without the last space, nothing is left, or a text that ends in no space.
finish-Forward :
    (size : ℕ) (ms : List Mapped)
    → Tidy size ms
    → (reverse_onto (drop_last_space ms) [] ≡ [])
      ⊎ Forward size 0 true (reverse_onto (drop_last_space ms) [])
unfolding drop_last_space
finish-Forward size [] t = inl (unfold reverse_onto in refl)
finish-Forward size (m ∷ []) t =
    let other : (m.unit == 32) ≡ false = ground arith in
    inr (rw (other, drop_last_space) (reverse_onto-Forward size m [] [] t.1 (t.0, other)))
finish-Forward size (m ∷ k ∷ ms) t = elim (Bool-cases (m.unit == 32)) [
  | inl space ↦ inr (
      rw (space, drop_last_space)
        (reverse_onto-Forward size k ms [] t.1.3 (ground arith, ground arith)))
  | inr other ↦
      inr (rw (other, drop_last_space) (reverse_onto-Forward size m (k ∷ ms) [] t.1 (t.0, other)))
]

-- The normalized text is empty, or neither begins nor ends with a space and has no two spaces
-- together, and its code units stand for non-empty ranges of the source that follow one another
-- within it.
pub normalize-Forward :
    (source : List ℕ)
    → (normalize_with_source_map source ≡ [])
      ⊎ Forward (length source) 0 true (normalize_with_source_map source)
unfolding normalize_with_source_map
normalize-Forward source = finish-Forward (length source) (scan 0 source []) (
    let same : 0 + length source ≡ length source = omega arith in
    rw same at (scan-Tidy 0 source [] tt))
