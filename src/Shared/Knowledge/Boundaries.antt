-- ===== src/Shared/Knowledge/Boundaries.antt =====
-- The chunks of a text advance, and cover it (packages/shared/src/knowledge.ts).
use lex_os.Prelude.{
  ℕ, zero, suc, ◌+◌, ◌-◌, ◌≤◌, ◌<◌, ◌≡◌, refl, false, inl, inr, some, List, [], ◌∷◌, String, ok,
  err, arith, ltb, leb, if◌then◌else◌, length, get_elem?, take, drop, map, Bool-cases, Option-cases,
}
use lex_os.Shared.Knowledge.{
  Chunk, Options, Mapped, unit_of, last_index_of, index_of, safe_boundary, next_chunk_start, slice,
  chunk_at, chunk_loop, chunk_knowledge_text, is_invalid, normalize_with_source_map, end_of,
  is_empty, invalid_configuration, maximum, minimum,
}

last_index_of-le : (content : List Mapped) (p w : ℕ) → last_index_of content p ≡ some w → w ≤ p
unfolding last_index_of
last_index_of-le content zero w e = ground arith
last_index_of-le content (suc p) w e = ground (arith, last_index_of-le content p w)

index_of-ge : (i k : ℕ) (ms : List Mapped) → index_of i ms ≡ some k → i ≤ k
unfolding index_of
index_of-ge i k [] e = absurd (cc)
index_of-ge i k (m ∷ ms) e = ground (arith, index_of-ge (i + 1) k ms)

-- A chunk that may hold two code units at least ends after its start, and not too late.
safe_boundary-bounds :
    (content : List Mapped) (start m : ℕ)
    → m ≤ length content
    → start < m
    → (m < length content → start + 2 ≤ m)
    → (start < safe_boundary content start m) × (safe_boundary content start m ≤ m)
unfolding safe_boundary
safe_boundary-bounds content start m inside late two = elim (Bool-cases (leb (length content) m)) [
  | inl last ↦ rw last (ground arith)
  | inr more ↦ elim (Option-cases (last_index_of content m)) [
    | inl no_space ↦ rw (more, no_space) (ground arith)
    | inr (w, found) ↦
        let before = last_index_of-le content m w found in rw (more, found) (ground arith)
  ]
]

next_chunk_start-bounds :
    (content : List Mapped) (start e overlap : ℕ)
    → start < e
    → e ≤ length content
    → (start < next_chunk_start content start e overlap)
      × (next_chunk_start content start e overlap ≤ e)
unfolding next_chunk_start
next_chunk_start-bounds content start e overlap late inside =
    let target = maximum (start + 1) (e - overlap) in
    elim (Option-cases (index_of target (drop target content))) [
      | inl no_space ↦ rw no_space (ground arith)
      | inr (k, found) ↦
          let after = index_of-ge target k (drop target content) found in rw found (ground arith)
    ]

get_elem?-of_lt :
    (content : List Mapped) (i : ℕ)
    → i < length content
    → (m : Mapped) × (get_elem? content i ≡ some m)
get_elem?-of_lt [] i h = absurd (omega arith)
get_elem?-of_lt (m ∷ ms) zero h = (m, refl)
get_elem?-of_lt (m ∷ ms) (suc i) h = get_elem?-of_lt ms i (omega arith)

drop-of_lt :
    (content : List Mapped) (i : ℕ)
    → i < length content
    → (m : Mapped) × ((ms : List Mapped) × (drop i content ≡ m ∷ ms))
drop-of_lt [] i h = absurd (omega arith)
drop-of_lt (m ∷ ms) zero h = (m, (ms, refl))
drop-of_lt (m ∷ ms) (suc i) h = drop-of_lt ms i (omega arith)

take-of_pos :
    (k : ℕ) (m : Mapped) (ms : List Mapped)
    → 0 < k
    → (rest : List Mapped) × (take k (m ∷ ms) ≡ m ∷ rest)
take-of_pos zero m ms h = absurd (omega arith)
take-of_pos (suc k) m ms h = (take k ms, refl)

slice-of_lt :
    (content : List Mapped) (start e : ℕ)
    → start < e
    → start < length content
    → (m : Mapped) × ((ms : List Mapped) × (slice content start e ≡ m ∷ ms))
slice-of_lt content start e late inside =
    let (m, (ms, dropped)) = drop-of_lt content start inside in
    let (rest, taken) = take-of_pos (e - start) m ms (omega arith) in (m, (rest, rw dropped taken))

-- `c` is the chunk of `content` from `start` to `e`, with the source range of its ends.
pub record IsChunk (hash : List ℕ → String) (options : Options) (content : List Mapped)
    (index start e : ℕ) (c : Chunk) : Type 0 where
  pub numbered : c.chunk_index ≡ index
  pub copied : c.content ≡ map unit_of (slice content start e)
  pub hashed : c.content_hash ≡ hash c.content
  pub on_page : c.locator.page_number ≡ options.page_number
  pub first : Mapped
  pub at_first : get_elem? content start ≡ some first
  pub from : c.locator.start_offset ≡ first.start
  pub last : Mapped
  pub at_last : get_elem? content (e - 1) ≡ some last
  pub to : c.locator.end_offset ≡ last.finish

module _ (hash : List ℕ → String) (options : Options) (content : List Mapped) where
  chunk_at-IsChunk :
      (index start e : ℕ)
      → start < e
      → e ≤ length content
      → (c : Chunk) × (chunk_at hash options content index start e ≡ ok c)
        × IsChunk hash options content index start e c
  unfolding chunk_at
  chunk_at-IsChunk index start e late inside =
      let (first, at_first) = get_elem?-of_lt content start (omega arith) in
      let (last, at_last) = get_elem?-of_lt content (e - 1) (omega arith) in
      let (m, (ms, cut)) = slice-of_lt content start e late (omega arith) in
      let c : Chunk = record {
        chunk_index = index;
        content = map unit_of (slice content start e);
        content_hash = hash (map unit_of (slice content start e));
        locator = record {
          page_number = options.page_number;
          start_offset = first.start;
          end_offset = last.finish;
        };
      } in
      (
        c,
        rw (at_first, chunk_at, at_last, cut) refl,
        record {
          numbered = refl;
          copied = refl;
          hashed = refl;
          on_page = refl;
          first = first;
          at_first = at_first;
          from = refl;
          last = last;
          at_last = at_last;
          to = refl;
        },
      )

  -- The chunks from `start` on: each ends after its start and within the maximum, and the next one
  -- starts after it started, and no later than it ends. After the last, nothing is left.
  abbrev pub Cover : ℕ → ℕ → List Chunk → Type 0
  Cover index start [] = start ≡ length content
  Cover index start (c ∷ cs) =
      (e : ℕ) × (n : ℕ) × (start < e)
      × (e ≤ start + options.maximum_characters)
      × (e ≤ length content)
      × (start < n)
      × (n ≤ e)
      × IsChunk hash options content index start e c
      × Cover (index + 1) n cs

  chunk_loop-Cover :
      (fuel index start : ℕ)
      → 32 ≤ options.maximum_characters
      → start ≤ length content
      → length content - start < fuel
      → (cs : List Chunk) × (chunk_loop hash options content fuel index start ≡ ok cs)
        × Cover index start cs
  unfolding chunk_loop
  chunk_loop-Cover zero index start wide inside enough = absurd (omega arith)
  chunk_loop-Cover (suc fuel) index start wide inside enough =
      elim (Bool-cases (ltb start (length content))) [
        | inr done ↦ ([], rw done refl, ground arith)
        | inl more ↦
            let m = minimum (start + options.maximum_characters) (length content) in
            let e = end_of options content start in
            let n = next_chunk_start content start e options.overlap_characters in
            let (late, before) : (start < e) × (e ≤ m) =
              safe_boundary-bounds content start m (ground arith) (ground arith) (ground arith) in
            let fits : e ≤ start + options.maximum_characters = ground arith in
            let ends : e ≤ length content = ground arith in
            let (on, back) =
              next_chunk_start-bounds content start e options.overlap_characters late ends in
            let (c, made, is_chunk) = chunk_at-IsChunk index start e late ends in
            let (cs, rest, cover) =
              chunk_loop-Cover fuel (index + 1) n wide (omega arith) (omega arith) in
            (
              c ∷ cs,
              rw (more, made, rest) refl,
              (e, n, late, fits, ends, on, back, is_chunk, cover),
            )
      ]

-- Under a valid configuration every text is cut into chunks, with no error: the loop ends, and the
-- chunks are numbered from 0 and cover the normalized text from its start to its end. Each is a
-- non-empty stretch of it, of at most the maximum length, with the source range of its first and
-- last code units; each starts after the one before it started and no later than that one ends.
pub chunk_knowledge_text-Cover :
    (hash : List ℕ → String) (options : Options) (source : List ℕ)
    → is_invalid options ≡ false
    → (cs : List Chunk) × (chunk_knowledge_text hash options source ≡ ok cs)
      × Cover hash options (normalize_with_source_map source) 0 0 cs
unfolding chunk_knowledge_text is_invalid
chunk_knowledge_text-Cover hash options source valid =
    elim (normalize_with_source_map source)
      as (λ content.
        (cs : List Chunk) × ((if is_invalid options
            then err invalid_configuration
            else if is_empty content
            then ok []
            else chunk_loop hash options content (suc (length content)) 0 0)
          ≡ ok cs)
        × Cover hash options content 0 0 cs) [
          | [] ↦ ([], rw valid refl, refl)
          | m ∷ ms ↦
              let (cs, runs, cover) =
                chunk_loop-Cover hash options (m ∷ ms) (suc (length (m ∷ ms))) 0 0 (ground arith)
                  (omega arith) (omega arith) in
              (cs, rw valid runs, cover)
        ]
