-- ===== src/Shared/Knowledge.antt =====
-- The chunks in which a text is indexed: `chunkKnowledgeText` of packages/shared/src/knowledge.ts.
-- A text is the list of its UTF-16 code units, as the source indexes it.
pub mod Normalized
pub mod Boundaries
use lex_os.Prelude.{
  ℕ, zero, suc, ◌+◌, ◌-◌, ◌/◌, ◌&&◌, ◌||◌, Bool, true, false, Option, none, some, List, [], ◌∷◌,
  String, Result, ok, err, ltb, leb, ◌==◌, if◌then◌else◌, length, get_elem?, take, drop, map,
}

pub record SourceLocator : Type 0 where
  pub page_number : ℕ
  pub start_offset : ℕ
  pub end_offset : ℕ

pub record Chunk : Type 0 where
  pub chunk_index : ℕ
  pub content : List ℕ
  pub content_hash : String
  pub locator : SourceLocator

pub record Options : Type 0 where
  pub maximum_characters : ℕ
  pub overlap_characters : ℕ
  pub page_number : ℕ

abbrev pub default_options : Options
default_options = record { maximum_characters = 800; overlap_characters = 120; page_number = 1 }

-- One normalized code unit, with the range of the source that it stands for: the three arrays of
-- `NormalizedText`, which grow together.
pub record Mapped : Type 0 where
  pub unit : ℕ
  pub start : ℕ
  pub finish : ℕ

-- `\s`.
unfoldable pub is_space : ℕ → Bool
is_space c =
    (leb 9 c && leb c 13)
    || (c == 32
        || (c == 160
            || (c == 5760
                || ((leb 8192 c && leb c 8202)
                    || (c == 8232
                        || (c == 8233
                            || (c == 8239 || (c == 8287 || (c == 12288 || c == 65279)))))))))

unfoldable pub normalized_unit : ℕ → ℕ
unfolding is_space
normalized_unit c = if c == 0 || (c == 13 || is_space c) then 32 else c

-- The arrays are kept with their last element first.
unfoldable pub note_space : ℕ → ℕ → List Mapped → List Mapped
note_space i e [] = []
note_space i e (m ∷ ms) =
    if m.unit == 32
    then record m { finish = e } ∷ ms
    else record { unit = 32; start = i; finish = e } ∷ m ∷ ms

unfoldable pub note : ℕ → ℕ → ℕ → List Mapped → List Mapped
unfolding note_space normalized_unit
note c i e ms =
    let n = normalized_unit c in
    if n == 32 then note_space i e ms else record { unit = n; start = i; finish = e } ∷ ms

-- `\r\n` counts once.
unfoldable pub scan : ℕ → List ℕ → List Mapped → List Mapped
unfolding note
scan i [] ms = ms
scan i (c ∷ []) ms = note c i (i + 1) ms
scan i (c ∷ d ∷ rest) ms = elim (c == 13 && d == 10) [
  | true ↦ scan (i + 2) rest (note c i (i + 2) ms)
  | false ↦ scan (i + 1) (d ∷ rest) (note c i (i + 1) ms)
]

unfoldable pub drop_last_space : List Mapped → List Mapped
drop_last_space [] = []
drop_last_space (m ∷ ms) = if m.unit == 32 then ms else m ∷ ms

unfoldable pub reverse_onto : List Mapped → List Mapped → List Mapped
reverse_onto [] out = out
reverse_onto (m ∷ ms) out = reverse_onto ms (m ∷ out)

unfoldable pub normalize_with_source_map : List ℕ → List Mapped
unfolding scan drop_last_space reverse_onto
normalize_with_source_map source = reverse_onto (drop_last_space (scan 0 source [])) []

unfoldable pub unit_of : Mapped → ℕ
unit_of m = m.unit

abbrev pub is_space_at : List Mapped → ℕ → Bool
is_space_at content i = elim (get_elem? content i) [ none ↦ false | some m ↦ m.unit == 32 ]

-- `content.lastIndexOf(' ', position)`.
unfoldable pub last_index_of : List Mapped → ℕ → Option ℕ
last_index_of content zero = if is_space_at content 0 then some 0 else none
last_index_of content (suc p) =
    if is_space_at content (suc p) then some (suc p) else last_index_of content p

-- `content.indexOf(' ', i)`, over the rest from `i` on.
unfoldable pub index_of : ℕ → List Mapped → Option ℕ
index_of i [] = none
index_of i (m ∷ ms) = if m.unit == 32 then some i else index_of (i + 1) ms

abbrev unit_at : List Mapped → ℕ → ℕ
unit_at content i = elim (get_elem? content i) [ none ↦ 0 | some m ↦ m.unit ]

unfoldable pub splits_surrogate_pair : List Mapped → ℕ → Bool
splits_surrogate_pair content e =
    let previous = unit_at content (e - 1) in
    let current = unit_at content e in
    leb 55296 previous && (leb previous 56319 && (leb 56320 current && leb current 57343))

abbrev pub is_after : Option ℕ → ℕ → Bool
is_after none i = false
is_after (some w) i = ltb i w

abbrev pub index_or : Option ℕ → ℕ → ℕ
index_or none i = i
index_or (some w) i = w

unfoldable pub safe_boundary : List Mapped → ℕ → ℕ → ℕ
unfolding last_index_of splits_surrogate_pair
safe_boundary content start maximum_end =
    let word_boundary = last_index_of content maximum_end in
    if leb (length content) maximum_end
    then length content
    else if is_after word_boundary (start + (maximum_end - start) / 2)
    then index_or word_boundary 0
    else if splits_surrogate_pair content maximum_end
    then maximum_end - 1
    else maximum_end

abbrev pub maximum : ℕ → ℕ → ℕ
maximum a b = if leb a b then b else a

abbrev pub minimum : ℕ → ℕ → ℕ
minimum a b = if leb a b then a else b

-- `start + 1` is the maximum where the overlap would go further back; `-` stops at 0 there.
unfoldable pub next_chunk_start : List Mapped → ℕ → ℕ → ℕ → ℕ
unfolding index_of
next_chunk_start content current_start e overlap =
    let overlap_target = maximum (current_start + 1) (e - overlap) in
    let next_space = index_of overlap_target (drop overlap_target content) in
    if leb (length content) e
    then length content
    else elim next_space [ none ↦ e | some i ↦ if ltb i e then i + 1 else e ]

abbrev pub slice : List Mapped → ℕ → ℕ → List Mapped
slice content i e = take (e - i) (drop i content)

abbrev pub lost_locator : String
lost_locator = "Deterministic chunking lost its source locator."

abbrev pub is_empty : List Mapped → Bool
is_empty [] = true
is_empty (m ∷ ms) = false

unfoldable pub chunk_at : (List ℕ → String) → Options → List Mapped → ℕ → ℕ → ℕ → Result Chunk
chunk_at hash options content index start e = elim (get_elem? content start) [
  | none ↦ err lost_locator
  | some first ↦ elim (get_elem? content (e - 1)) [
    | none ↦ err lost_locator
    | some last ↦
        if is_empty (slice content start e)
        then err lost_locator
        else ok (record {
          chunk_index = index;
          content = map unit_of (slice content start e);
          content_hash = hash (map unit_of (slice content start e));
          locator = record {
            page_number = options.page_number;
            start_offset = first.start;
            end_offset = last.finish;
          };
        })
  ]
]

abbrev prepend : Result Chunk → Result (List Chunk) → Result (List Chunk)
prepend (err e) rest = err e
prepend (ok c) (err e) = err e
prepend (ok c) (ok cs) = ok (c ∷ cs)

abbrev pub out_of_fuel : String
out_of_fuel = "out of fuel"

abbrev pub end_of : Options → List Mapped → ℕ → ℕ
end_of options content start =
    safe_boundary content start (minimum (start + options.maximum_characters) (length content))

-- The loop on `start`; a round of fuel for each code unit is enough.
unfoldable pub chunk_loop :
    (List ℕ → String) → Options → List Mapped → ℕ → ℕ → ℕ → Result (List Chunk)
unfolding chunk_at safe_boundary next_chunk_start
chunk_loop hash options content zero index start = err out_of_fuel
chunk_loop hash options content (suc fuel) index start =
    let e = end_of options content start in
    let rest =
      chunk_loop hash options content fuel (index + 1)
        (next_chunk_start content start e options.overlap_characters) in
    if ltb start (length content)
    then prepend (chunk_at hash options content index start e) rest
    else ok []

abbrev pub invalid_configuration : String
invalid_configuration = "Invalid deterministic chunking configuration."

unfoldable pub is_invalid : Options → Bool
is_invalid options =
    ltb options.maximum_characters 32
    || (leb options.maximum_characters options.overlap_characters || ltb options.page_number 1)

unfoldable pub chunk_knowledge_text : (List ℕ → String) → Options → List ℕ → Result (List Chunk)
unfolding is_invalid normalize_with_source_map chunk_loop
chunk_knowledge_text hash options source =
    let content = normalize_with_source_map source in
    if is_invalid options
    then err invalid_configuration
    else if is_empty content
    then ok []
    else chunk_loop hash options content (suc (length content)) 0 0
