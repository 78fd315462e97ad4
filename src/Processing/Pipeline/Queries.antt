-- ===== src/Processing/Pipeline/Queries.antt =====
-- What the stages read: `availableDocumentTypeCodes` and `findChecklistTemplate` of
-- apps/worker/src/processing/processing.repository.ts.
use Prim.Native.String.{compare}
use Prim.Native.Nat.{Ordering}
use lex_os.Prelude.{
  Bool, true, false, ◌&&◌, ◌||◌, Option, none, some, List, [], ◌∷◌, String, text_eq, ltb, ◌==◌,
  if◌then◌else◌, first_some, is_none,
}
use lex_os.Processing.Rows.{DocumentType}
use lex_os.Processing.Rows.Review.{ChecklistTemplate}
use lex_os.Processing.Store.{Store}
use lex_os.Processing.Target.{Claimed}

abbrev comes_before : String → String → Bool
comes_before s t = elim (compare s t) [ Ordering.lt ↦ true | _ ↦ false ]

-- The codes in order, each once.
abbrev add_code : String → List String → List String
add_code c [] = c ∷ []
add_code c (d ∷ ds) =
    if text_eq c d then d ∷ ds else if comes_before c d then c ∷ d ∷ ds else d ∷ add_code c ds

abbrev is_visible : String → Option String → Bool
is_visible organization_id none = true
is_visible organization_id (some o) = text_eq o organization_id

abbrev visible_codes : String → List DocumentType → List String
visible_codes organization_id [] = []
visible_codes organization_id (t ∷ ts) =
    let rest = visible_codes organization_id ts in
    if is_visible organization_id t.organization_id then add_code t.code rest else rest

unfoldable pub available_document_type_codes : Claimed → Store → List String
available_document_type_codes h s = visible_codes h.job.organization_id s.document_types

abbrev is_owned_by : Option String → ChecklistTemplate → Bool
is_owned_by none t = is_none t.organization_id
is_owned_by (some o) t = elim t.organization_id [ none ↦ false | some p ↦ text_eq p o ]

abbrev is_template_for : Claimed → Option String → ChecklistTemplate → Bool
is_template_for h owner t =
    text_eq t.legal_area h.case_row.legal_area
    && (text_eq t.case_type h.case_row.case_type && (t.is_active && is_owned_by owner t))

-- `version` descending, then `id` ascending.
abbrev is_better : ChecklistTemplate → ChecklistTemplate → Bool
is_better t u = ltb u.version t.version || (t.version == u.version && comes_before t.id u.id)

abbrev better_of : ChecklistTemplate → Option ChecklistTemplate → ChecklistTemplate
better_of t none = t
better_of t (some u) = if is_better u t then u else t

unfoldable pub best_template :
    Claimed → Option String → List ChecklistTemplate → Option ChecklistTemplate
best_template h owner [] = none
best_template h owner (t ∷ ts) =
    let rest = best_template h owner ts in
    if is_template_for h owner t then some (better_of t rest) else rest

-- The organization's own template goes before a global one.
unfoldable pub find_checklist_template : Claimed → Store → Option ChecklistTemplate
unfolding best_template
find_checklist_template h s =
    first_some (best_template h (some h.job.organization_id) s.templates)
      (best_template h none s.templates)
