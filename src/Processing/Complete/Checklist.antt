-- ===== src/Processing/Complete/Checklist.antt =====
-- The checklist part of `ProcessingRepository.complete`: the template is checked, the checklist of
-- the case is created if it is new, and the items that are still missing take the proposed status
-- (apps/worker/src/processing/processing.repository.ts).
use Prim.Native.String
use lex_os.Prelude.{
  ℕ, zero, suc, ◌+◌, ◌&&◌, ◌||◌, not, Bool, true, false, Option, none, some, List, [], ◌∷◌, ◌++◌,
  String, ok, err, text_eq, if◌then◌else◌, any_where, ◌==◌, find_first, count_where, update_where,
  length,
}
use lex_os.Processing.Rows.{Datum, system, ai}
use lex_os.Processing.Rows.Review.{
  ChecklistStatus, missing, TemplateItem, ChecklistTemplate, CaseChecklistStatus, CaseChecklist,
  ChecklistItem,
}
use lex_os.Processing.Store.{Tx, ◌>>=◌, ◌>>◌, return, refuse_if, audit}
use lex_os.Processing.Target.{Claimed}
use lex_os.Processing.DeterministicId.{deterministic_job_id, decimal}
use lex_os.Processing.Completion.{ItemResult, ChecklistInput, Runtime}

abbrev pub is_missing : ChecklistStatus → Bool
is_missing missing = true
is_missing _ = false

abbrev pub is_usable : Claimed → ChecklistInput → ChecklistTemplate → Bool
is_usable h x t =
    text_eq t.id x.template_id
    && (t.version == x.template_version
        && (text_eq t.legal_area h.case_row.legal_area
            && (text_eq t.case_type h.case_row.case_type
                && (t.is_active && (elim t.organization_id [
                  | none ↦ true
                  | some o ↦ text_eq o h.job.organization_id
                ])))))

abbrev has_item : List TemplateItem → ItemResult → Bool
has_item items r = any_where (λ i. text_eq i.id r.template_item_id) items

-- The items of a template have different identifiers, so the set of them is as large as the list.
unfoldable pub matches_template : List TemplateItem → List ItemResult → Bool
matches_template items results =
    length results == length items && not (any_where (λ r. not (has_item items r)) results)

abbrev is_checklist_of : String → ChecklistTemplate → CaseChecklist → Bool
is_checklist_of case_id t c =
    text_eq c.case_id case_id && (text_eq c.template_id t.id && c.template_version == t.version)

-- `caseChecklist.upsert` with an empty update.
unfoldable pub upsert_checklist : Runtime → Claimed → ChecklistTemplate → Tx String
upsert_checklist env h t s = elim (find_first (is_checklist_of h.case_id t) s.checklists) [
  | some c ↦ ok (c.id, s)
  | none ↦
      let id =
        deterministic_job_id env.sha256 h.case_id
          (String.◌++◌ "CHECKLIST:" (String.◌++◌ t.id (String.◌++◌ ":" (decimal t.version)))) in
      ok (
        id,
        record s {
          checklists =
              s.checklists
              ++ record {
                id = id;
                organization_id = h.job.organization_id;
                case_id = h.case_id;
                template_id = t.id;
                template_version = t.version;
                status = CaseChecklistStatus.in_progress;
              }
                ∷ [];
        },
      )
]

abbrev new_item : Runtime → Claimed → String → TemplateItem → ChecklistItem
new_item env h checklist_id i = record {
  id = deterministic_job_id env.sha256 checklist_id (String.◌++◌ "CHECKLIST_ITEM:" i.id);
  organization_id = h.job.organization_id;
  case_id = h.case_id;
  case_checklist_id = checklist_id;
  template_item_id = i.id;
  title_snapshot = i.title;
  description_snapshot = i.description;
  is_required_snapshot = i.is_required;
  status = missing;
  document_id = none;
}

-- A row that a unique constraint of the table would refuse.
abbrev clashes : ChecklistItem → ChecklistItem → Bool
clashes new old =
    text_eq old.id new.id
    || (text_eq old.case_checklist_id new.case_checklist_id
        && text_eq old.template_item_id new.template_item_id)

-- `caseChecklistItem.createMany` with `skipDuplicates`: the rows, and how many are new.
unfoldable pub insert_items :
    Runtime → Claimed → String → List TemplateItem → List ChecklistItem → List ChecklistItem × ℕ
insert_items env h checklist_id [] rows = (rows, 0)
insert_items env h checklist_id (i ∷ is) rows =
    let new = new_item env h checklist_id i in
    let old = any_where (clashes new) rows in
    let (rest, count) =
      insert_items env h checklist_id is (if old then rows else rows ++ new ∷ []) in
    (rest, (if old then 0 else 1) + count)

unfoldable pub create_items : Runtime → Claimed → String → List TemplateItem → Tx ℕ
unfolding insert_items
create_items env h checklist_id items s =
    let (rows, count) = insert_items env h checklist_id items s.checklist_items in
    ok (count, record s { checklist_items = rows })

unfoldable pub is_open_item : Claimed → String → String → ChecklistItem → Bool
is_open_item h checklist_id template_item_id i =
    text_eq i.organization_id h.job.organization_id
    && (text_eq i.case_id h.case_id
        && (text_eq i.case_checklist_id checklist_id
            && (text_eq i.template_item_id template_item_id && is_missing i.status)))

-- A result moves an item only out of `missing`, the state in which it is created.
unfoldable pub apply_result :
    Claimed → String → ItemResult → List ChecklistItem → List ChecklistItem × ℕ
apply_result h checklist_id r rows =
    if is_missing r.status
    then (rows, 0)
    else (let open_item = is_open_item h checklist_id r.template_item_id in
        let set =
          λ (i : ChecklistItem). record i { status = r.status; document_id = some h.document_id } in
        (update_where open_item set rows, count_where open_item rows))

unfoldable pub apply_results :
    Claimed → String → List ItemResult → List ChecklistItem → List ChecklistItem × ℕ
apply_results h checklist_id [] rows = (rows, 0)
apply_results h checklist_id (r ∷ rs) rows =
    let (changed, n) = apply_result h checklist_id r rows in
    let (rest, m) = apply_results h checklist_id rs changed in (rest, n + m)

unfoldable pub update_items : Claimed → String → List ItemResult → Tx ℕ
unfolding apply_results apply_result
update_items h checklist_id results s =
    let (rows, count) = apply_results h checklist_id results s.checklist_items in
    ok (count, record s { checklist_items = rows })

unfoldable pub review_checklist : Claimed → String → Tx (Unit {0})
review_checklist h checklist_id s = ok (
  tt,
  record s {
    checklists =
        update_where
          (λ c.
            text_eq c.id checklist_id
            && (text_eq c.organization_id h.job.organization_id && text_eq c.case_id h.case_id))
          (λ c. record c { status = CaseChecklistStatus.needs_review }) s.checklists;
  },
)

unfoldable pub report_applied : Runtime → Claimed → String → ChecklistTemplate → ℕ → Tx (Unit {0})
report_applied env h id t zero = return tt
report_applied env h id t (suc n) = audit (record {
  organization_id = h.job.organization_id;
  processing_job_id = h.job.id;
  actor_type = system;
  action = "checklist.applied";
  entity_type = "case_checklist";
  entity_id = id;
  correlation_id = env.correlation_id;
  new_data =
      ("caseId", Datum.text h.case_id)
      ∷ ("templateId", Datum.text t.id)
      ∷ ("templateVersion", Datum.num t.version)
      ∷ ("itemCount", Datum.num (suc n))
      ∷ [];
})

unfoldable pub fill_checklist :
    Runtime → Claimed → ChecklistInput → ChecklistTemplate → Tx (Option String)
unfolding create_items update_items review_checklist upsert_checklist
fill_checklist env h x t = do
  refuse_if (not (matches_template t.items x.items))
      "Checklist analysis does not match the selected template."
  id ← upsert_checklist env h t
  inserted ← create_items env h id t.items
  report_applied env h id t inserted
  updated ← update_items h id x.items
  review_checklist h id
  audit (record {
    organization_id = h.job.organization_id;
    processing_job_id = h.job.id;
    actor_type = ai;
    action = "checklist.analysis.completed";
    entity_type = "case_checklist";
    entity_id = id;
    correlation_id = env.correlation_id;
    new_data =
        ("caseId", Datum.text h.case_id)
        ∷ ("documentId", Datum.text h.document_id)
        ∷ ("updatedItemCount", Datum.num updated)
        ∷ [];
  })
  return (some id)

unfoldable pub apply_checklist : Runtime → Claimed → Option ChecklistInput → Tx (Option String)
apply_checklist env h none s = ok (none, s)
apply_checklist env h (some x) s = elim (find_first (is_usable h x) s.templates) [
  | none ↦ err "The checklist template is no longer available."
  | some t ↦ fill_checklist env h x t s
]
