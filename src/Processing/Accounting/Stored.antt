-- ===== src/Processing/Accounting/Stored.antt =====
-- Storing the result of a stage touches no job and no budget.
use lex_os.Prelude.{
  ℕ, zero, suc, ◌+◌, inl, inr, Option, none, some, List, [], ◌∷◌, String, arith, find_first,
  Option-cases,
}
use lex_os.Processing.Rows.{TimelineEvent}
use lex_os.Processing.Rows.Review.{TemplateItem, ChecklistTemplate, KnowledgeChunk}
use lex_os.Processing.Store.{update_document}
use lex_os.Processing.Target.{Claimed}
use lex_os.Processing.Completion.{
  StageCompletion, ExtractionInput, ClassificationInput, EventInput, ItemResult, ChecklistInput,
  IndexInput, ChunkInput, Runtime,
}
use lex_os.Processing.Complete.{store_result}
use lex_os.Processing.Complete.Extraction.{
  create_extraction, record_extraction, apply_classification, create_event, add_events,
  add_timeline,
}
use lex_os.Processing.Complete.Checklist.{
  is_usable, upsert_checklist, create_items, update_items, review_checklist, report_applied,
  fill_checklist, apply_checklist,
}
use lex_os.Processing.Complete.Knowledge.{insert_chunk, insert_chunks, index_knowledge}
use lex_os.Processing.Accounting.Frame.{
  Keeps, frame, bind-Keeps, then-Keeps, return-Keeps, throw-Keeps, lift-Keeps, refuse-Keeps,
  audit-Keeps,
}

create_extraction-Keeps :
    (env : Runtime) (h : Claimed) (c : StageCompletion) (x : ExtractionInput)
    → Keeps (create_extraction env h c x)
unfolding create_extraction
create_extraction-Keeps env h c x = record { keeps = λ s s' a e. ground arith }

record_extraction-Keeps :
    (env : Runtime) (h : Claimed) (c : StageCompletion) → Keeps (record_extraction env h c)
unfolding record_extraction
record_extraction-Keeps env h c = elim (Option-cases c.extraction) [
  | inl e ↦ rw (e, record_extraction) (return-Keeps none)
  | inr (x, e) ↦ rw (e, record_extraction) (search (frame, create_extraction-Keeps))
]

apply_classification-Keeps :
    (h : Claimed) (x : Option ClassificationInput) → Keeps (apply_classification h x)
unfolding apply_classification update_document
apply_classification-Keeps h none = record { keeps = λ s s' a e. ground arith }
apply_classification-Keeps h (some x) = record { keeps = λ s s' a e. ground arith }

create_event-Keeps : (e : TimelineEvent) → Keeps (create_event e)
unfolding create_event
create_event-Keeps e = record { keeps = λ s s' a h. ground arith }

add_events-Keeps :
    (env : Runtime) (h : Claimed) (id : String) (n : ℕ) (es : List EventInput)
    → Keeps (add_events env h id n es)
unfolding add_events
add_events-Keeps env h id n [] = return-Keeps tt
add_events-Keeps env h id n (e ∷ es) =
    then-Keeps _ _ (create_event-Keeps _)
      (then-Keeps _ _ (audit-Keeps _) (add_events-Keeps env h id (suc n) es))

add_timeline-Keeps :
    (env : Runtime) (h : Claimed) (id : Option String) (es : Option (List EventInput))
    → Keeps (add_timeline env h id es)
unfolding add_timeline
add_timeline-Keeps env h none none = return-Keeps tt
add_timeline-Keeps env h (some id) none = return-Keeps tt
add_timeline-Keeps env h none (some es) = throw-Keeps _
add_timeline-Keeps env h (some id) (some es) = add_events-Keeps env h id 0 es

upsert_checklist-Keeps :
    (env : Runtime) (h : Claimed) (t : ChecklistTemplate) → Keeps (upsert_checklist env h t)
unfolding upsert_checklist
upsert_checklist-Keeps env h t = record { keeps = λ s s' a e. ground arith }

create_items-Keeps :
    (env : Runtime) (h : Claimed) (id : String) (items : List TemplateItem)
    → Keeps (create_items env h id items)
unfolding create_items
create_items-Keeps env h id items = record { keeps = λ s s' a e. (cc, cc) }

update_items-Keeps :
    (h : Claimed) (id : String) (items : List ItemResult) → Keeps (update_items h id items)
unfolding update_items
update_items-Keeps h id items = record { keeps = λ s s' a e. (cc, cc) }

review_checklist-Keeps : (h : Claimed) (id : String) → Keeps (review_checklist h id)
unfolding review_checklist
review_checklist-Keeps h id = record { keeps = λ s s' a e. (cc, cc) }

report_applied-Keeps :
    (env : Runtime) (h : Claimed) (id : String) (t : ChecklistTemplate) (n : ℕ)
    → Keeps (report_applied env h id t n)
unfolding report_applied
report_applied-Keeps env h id t zero = return-Keeps tt
report_applied-Keeps env h id t (suc n) = audit-Keeps _

fill_checklist-Keeps :
    (env : Runtime) (h : Claimed) (x : ChecklistInput) (t : ChecklistTemplate)
    → Keeps (fill_checklist env h x t)
unfolding fill_checklist
fill_checklist-Keeps env h x t = then-Keeps _ _ (refuse-Keeps _ _) (
    bind-Keeps _ _ (upsert_checklist-Keeps env h t) (λ id.
      bind-Keeps _ _ (create_items-Keeps env h id t.items) (λ n.
        then-Keeps _ _ (report_applied-Keeps env h id t n) (
          bind-Keeps _ _ (update_items-Keeps h id x.items)
            (λ m. then-Keeps _ _ (review_checklist-Keeps h id) (search frame))))))

apply_checklist-Keeps :
    (env : Runtime) (h : Claimed) (x : Option ChecklistInput) → Keeps (apply_checklist env h x)
unfolding apply_checklist
apply_checklist-Keeps env h none = record { keeps = λ s s' a e. ground arith }
apply_checklist-Keeps env h (some x) = record {
  keeps = λ s s' a e. elim (Option-cases (find_first (is_usable h x) s.templates)) [
    | inl gone ↦ absurd (cc (rw (gone, apply_checklist) at e))
    | inr (t, found) ↦
        (fill_checklist-Keeps env h x t).keeps s s' a (rw (found, apply_checklist) at e)
  ];
}

insert_chunk-Keeps : (c : KnowledgeChunk) → Keeps (insert_chunk c)
unfolding insert_chunk
insert_chunk-Keeps c = record { keeps = λ s s' a e. ground arith }

insert_chunks-Keeps :
    (env : Runtime) (h : Claimed) (c : StageCompletion) (x : IndexInput) (ks : List ChunkInput)
    (n : ℕ)
    → Keeps (insert_chunks env h c x ks n)
unfolding insert_chunks
insert_chunks-Keeps env h c x [] n = return-Keeps n
insert_chunks-Keeps env h c x (k ∷ ks) n =
    bind-Keeps _ _ (lift-Keeps _) (λ text.
      bind-Keeps _ _ (insert_chunk-Keeps _) (λ m. insert_chunks-Keeps env h c x ks (n + m)))

index_knowledge-Keeps :
    (env : Runtime) (h : Claimed) (c : StageCompletion) (x : Option IndexInput)
    → Keeps (index_knowledge env h c x)
unfolding index_knowledge
index_knowledge-Keeps env h c none = return-Keeps none
index_knowledge-Keeps env h c (some x) = then-Keeps _ _ (refuse-Keeps _ _) (
    bind-Keeps _ _ (insert_chunks-Keeps env h c x x.chunks 0)
      (λ n. then-Keeps _ _ (audit-Keeps _) (return-Keeps (some n))))

-- What a stage produced is stored without a change of a job or of a budget.
pub store_result-Keeps :
    (env : Runtime) (h : Claimed) (c : StageCompletion) → Keeps (store_result env h c)
unfolding store_result
store_result-Keeps env h c = bind-Keeps _ _ (record_extraction-Keeps env h c) (λ id.
    then-Keeps _ _ (apply_classification-Keeps h c.classification) (
      then-Keeps _ _ (add_timeline-Keeps env h id c.timeline) (
        bind-Keeps _ _ (apply_checklist-Keeps env h c.checklist) (λ checklist.
          bind-Keeps _ _ (index_knowledge-Keeps env h c c.knowledge_index) (λ n. return-Keeps _)))))
