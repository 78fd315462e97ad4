-- ===== src/Processing/Pipeline/Order.antt =====
-- The order of the stages (apps/worker/src/processing/pipeline-processor.service.ts).
use lex_os.Prelude.{ℕ, ◌+◌, ◌≡◌, refl, inl, inr, Option, none, some, Bool-cases, Option-cases}
use lex_os.Processing.Status.{JobType}
use lex_os.Processing.Rows.Review.{ChecklistTemplate}
use lex_os.Processing.Store.{Store}
use lex_os.Processing.Target.{Claimed}
use lex_os.Processing.Pipeline.Providers.{Attempt, done, raised, ◌>>=◌, ◌>>◌, Providers}
use lex_os.Processing.Pipeline.Queries.{find_checklist_template}
use lex_os.Processing.Pipeline.Stages.{
  StageOutput, has_no_items, validate_file, read_text, classify_document, find_entities,
  generate_timeline, analyze_with, analyze_checklist, embed_text, execute_stage,
}

-- The stage that follows each stage, where one does.
abbrev pub next_stage : JobType → Option JobType
next_stage JobType.file_validation = some JobType.ocr
next_stage JobType.ocr = some JobType.document_classification
next_stage JobType.document_classification = some JobType.entity_extraction
next_stage JobType.entity_extraction = some JobType.timeline_generation
next_stage JobType.timeline_generation = some JobType.checklist_analysis
next_stage JobType.checklist_analysis = some JobType.embedding
next_stage _ = none

-- The stages that are left after a stage.
abbrev pub stages_left : JobType → ℕ
stages_left JobType.file_validation = 6
stages_left JobType.ocr = 5
stages_left JobType.document_classification = 4
stages_left JobType.entity_extraction = 3
stages_left JobType.timeline_generation = 2
stages_left JobType.checklist_analysis = 1
stages_left _ = 0

-- What holds of the output, where there is one: its next stage is this one.
abbrev Leads : Option JobType → Attempt StageOutput → Type 0
Leads next (done out) = out.next_job_type ≡ next
Leads next (raised e) = Unit

bind-Leads :
    {A : Type 0} (next : Option JobType) (m : Attempt A) (k : A → Attempt StageOutput)
    → ((a : A) → Leads next (k a))
    → Leads next (m >>= k)
unfolding ◌>>=◌
bind-Leads next (done a) k h = h a
bind-Leads next (raised x) k h = tt

then-Leads :
    (next : Option JobType) (m : Attempt (Unit {0})) (k : Attempt StageOutput)
    → Leads next k
    → Leads next (m >> k)
unfolding ◌>>◌ ◌>>=◌
then-Leads next (done a) k h = h
then-Leads next (raised x) k h = tt

module _ (p : Providers) (s : Store) (h : Claimed) where
  validate_file-Leads : Leads (some JobType.ocr) (validate_file h)
  unfolding validate_file
  validate_file-Leads = then-Leads (some JobType.ocr) _ _ refl

  read_text-Leads : Leads (some JobType.document_classification) (read_text p h)
  unfolding read_text
  read_text-Leads = bind-Leads (some JobType.document_classification) _ _ (λ a. refl)

  classify_document-Leads : Leads (some JobType.entity_extraction) (classify_document p s h)
  unfolding classify_document
  classify_document-Leads =
      let next = some JobType.entity_extraction in
      bind-Leads next _ _ (λ a. bind-Leads next _ _ (λ b. refl))

  find_entities-Leads : Leads (some JobType.timeline_generation) (find_entities p h)
  unfolding find_entities
  find_entities-Leads =
      let next = some JobType.timeline_generation in
      bind-Leads next _ _ (λ a. bind-Leads next _ _ (λ b. refl))

  generate_timeline-Leads : Leads (some JobType.checklist_analysis) (generate_timeline p h)
  unfolding generate_timeline
  generate_timeline-Leads =
      let next = some JobType.checklist_analysis in
      bind-Leads next _ _ (λ a. bind-Leads next _ _ (λ b. bind-Leads next _ _ (λ c. refl)))

  analyze_with-Leads : (t : ChecklistTemplate) → Leads (some JobType.embedding) (analyze_with p h t)
  unfolding analyze_with
  analyze_with-Leads t =
      let next = some JobType.embedding in
      bind-Leads next _ _ (λ a. bind-Leads next _ _ (λ b. refl))

  analyze_checklist-Leads : Leads (some JobType.embedding) (analyze_checklist p s h)
  unfolding analyze_checklist
  analyze_checklist-Leads = elim (Option-cases (find_checklist_template h s)) [
    | inl missing ↦ rw (missing, analyze_checklist) refl
    | inr (t, found) ↦ elim (Bool-cases (has_no_items t)) [
      | inl empty ↦ rw (found, analyze_checklist, empty) refl
      | inr full ↦ rw (found, analyze_checklist, full) (analyze_with-Leads t)
    ]
  ]

  embed_text-Leads : Leads none (embed_text p h)
  unfolding embed_text
  embed_text-Leads = bind-Leads none _ _ (λ a.
      bind-Leads none _ _
        (λ b. then-Leads none _ _ (bind-Leads none _ _ (λ c. then-Leads none _ _ refl))))

done-Leads :
    (next : Option JobType) (m : Attempt StageOutput) (out : StageOutput)
    → Leads next m
    → m ≡ done out
    → out.next_job_type ≡ next
done-Leads next (done o) out h e = let same : o ≡ out = cc in rw (← same) h
done-Leads next (raised x) out h e = absurd (cc)

one_less : (t u : JobType) → next_stage t ≡ some u → stages_left t ≡ stages_left u + 1
one_less JobType.file_validation u e = let same : JobType.ocr ≡ u = cc in rw (← same) refl
one_less JobType.ocr u e = let same : JobType.document_classification ≡ u = cc in rw (← same) refl
one_less JobType.document_classification u e =
    let same : JobType.entity_extraction ≡ u = cc in rw (← same) refl
one_less JobType.entity_extraction u e =
    let same : JobType.timeline_generation ≡ u = cc in rw (← same) refl
one_less JobType.timeline_generation u e =
    let same : JobType.checklist_analysis ≡ u = cc in rw (← same) refl
one_less JobType.checklist_analysis u e = let same : JobType.embedding ≡ u = cc in rw (← same) refl
one_less JobType.embedding u e = absurd (cc)
one_less JobType.transcription u e = absurd (cc)
one_less JobType.summary u e = absurd (cc)
one_less JobType.duplicate_detection u e = absurd (cc)
one_less JobType.virus_scan u e = absurd (cc)
one_less JobType.case_export u e = absurd (cc)

execute_stage-Leads :
    (p : Providers) (s : Store) (h : Claimed) (t : JobType)
    → h.job.job_type ≡ t
    → Leads (next_stage t) (execute_stage p s h)
unfolding execute_stage
execute_stage-Leads p s h JobType.file_validation e =
    rw (e, execute_stage) (validate_file-Leads p s h)
execute_stage-Leads p s h JobType.ocr e = rw (e, execute_stage) (read_text-Leads p s h)
execute_stage-Leads p s h JobType.document_classification e =
    rw (e, execute_stage) (classify_document-Leads p s h)
execute_stage-Leads p s h JobType.entity_extraction e =
    rw (e, execute_stage) (find_entities-Leads p s h)
execute_stage-Leads p s h JobType.timeline_generation e =
    rw (e, execute_stage) (generate_timeline-Leads p s h)
execute_stage-Leads p s h JobType.checklist_analysis e =
    rw (e, execute_stage) (analyze_checklist-Leads p s h)
execute_stage-Leads p s h JobType.embedding e = rw (e, execute_stage) (embed_text-Leads p s h)
execute_stage-Leads p s h JobType.transcription e = rw (e, execute_stage) tt
execute_stage-Leads p s h JobType.summary e = rw (e, execute_stage) tt
execute_stage-Leads p s h JobType.duplicate_detection e = rw (e, execute_stage) tt
execute_stage-Leads p s h JobType.virus_scan e = rw (e, execute_stage) tt
execute_stage-Leads p s h JobType.case_export e = rw (e, execute_stage) tt

-- A stage that succeeds leads to the stage that follows its own in the pipeline, whatever its
-- providers answer, and to none after the last; with the stage of the child, one stage less is
-- left.
pub execute_stage-next :
    (p : Providers) (s : Store) (h : Claimed) (out : StageOutput)
    → execute_stage p s h ≡ done out
    → (out.next_job_type ≡ next_stage h.job.job_type)
      × ((t : JobType)
          → out.next_job_type ≡ some t
          → stages_left h.job.job_type ≡ stages_left t + 1)
execute_stage-next p s h out e =
    let leads =
      done-Leads (next_stage h.job.job_type) (execute_stage p s h) out
        (execute_stage-Leads p s h h.job.job_type refl) e in
    (leads, λ t f. one_less h.job.job_type t (cc))
