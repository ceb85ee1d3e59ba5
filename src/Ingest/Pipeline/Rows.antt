-- ===== src/Ingest/Pipeline/Rows.antt =====
-- What the pipeline of aegis-brain/app/services/siem_pipeline.py leaves in the table of events,
-- whatever the detection, the playbooks and the notifications do.
use aegis_ecosystem.Prelude.{
  ℕ, some, List, ◌++◌, ◌≡◌, refl, ◌∙◌, ◌⊎◌, inl, inr, codes, length, Option-cases,
}
use aegis_ecosystem.Redis.Laws.{Redis}
use aegis_ecosystem.Ingest.Stages.{Stages}
use aegis_ecosystem.Ingest.Pipeline.{commit_or_rollback, Outcome}

module _ {A : Type 0} (stages : Stages A) where
  open stages use {
    Db, rows, ensure_monthly_partitions, insert_rows, commit, SigmaMatch, CorrelationMatch, Alert,
    get_or_create_source_agent, flush_alerts, alerts_by_id, check_and_execute_playbooks,
    notify_alert, partitions_rows, insert_rows_appends, commit_rows, agent_rows, flush_rows,
    playbooks_rows, notify_rows,
  }

  pub rows-commit_or_rollback :
      (before after : Db)
      → rows after ≡ rows before
      → rows (commit_or_rollback stages before after) ≡ rows before
  unfolding commit_or_rollback
  rows-commit_or_rollback before after same = elim (Option-cases (commit after)) [
    | inl e ↦ rw (e, commit_or_rollback) refl
    | inr (db, e) ↦ rw (e, commit_or_rollback) (commit_rows after db e ∙ same)
  ]

module _ {A : Type 0} (redis : Redis) (stages : Stages A) (ttl : ℕ) where
  open stages use {Db, rows}

  -- the rows that a report accounts for
  abbrev pub Accounts : Outcome → List A → Db → Db → Type 0
  Accounts o fresh db db' =
      ((rows db' ≡ rows db ++ fresh) × (o.stored ≡ length fresh))
      ⊎ ((rows db' ≡ rows db) × (o.stored ≡ 0) × (o.error ≡ some (codes "store failed")))
