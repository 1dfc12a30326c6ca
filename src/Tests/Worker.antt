-- ===== src/Tests/Worker.antt =====
-- A worker whose agent says nothing, and a template.
use go_symphony.Prelude.{◌≡◌, refl, ◌⊎◌, none, some, [], if◌then◌else◌}
use go_symphony.Prelude.Int.{pos}
use go_symphony.Prelude.Text.{Text, codes, is_blank}
use go_symphony.Prelude.Map.{insert}
use go_symphony.Codex.Answers.{has_prefix}
use go_symphony.Orchestrator.State.{RunningEntry, new_scheduler_state, no_totals}
use go_symphony.Orchestrator.Candidates.{is_terminal}
use go_symphony.Orchestrator.Reconcile.{reconcile_entry, invalidate_run}
use go_symphony.Worker.Prompt.{render_issue_description_conditional}
use go_symphony.Worker.Prompt.Laws.{
  IsChosen, HasConditional, render_issue_description_conditional_lem,
}
use go_symphony.Worker.Run.{is_continued}
use go_symphony.Worker.Run.Reconciled.{is_continued-reconciled}
use go_symphony.Tests.Scheduler.{some_settings}
use go_symphony.Tests.World.{sunny, todo_item}

abbrev template : Text
template = codes "A{% if issue.description %}B{% else %}C{% endif %}D"

render_issue_description_conditional_lem_example :
    (¬ HasConditional template × (render_issue_description_conditional template [] ≡ template))
    ⊎ IsChosen template [] (render_issue_description_conditional template [])
render_issue_description_conditional_lem_example =
    render_issue_description_conditional_lem template []

no_description : render_issue_description_conditional template [] ≡ codes "ACD"
unfolding render_issue_description_conditional has_prefix
no_description = refl

abbrev entry : RunningEntry
entry = record {
  item = todo_item;
  attempt = 0;
  started_at = pos 0;
  last_event_at = none;
  last_event_kind = none;
  last_event_message = [];
  session_id = [];
  turn_count = 0;
  worker_host = [];
  workspace_path = [];
  codex_totals = no_totals;
  last_reported_totals = no_totals;
  handle = none;
}

is_continued-reconciled_example :
    reconcile_entry sunny (new_scheduler_state some_settings) 0 (codes "1") entry (some todo_item)
    ≡ (if is_continued some_settings todo_item
        then (
          record (new_scheduler_state some_settings) {
            running =
                insert
                  (codes "1")
                  (record entry { item = todo_item })
                  (new_scheduler_state some_settings).running;
          },
          0,
        )
        else invalidate_run sunny
            (new_scheduler_state some_settings)
            0
            entry
            (is_terminal (new_scheduler_state some_settings) todo_item.state))
unfolding new_scheduler_state is_blank
is_continued-reconciled_example =
    is_continued-reconciled sunny (new_scheduler_state some_settings) 0 (codes "1") entry
      some_settings todo_item refl refl refl
