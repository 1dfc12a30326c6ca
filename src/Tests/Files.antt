-- ===== src/Tests/Files.antt =====
-- A workflow file, and a store over a file that changes.
use go_symphony.Prelude.{◌≡◌, refl, arith, true, false, List, [], ◌∷◌, ◌++◌, Fallible, ok, err, All}
use go_symphony.Prelude.Int.{pos}
use go_symphony.Prelude.Text.{Text, codes, text_eq}
use go_symphony.Json
use go_symphony.Json.{Value, end}
use go_symphony.Config.Settings.{Settings}
use go_symphony.Config.Workflow.{
  Workflow, LoadError, join_lines, split_lines, split_front_matter, marker,
}
use go_symphony.Config.Workflow.Laws.{IsLine, front_matter_round_trip}
use go_symphony.Config.Store.{FileOps, Store, reload_locked, tick}
use go_symphony.Config.Store.Laws.{Settles, reload_locked-Settles}
use go_symphony.Tests.Scheduler.{some_settings}

abbrev front : List Text
front = codes "a: 1" ∷ []

abbrev prompt : List Text
prompt = codes "Go" ∷ []

file_lines : All IsLine (marker ∷ (front ++ (marker ∷ prompt)))
file_lines = ground arith

no_markers : All (λ l. text_eq l marker ≡ false) front
unfolding text_eq
no_markers = (refl, tt)

front_matter_round_trip_example :
    split_front_matter (split_lines (join_lines (marker ∷ (front ++ (marker ∷ prompt)))))
    ≡ (front, prompt)
front_matter_round_trip_example = front_matter_round_trip front prompt file_lines no_markers

-- The world is the text of the file; an empty one cannot be read.
abbrev files : FileOps Text
files = record {
  read_file = λ p w. (elim w [ [] ↦ err (codes "no file") | c ∷ s ↦ ok (c ∷ s) ], w);
  stat_file = λ p w. (ok (record { mod_time = pos 1; size = pos 1 }), w);
  hash = λ content. 1;
}

abbrev yaml : Text → Fallible Value Text
yaml content = ok (Json.object end)

abbrev settings_of : Workflow → Fallible Settings LoadError
settings_of x = ok some_settings

abbrev read_workflow : Workflow
read_workflow = record {
  path = codes "/w";
  config = end;
  prompt = codes "Go";
  prompt_template = codes "Go";
}

abbrev any_store : Store
any_store = record {
  desired_path = codes "/w";
  snapshot = record {
    loaded_path = codes "/w";
    workflow = read_workflow;
    settings = some_settings;
    stamp = record { mod_time = pos 1; size = pos 1; hash = 1 };
  };
  closed = false;
}

reload_locked-Settles_example :
    Settles files yaml settings_of any_store
      (reload_locked files yaml settings_of true any_store [])
reload_locked-Settles_example = reload_locked-Settles files yaml settings_of true any_store []

abbrev later : Store × Text
later = tick files yaml settings_of any_store (codes "Run")
