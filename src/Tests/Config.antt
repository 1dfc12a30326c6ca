-- ===== src/Tests/Config.antt =====
-- Settings that are accepted.
use go_symphony.Prelude.{◌≡◌, refl, none}
use go_symphony.Prelude.Text.{is_blank, text_eq}
use go_symphony.Config.Validation.{validate_settings}
use go_symphony.Config.Validation.Laws.{validate_settings-IsUsable, IsUsable}
use go_symphony.Tests.Scheduler.{some_settings}

accepted_settings : validate_settings some_settings ≡ none
unfolding validate_settings is_blank text_eq
accepted_settings = refl

validate_settings-IsUsable_example : IsUsable some_settings
validate_settings-IsUsable_example = validate_settings-IsUsable some_settings accepted_settings
