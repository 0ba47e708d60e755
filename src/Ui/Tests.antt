-- ===== src/Ui/Tests.antt =====
-- The actors of the user interface on concrete intents.
use anycode.Base.{
  ℕ, Option, ◌≡◌, ◌≢◌, refl, true, false, none, some, List, [], ◌∷◌, ◌++◌, arith, zero, suc, ◌≤◌,
}
use anycode.Args.Settings.{SettingsFieldSnapshot, agents, experimental}
use anycode.Ui.Pty.{handle_intent as handle_pty}
use anycode.Ui.Input
use anycode.Ui.Input.{
  App, new, input, paste, attaches, outputs, step, send_input, attach_pty, on_pty_output, on_paste,
}
use anycode.Ui.Input.Laws.{IsRunning, waiting, run-inputs}
use anycode.Ui.Settings
use anycode.Ui.Settings.{request_close, toggle, move_down, move_up, load}
use anycode.Ui.Settings.Laws as SettingsLaws
use anycode.Ui.BackendSwitch
use anycode.Ui.Choose.{BackendInfo, open_backend_switch_dialog, open-run-IsValid}
use anycode.Ui.Selection.{TextSelection}
use anycode.Ui.Selection.Word.{Cell, select_word, Selected, select_word-Selected}

abbrev typed : List Input.AppEvent
typed = input (0x61 ∷ []) ∷ attaches ∷ input (0x62 ∷ []) ∷ []

new-IsRunning : IsRunning new
new-IsRunning = record { has_pty = tt; drained = refl }

flush_test :
    (Input.run new (typed ++ outputs true 1 ∷ input (0x63 ∷ []) ∷ [])).1
    ≡ (0x61 ∷ []) ∷ (0x62 ∷ []) ∷ (0x63 ∷ []) ∷ []
unfolding Input.run step send_input attach_pty on_pty_output handle_pty
flush_test = refl

run-inputs_example :
    IsRunning (Input.run new typed).0
    × ((Input.run new typed).1 ++ waiting (Input.run new typed).0 ≡ (0x61 ∷ []) ∷ (0x62 ∷ []) ∷ [])
run-inputs_example = run-inputs new typed new-IsRunning (tt, (tt, (tt, tt)))

abbrev field : SettingsFieldSnapshot
field = record {
  id = agents;
  label = "Agent Teams";
  description = "";
  section = experimental;
  value = false;
}

abbrev toggled : Settings.SettingsDialogState
toggled = Settings.visible (record field { value = true } ∷ []) 0 true false

not_request : toggle ≢ request_close
not_request = λ e. cc e

run-guarded_example :
    Settings.run Settings.hidden (load (field ∷ []) ∷ toggle ∷ request_close ∷ [])
    ≡ Settings.visible (record field { value = true } ∷ []) 0 true true
unfolding Settings.run Settings.handle_intent
run-guarded_example =
    SettingsLaws.run-guarded Settings.hidden (load (field ∷ []) ∷ []) toggle
      (record field { value = true } ∷ []) 0 false not_request refl

abbrev infos : List BackendInfo
infos =
    record {
      id = "claude";
      display_name = "Claude";
      is_active = true;
      is_configured = true;
      base_url = "";
    }
    ∷ record {
      id = "fast";
      display_name = "Fast";
      is_active = false;
      is_configured = true;
      base_url = "";
    }
    ∷ []

open-run-IsValid_example : BackendSwitch.IsValid (
    BackendSwitch.run BackendSwitch.hidden (
      open_backend_switch_dialog infos none (some "fast")
      ∷ BackendSwitch.next_section
      ∷ BackendSwitch.move_up
      ∷ []))
open-run-IsValid_example =
    open-run-IsValid infos none (some "fast")
      (BackendSwitch.next_section ∷ BackendSwitch.move_up ∷ []) (tt, (tt, tt))

-- A word in columns 2 to 3 of a screen four columns wide.
abbrev screen : ℕ → ℕ → Option Cell
screen row zero = some (record { has_contents = true; blank = true; is_wide_continuation = false })
screen row (suc zero) =
    some (record { has_contents = false; blank = true; is_wide_continuation = false })
screen row (suc (suc zero)) =
    some (record { has_contents = true; blank = false; is_wide_continuation = false })
screen row (suc (suc (suc zero))) =
    some (record { has_contents = true; blank = false; is_wide_continuation = false })
screen row (suc (suc (suc (suc n)))) = none

off_screen : (c : ℕ) → 4 ≤ c → screen 0 c ≡ none
off_screen (suc (suc (suc (suc n)))) h = refl
off_screen zero h = absurd (omega arith)
off_screen (suc zero) h = absurd (omega arith)
off_screen (suc (suc zero)) h = absurd (omega arith)
off_screen (suc (suc (suc zero))) h = absurd (omega arith)

word_test :
    select_word screen 0 4 2
    ≡ some (
        some (record {
          start = record { row = 0; col = 2 };
          end = record { row = 0; col = 3 };
          active = false;
        }))
unfolding select_word
word_test = refl

select_word-Selected_example :
    (r : Option TextSelection) × (select_word screen 0 4 2 ≡ some r) × Selected screen 0 2 r
select_word-Selected_example =
    select_word-Selected screen 0 4 4 2 off_screen (omega arith) (omega arith)
