-- ===== src/Examples/Browser.antt =====
-- What a browser is sent and what it asks for.
use rom_go_app.Prelude.{ℕ, String, true, false, none, some, List, [], ◌∷◌}
use rom_go_app.Manager.{BroadcastMsg, no_data}
use rom_go_app.Browser.{Command, CommandCodec, Pick, takes, done_closed, writer}
use rom_go_app.Browser.Throttle.{
  Spaced, Stops, StartsWith, broken, others, maps, throttled, taken, writer-Spaced,
}

abbrev message : String → BroadcastMsg ℕ
message kind = record { kind = kind; robot_id = "1"; payload = no_data }

-- Three maps within half a second, with a pose between them; the write of the last map fails.
abbrev rounds : List (Pick ℕ)
rounds =
    takes 100000000 (message "map") true
    ∷ takes 200000000 (message "map") true
    ∷ takes 250000000 (message "tf") true
    ∷ takes 700000000 (message "map") false
    ∷ takes 800000000 (message "tf") true
    ∷ done_closed
    ∷ []

writer-Spaced_example :
    let written = writer none rounds in
    Spaced none written
    × Stops written
    × StartsWith (broken written) (others written) (others (taken rounds))
    × StartsWith (broken written) (maps written) (throttled none (maps (taken rounds)))
writer-Spaced_example = writer-Spaced none rounds

abbrev pub commands : CommandCodec ℕ
commands = record { joystick = λ _. some (2, 1); switch_id = λ _. some "1"; voice_text = λ _. none }

abbrev pub driven : Command
driven = record { kind = "joystick"; robot_id = "7"; data_bytes = [] }
