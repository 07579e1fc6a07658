-- ===== src/Examples/Start.antt =====
-- A start of the server under a home directory that is not clean.
use rom_go_app.Prelude.{◌≡◌, refl, String, [], ◌∷◌, ◌=?◌, if◌then◌else◌}
use rom_go_app.Config.{load}
use rom_go_app.Speech.{new_whisper_runner}
use rom_go_app.Server.Start.{start_server, Chosen, below_home, start_server-Chosen}
use rom_go_app.Examples.{fl}

abbrev getenv : String → String
getenv key =
    if key =? "HOME" then "/srv//x/../rom/." else if key =? "LISTEN_ADDR" then ":9000" else ""

recordings : (start_server fl getenv).whisper.log_dir ≡ "/srv/rom/data/log/wav"
unfolding start_server load new_whisper_runner
recordings = refl

start_server-Chosen_example :
    let s = start_server fl getenv in
    Chosen getenv "LISTEN_ADDR" ":8080" s.addr
    × Chosen getenv "WHISPER_BIN"
        (below_home getenv ("data" ∷ "app" ∷ "whisper.cpp" ∷ "build" ∷ "bin" ∷ "whisper-cli" ∷ []))
        s.whisper.bin_path
    × Chosen getenv "WHISPER_MODEL"
        (below_home getenv ("data" ∷ "app" ∷ "whisper.cpp" ∷ "models" ∷ "ggml-base.en.bin" ∷ []))
        s.whisper.model_path
    × Chosen getenv "SPEECH_LOG_DIR"
        (below_home getenv ("data" ∷ "log" ∷ "wav" ∷ []))
        s.whisper.log_dir
start_server-Chosen_example = start_server-Chosen fl getenv
