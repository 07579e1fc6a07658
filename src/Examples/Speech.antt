-- ===== src/Examples/Speech.antt =====
-- Speech on a host where whisper is there, but its run fails.
use rom_go_app.Prelude.{
  ℕ, ◌≡◌, ◌≢◌, refl, String, Bool, true, false, some, [], ◌∷◌, if◌then◌else◌, ◌=?◌, ◌+++◌,
}
use rom_go_app.Robot.{Robot, new_robot}
use rom_go_app.Rosbridge.Client.{Client, is_connected}
use rom_go_app.Manager.{Manager, new_manager, get_current_robot}
use rom_go_app.Speech.{
  Host, WhisperRunner, SpeechRequest, transcribed, ready, transcribe, transcribe_request,
  voice_command, speech_transcribe,
}
use rom_go_app.Speech.Paths.{wav_path, wav_path-ne}
use rom_go_app.Speech.Reasons.{Reason}
use rom_go_app.Speech.Traces.{Adds, work, transcribe-Reason-Adds, speech_transcribe-voice}
use rom_go_app.Examples.{fl, live}

abbrev host : Bool → Host
host heard = record {
  exists = λ _ _. true;
  can_create = λ _ _. true;
  can_copy = λ _ _. true;
  outcome = λ _ program _. if program =? "ffmpeg" then (true, "") else (heard, " go home ");
  audio_path = λ _ dir ext. dir +++ "/speech" +++ ext;
}

abbrev runner : WhisperRunner
runner = record { bin_path = "/bin/whisper"; model_path = "/models/en"; log_dir = "/log" }

transcribe-Reason-Adds_example :
    let (after, result) = transcribe (host false) runner "/log/speech.webm" [] in
    Adds (work runner "/log/speech.webm" result) [] after
    × Reason (host false) runner "/log/speech.webm" [] result
transcribe-Reason-Adds_example = transcribe-Reason-Adds (host false) runner "/log/speech.webm" []

wav_path-ne_example : wav_path "/log/speech.wav" ≢ "/log/speech.wav"
wav_path-ne_example = wav_path-ne "/log/speech.wav"

-- The current robot is connected.
abbrev talkative : Robot ℕ
talkative = record (new_robot fl "1" "/r1" "one" "10.0.0.1" 9090) { client = some live }

abbrev fleet : Manager ℕ
fleet = record new_manager { robots = ("1", talkative) ∷ []; current_id = "1" }

abbrev speech : SpeechRequest
speech = record { method = "POST"; form_parses = true; audio = some "audio.webm" }

heard : (speech_transcribe (host true) (some runner) speech fleet []).1.1 ≡ some "go home"
unfolding speech_transcribe transcribe_request transcribe ready voice_command get_current_robot
    is_connected
heard = refl

speech_transcribe-voice_example :
    ((speech_transcribe (host true) (some runner) speech fleet []).1.0 ≡ transcribed "go home")
    × (◌≢◌ {A = String} "go home" "")
    × ((r : Robot ℕ) × (d : Client ℕ) × (get_current_robot fleet ≡ some r)
        × (r.client ≡ some d)
        × (is_connected d ≡ true))
speech_transcribe-voice_example =
    speech_transcribe-voice (host true) (some runner) speech fleet [] "go home" heard
