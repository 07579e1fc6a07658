-- ===== src/Speech.antt =====
-- handlers/speech_api.go: speech to text by two programs outside. What is done to the files is a
-- trace, and the host decides, by the trace so far, how each action ends.
pub mod Paths
pub mod Reasons
pub mod Traces
use rom_go_app.Prelude.{
  String, Bool, true, false, not, ◌||◌, Option, none, some, List, [], ◌∷◌, ◌++◌, if◌then◌else◌,
  ◌=?◌,
}
use rom_go_app.Robot.{Robot}
use rom_go_app.Rosbridge.Client.{Client, is_connected}
use rom_go_app.Manager.{Manager, get_current_robot}
use rom_go_app.Api.{
  Status, success, method_not_allowed, bad_request, service_unavailable, internal_error,
}
use rom_go_app.Speech.Paths.{ext, wav_path, trim_space}

pub data Action : Type 0 where
  looks_at makes_dir creates copies_to removes : String → Action
  executes : String → List String → Action

-- `os.Stat`, `os.Create` and `io.Copy` without an error; a command's success and its output; and the
-- path that `Format` and `Join` make of the time, the log directory and an extension.
pub record Host : Type 0 where
  pub exists : List Action → String → Bool
  pub can_create : List Action → String → Bool
  pub can_copy : List Action → String → Bool
  pub outcome : List Action → String → List String → Bool × String
  pub audio_path : List Action → String → String → String

pub record WhisperRunner : Type 0 where
  pub bin_path : String
  pub model_path : String
  pub log_dir : String

unfoldable pub new_whisper_runner : String → String → String → WhisperRunner
new_whisper_runner bin_path model_path log_dir = record {
  bin_path = bin_path;
  model_path = model_path;
  log_dir = log_dir;
}

-- What `Transcribe` returns: a text, or which of its errors, with the output that it quotes.
pub data Transcription : Type 0 where
  text : String → Transcription
  unavailable : Transcription
  ffmpeg_failed : String → Transcription
  whisper_failed : String → Transcription

pub data SpeechAnswer : Type 0 where
  failed : Status → SpeechAnswer
  available : Bool → SpeechAnswer
  transcribed : String → SpeechAnswer

-- A request: whether its form parses, and the name of the uploaded file, if there is one.
pub record SpeechRequest : Type 0 where
  pub method : String
  pub form_parses : Bool
  pub audio : Option String

module _ (host : Host) where
  abbrev pub look : String → List Action → List Action × Bool
  look path t = (t ++ looks_at path ∷ [], host.exists t path)

  abbrev pub look_next : String → List Action × Bool → List Action × Bool
  look_next path (t, true) = look path t
  look_next path (t, false) = (t, false)

  abbrev pub execute : String → List String → List Action → List Action × (Bool × String)
  execute program args t = (t ++ executes program args ∷ [], host.outcome t program args)

  unfoldable pub ready : Option WhisperRunner → List Action → List Action × Bool
  ready none t = (t, false)
  ready (some wr) t = look_next wr.model_path (look wr.bin_path t)

  -- The run of whisper, with the deferred removal of its input.
  abbrev pub recognised : String → List Action × (Bool × String) → List Action × Transcription
  recognised wav (t, (true, out)) = (t ++ removes wav ∷ [], text (trim_space out))
  recognised wav (t, (false, out)) = (t ++ removes wav ∷ [], whisper_failed out)

  abbrev pub converted :
      WhisperRunner → String → List Action × (Bool × String) → List Action × Transcription
  converted wr wav (t, (true, _)) =
      recognised wav
        (execute wr.bin_path ("-m" ∷ wr.model_path ∷ "-f" ∷ wav ∷ "--no-timestamps" ∷ "-nt" ∷ []) t)
  converted wr wav (t, (false, out)) = (t, ffmpeg_failed out)

  abbrev pub transcribe_if :
      WhisperRunner → String → List Action × Bool → List Action × Transcription
  transcribe_if wr audio (t, false) = (t, unavailable)
  transcribe_if wr audio (t, true) =
      let wav = wav_path audio in
      converted wr wav (
        execute "ffmpeg"
          ("-y" ∷ "-i" ∷ audio ∷ "-ar" ∷ "16000" ∷ "-ac" ∷ "1" ∷ "-f" ∷ "wav" ∷ wav ∷ []) t)

  unfoldable pub transcribe : WhisperRunner → String → List Action → List Action × Transcription
  unfolding ready
  transcribe wr audio t = transcribe_if wr audio (ready (some wr) t)

  unfoldable pub speech_status :
      Option WhisperRunner → String → List Action → List Action × SpeechAnswer
  speech_status wr method t =
      if method =? "GET"
      then (let (after, is_ready) = ready wr t in (after, available is_ready))
      else (t, failed method_not_allowed)

  -- `ext` with the default for a name that has none.
  abbrev pub audio_ext : String → String
  audio_ext filename = if ext filename =? "" then ".webm" else ext filename

  -- From the saved file to the answer.
  abbrev pub spoken : List Action × Transcription → List Action × SpeechAnswer
  spoken (t, text s) = (t, transcribed s)
  spoken (t, unavailable) = (t, failed internal_error)
  spoken (t, ffmpeg_failed _) = (t, failed internal_error)
  spoken (t, whisper_failed _) = (t, failed internal_error)

  -- `os.Create`, `io.Copy` and the transcription.
  abbrev pub save_to : WhisperRunner → String → List Action → List Action × SpeechAnswer
  save_to wr path t =
      if not (host.can_create t path)
      then (t ++ creates path ∷ [], failed internal_error)
      else if not (host.can_copy (t ++ creates path ∷ []) path)
      then (t ++ creates path ∷ copies_to path ∷ [], failed internal_error)
      else spoken (transcribe wr path (t ++ creates path ∷ copies_to path ∷ []))

  abbrev pub save_audio : WhisperRunner → Option String → List Action → List Action × SpeechAnswer
  save_audio wr none t = (t, failed bad_request)
  save_audio wr (some filename) t =
      let made = t ++ makes_dir wr.log_dir ∷ [] in
      save_to wr (host.audio_path made wr.log_dir (audio_ext filename)) made

  abbrev pub upload :
      Option WhisperRunner → SpeechRequest → List Action × Bool → List Action × SpeechAnswer
  upload none req (t, _) = (t, failed service_unavailable)
  upload (some wr) req (t, false) = (t, failed service_unavailable)
  upload (some wr) req (t, true) =
      if req.form_parses then save_audio wr req.audio t else (t, failed bad_request)

  -- `SpeechTranscribe` up to the voice command.
  unfoldable pub transcribe_request :
      Option WhisperRunner → SpeechRequest → List Action → List Action × SpeechAnswer
  unfolding transcribe
  transcribe_request wr req t =
      if req.method =? "POST" then upload wr req (ready wr t) else (t, failed method_not_allowed)

module _ {F : Type 0} where
  abbrev pub if_connected : Option (Client F) → String → Option String
  if_connected none s = none
  if_connected (some c) s = if is_connected c then some s else none

  abbrev pub to_robot : Option (Robot F) → String → Option String
  to_robot none s = none
  to_robot (some rb) s = if_connected rb.client s

  -- The text that a goroutine then sends to the current robot.
  unfoldable pub voice_command : SpeechAnswer → Manager F → Option String
  voice_command (transcribed s) m = if s =? "" then none else to_robot (get_current_robot m) s
  voice_command (available _) m = none
  voice_command (failed _) m = none

  -- `SpeechTranscribe`: the trace, the answer, and the voice command that it starts.
  unfoldable pub speech_transcribe :
      Host
      → Option WhisperRunner
      → SpeechRequest
      → Manager F
      → List Action
      → List Action × (SpeechAnswer × Option String)
  speech_transcribe host wr req m t =
      let (after, answer) = transcribe_request host wr req t in
      (after, (answer, voice_command answer m))
