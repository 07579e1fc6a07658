-- ===== src/Speech/Reasons.antt =====
-- When a transcription ends in each of its ways.
use rom_go_app.Prelude.{
  ◌⊎◌, ◌≡◌, refl, inl, inr, String, Bool, true, false, some, List, [], ◌∷◌, ◌++◌, Bool-cases,
}
use rom_go_app.Speech.Paths.{wav_path, trim_space}
use rom_go_app.Speech.{
  Action, looks_at, executes, Host, WhisperRunner, Transcription, text, unavailable, ffmpeg_failed,
  whisper_failed, ready, recognised, converted, transcribe_if, transcribe,
}

abbrev pub ffmpeg_args : String → List String
ffmpeg_args audio =
    "-y" ∷ "-i" ∷ audio ∷ "-ar" ∷ "16000" ∷ "-ac" ∷ "1" ∷ "-f" ∷ "wav" ∷ wav_path audio ∷ []

abbrev pub whisper_args : WhisperRunner → String → List String
whisper_args wr audio =
    "-m" ∷ wr.model_path ∷ "-f" ∷ wav_path audio ∷ "--no-timestamps" ∷ "-nt" ∷ []

abbrev pub ffmpeg : String → Action
ffmpeg audio = executes "ffmpeg" (ffmpeg_args audio)

abbrev pub whisper : WhisperRunner → String → Action
whisper wr audio = executes wr.bin_path (whisper_args wr audio)

-- What the host answers after `t`: whether the two files of whisper are there, and how the two
-- programs end.
module _ (host : Host) (wr : WhisperRunner) (audio : String) (t : List Action) where
  abbrev pub looked_once : List Action
  looked_once = t ++ looks_at wr.bin_path ∷ []

  abbrev pub looked_twice : List Action
  looked_twice = looked_once ++ looks_at wr.model_path ∷ []

  abbrev pub HasFiles : Type 0
  HasFiles = (host.exists t wr.bin_path ≡ true) × (host.exists looked_once wr.model_path ≡ true)

  abbrev pub FfmpegEnds : Bool → String → Type 0
  FfmpegEnds success out = host.outcome looked_twice "ffmpeg" (ffmpeg_args audio) ≡ (success, out)

  abbrev pub WhisperEnds : Bool → String → Type 0
  WhisperEnds success out =
      host.outcome (looked_twice ++ ffmpeg audio ∷ []) wr.bin_path (whisper_args wr audio)
      ≡ (success, out)

  abbrev pub FfmpegSucceeds : Type 0
  FfmpegSucceeds = (out : String) × FfmpegEnds true out

  -- What has to be so for a result.
  abbrev pub Reason : Transcription → Type 0
  Reason (text s) =
      HasFiles × FfmpegSucceeds × ((out : String) × WhisperEnds true out × (s ≡ trim_space out))
  Reason (whisper_failed out) = HasFiles × FfmpegSucceeds × WhisperEnds false out
  Reason (ffmpeg_failed out) = HasFiles × FfmpegEnds false out
  Reason unavailable =
      (host.exists t wr.bin_path ≡ false) ⊎ (host.exists looked_once wr.model_path ≡ false)

  recognised-Reason :
      (o : Bool × String)
      → HasFiles
      → FfmpegSucceeds
      → host.outcome (looked_twice ++ ffmpeg audio ∷ []) wr.bin_path (whisper_args wr audio) ≡ o
      → (s : List Action) → Reason (recognised host (wav_path audio) (s, o)).1
  recognised-Reason (true, out) files made e s = (files, made, (out, e, refl))
  recognised-Reason (false, out) files made e s = (files, made, e)

  converted-Reason :
      (o : Bool × String)
      → HasFiles
      → host.outcome looked_twice "ffmpeg" (ffmpeg_args audio) ≡ o
      → Reason (converted host wr (wav_path audio) (looked_twice ++ ffmpeg audio ∷ [], o)).1
  converted-Reason (true, out) files e = recognised-Reason _ files (out, e) refl _
  converted-Reason (false, out) files e = (files, e)

  ready-there : HasFiles → ready host (some wr) t ≡ (looked_twice, true)
  unfolding ready
  ready-there (bin, model) = rw bin (rw model refl)

  ready-missing : Reason unavailable → (ready host (some wr) t).1 ≡ false
  unfolding ready
  ready-missing (inl no_bin) = rw no_bin refl
  ready-missing (inr no_model) = elim (Bool-cases (host.exists t wr.bin_path)) [
    | inl bin ↦ rw bin no_model
    | inr no_bin ↦ rw no_bin refl
  ]

  transcribe_if-Reason :
      (w : List Action × Bool)
      → w.1 ≡ false
      → Reason unavailable
      → Reason (transcribe_if host wr audio w).1
  transcribe_if-Reason (s, true) e missing = cc
  transcribe_if-Reason (s, false) e missing = missing

  there-Reason :
      (w : List Action × Bool)
      → w ≡ (looked_twice, true)
      → HasFiles
      → Reason (transcribe_if host wr audio w).1
  there-Reason w e there = rw e (converted-Reason _ there refl)

  files : HasFiles ⊎ Reason unavailable
  files = elim (Bool-cases (host.exists t wr.bin_path)) [
    | inl bin ↦ elim (Bool-cases (host.exists looked_once wr.model_path)) [
      | inl model ↦ inl (bin, model)
      | inr no_model ↦ inr (inr no_model)
    ]
    | inr no_bin ↦ inr (inl no_bin)
  ]

  pub transcribe-Reason : Reason (transcribe host wr audio t).1
  unfolding transcribe
  transcribe-Reason = elim files [
    | inl there ↦ there-Reason (ready host (some wr) t) (ready-there there) there
    | inr missing ↦ transcribe_if-Reason (ready host (some wr) t) (ready-missing missing) missing
  ]
