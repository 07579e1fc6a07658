-- ===== src/Speech/Traces.antt =====
-- What the speech requests do to the files, and when they speak to a robot.
use rom_go_app.Prelude.{
  if_holds, ◌≡◌, ◌≢◌, refl, sym, ◌∙◌, ap, inl, inr, String, Bool, true, false, Option, none, some,
  List, [], ◌∷◌, ◌++◌, ◌=?◌, arith, eq_iff, Bool-cases,
}
use mathlib.Core.List.{append-nil, append_assoc}
use rom_go_app.Robot.{Robot}
use rom_go_app.Rosbridge.Client.{Client, is_connected}
use rom_go_app.Manager.{Manager, get_current_robot}
use rom_go_app.Api.Current.{IsRefusal}
use rom_go_app.Speech.Paths.{wav_path}
use rom_go_app.Speech.Reasons.{ffmpeg, whisper, Reason, transcribe-Reason}
use rom_go_app.Speech.{
  Action, looks_at, makes_dir, creates, copies_to, removes, executes, Host, WhisperRunner,
  Transcription, text, unavailable, ffmpeg_failed, whisper_failed, SpeechAnswer, failed, available,
  transcribed, SpeechRequest, look, look_next, execute, ready, recognised, converted, transcribe_if,
  transcribe, spoken, save_to, save_audio, upload, transcribe_request, if_connected, to_robot,
  voice_command, speech_transcribe,
}

-- The traces that only look.
abbrev pub OnlyLooks : List Action → Type 0
OnlyLooks [] = Unit
OnlyLooks (looks_at _ ∷ t) = OnlyLooks t
OnlyLooks (_ ∷ t) = ⊥

OnlyLooks-append :
    (t : List Action) (path : String) → OnlyLooks t → OnlyLooks (t ++ looks_at path ∷ [])
OnlyLooks-append [] path v = tt
OnlyLooks-append (looks_at _ ∷ t) path v = OnlyLooks-append t path v
OnlyLooks-append (makes_dir _ ∷ t) path v = absurd v
OnlyLooks-append (creates _ ∷ t) path v = absurd v
OnlyLooks-append (copies_to _ ∷ t) path v = absurd v
OnlyLooks-append (removes _ ∷ t) path v = absurd v
OnlyLooks-append (executes _ _ ∷ t) path v = absurd v

-- `after` is `before` with looks and then `rest` behind it.
abbrev pub Adds : List Action → List Action → List Action → Type 0
Adds rest before after =
    (looked : List Action) × OnlyLooks looked × (after ≡ before ++ looked ++ rest)

-- What a transcription does besides looks.
abbrev pub work : WhisperRunner → String → Transcription → List Action
work wr audio (text _) = ffmpeg audio ∷ whisper wr audio ∷ removes (wav_path audio) ∷ []
work wr audio (whisper_failed _) = ffmpeg audio ∷ whisper wr audio ∷ removes (wav_path audio) ∷ []
work wr audio (ffmpeg_failed _) = ffmpeg audio ∷ []
work wr audio unavailable = []

module _ (host : Host) where
  look_next-Adds :
      (path : String) (t : List Action) (w : List Action × Bool)
      → Adds [] t w.0
      → Adds [] t (look_next host path w).0
  look_next-Adds path t (after, true) (looked, v, e) = (
    looked ++ looks_at path ∷ [],
    OnlyLooks-append looked path v,
    ap (λ (l : List Action). l ++ looks_at path ∷ []) (e ∙ append-nil (t ++ looked))
        ∙ append_assoc t looked (looks_at path ∷ [])
        ∙ sym (append-nil (t ++ (looked ++ looks_at path ∷ []))),
  )
  look_next-Adds path t (after, false) a = a

  ready-Adds : (wr : Option WhisperRunner) (t : List Action) → Adds [] t (ready host wr t).0
  unfolding ready
  ready-Adds none t = ([], tt, sym (append-nil (t ++ []) ∙ append-nil t))
  ready-Adds (some wr) t =
      look_next-Adds wr.model_path t (look host wr.bin_path t)
        (looks_at wr.bin_path ∷ [], tt, sym (append-nil (t ++ looks_at wr.bin_path ∷ [])))

  recognised-work :
      (wr : WhisperRunner) (audio : String) (s : List Action) (w : List Action × (Bool × String))
      → w.0 ≡ s ++ ffmpeg audio ∷ whisper wr audio ∷ []
      → let (after, result) = recognised host (wav_path audio) w in
        after ≡ s ++ work wr audio result
  recognised-work wr audio s (t, (true, out)) e =
      ap (λ (l : List Action). l ++ removes (wav_path audio) ∷ []) e
      ∙ append_assoc s (ffmpeg audio ∷ whisper wr audio ∷ []) (removes (wav_path audio) ∷ [])
  recognised-work wr audio s (t, (false, out)) e =
      ap (λ (l : List Action). l ++ removes (wav_path audio) ∷ []) e
      ∙ append_assoc s (ffmpeg audio ∷ whisper wr audio ∷ []) (removes (wav_path audio) ∷ [])

  converted-work :
      (wr : WhisperRunner) (audio : String) (s : List Action) (w : List Action × (Bool × String))
      → w.0 ≡ s ++ ffmpeg audio ∷ []
      → let (after, result) = converted host wr (wav_path audio) w in
        after ≡ s ++ work wr audio result
  converted-work wr audio s (t, (true, _)) e = recognised-work wr audio s _ (
      ap (λ (l : List Action). l ++ whisper wr audio ∷ []) e
      ∙ append_assoc s (ffmpeg audio ∷ []) (whisper wr audio ∷ []))
  converted-work wr audio s (t, (false, out)) e = e

  more-Adds : (t s after rest : List Action) → Adds [] t s → after ≡ s ++ rest → Adds rest t after
  more-Adds t s after rest (looked, v, e) grown =
      (looked, v, grown ∙ ap (λ (l : List Action). l ++ rest) (e ∙ append-nil (t ++ looked)))

  transcribe_if-Adds :
      (wr : WhisperRunner) (audio : String) (t : List Action) (w : List Action × Bool)
      → Adds [] t w.0
      → let (after, result) = transcribe_if host wr audio w in Adds (work wr audio result) t after
  transcribe_if-Adds wr audio t (s, false) a = a
  transcribe_if-Adds wr audio t (s, true) a =
      more-Adds t s _ _ a (converted-work wr audio s (execute host "ffmpeg" _ s) refl)

  -- The result of a transcription says what was done and why. If it is that whisper is not
  -- available, one of whisper's two files is missing, and nothing was done but to look for them.
  -- Otherwise both are there, and ffmpeg was run on the audio. If the result is ffmpeg's failure,
  -- ffmpeg ended with an error and the output that the result quotes, and nothing else was run.
  -- Otherwise ffmpeg succeeded, whisper was run on the audio that ffmpeg made, and that audio was
  -- removed; the result is a text, the trimmed output, only if whisper succeeded, and quotes
  -- whisper's output only if whisper ended with an error.
  pub transcribe-Reason-Adds :
      (wr : WhisperRunner) (audio : String) (t : List Action)
      → let (after, result) = transcribe host wr audio t in
        Adds (work wr audio result) t after × Reason host wr audio t result
  unfolding transcribe
  transcribe-Reason-Adds wr audio t = (
    transcribe_if-Adds wr audio t (ready host (some wr) t) (ready-Adds (some wr) t),
    transcribe-Reason host wr audio t,
  )

abbrev pub IsTurnedDown : SpeechAnswer → Type 0
IsTurnedDown (failed s) = IsRefusal s
IsTurnedDown (available _) = ⊥
IsTurnedDown (transcribed _) = ⊥

module _ (host : Host) where
  -- An answer that turns a request down comes with looks only.
  abbrev Turns : List Action → List Action × SpeechAnswer → Type 0
  Turns t w = IsTurnedDown w.1 → Adds [] t w.0

  unchanged : (t : List Action) → Adds [] t t
  unchanged t = ([], tt, sym (append-nil (t ++ []) ∙ append-nil t))

  spoken-ne-IsTurnedDown : (w : List Action × Transcription) → ¬ IsTurnedDown (spoken host w).1
  spoken-ne-IsTurnedDown (t, text s) h = h
  spoken-ne-IsTurnedDown (t, unavailable) h = h
  spoken-ne-IsTurnedDown (t, ffmpeg_failed _) h = h
  spoken-ne-IsTurnedDown (t, whisper_failed _) h = h

  save_to-ne-IsTurnedDown :
      (wr : WhisperRunner) (path : String) (t : List Action)
      → ¬ IsTurnedDown (save_to host wr path t).1
  save_to-ne-IsTurnedDown wr path t h = elim (Bool-cases (host.can_create t path)) [
    | inl made ↦ elim (Bool-cases (host.can_copy (t ++ creates path ∷ []) path)) [
      | inl copied ↦ spoken-ne-IsTurnedDown _ (rw (made, copied) at h)
      | inr broken ↦ rw (made, broken) at h
    ]
    | inr refused ↦ rw refused at h
  ]

  save_audio-refused :
      (wr : WhisperRunner) (audio : Option String) (s t : List Action)
      → Adds [] t s
      → Turns t (save_audio host wr audio s)
  save_audio-refused wr none s t a h = a
  save_audio-refused wr (some filename) s t a h = absurd (save_to-ne-IsTurnedDown wr _ _ h)

  upload-refused :
      (wr : Option WhisperRunner) (req : SpeechRequest) (w : List Action × Bool) (t : List Action)
      → Adds [] t w.0
      → Turns t (upload host wr req w)
  upload-refused none req w t a = λ h. a
  upload-refused (some wr) req (s, false) t a = λ h. a
  upload-refused (some wr) req (s, true) t a =
      if_holds (Turns t) req.form_parses (save_audio-refused wr req.audio s t a) (λ h. a)

  -- A request to transcribe that is answered by 400, 405 or 503 has only looked at files: nothing is
  -- written and no program runs.
  pub transcribe_request-refused :
      (wr : Option WhisperRunner) (req : SpeechRequest) (t : List Action)
      → let (after, answer) = transcribe_request host wr req t in
        IsTurnedDown answer → Adds [] t after
  unfolding transcribe_request
  transcribe_request-refused wr req t =
      if_holds (Turns t) (req.method =? "POST")
        (upload-refused wr req (ready host wr t) t (ready-Adds host wr t)) (λ h. unchanged t)

module _ {F : Type 0} where
  if_connected-some :
      (c : Option (Client F)) (s said : String)
      → if_connected c s ≡ some said
      → (said ≡ s) × ((d : Client F) × (c ≡ some d) × (is_connected d ≡ true))
  if_connected-some none s said e = cc
  if_connected-some (some c) s said e = (ground arith, (c, refl, ground arith))

  to_robot-some :
      (rb : Option (Robot F)) (s said : String)
      → to_robot rb s ≡ some said
      → (said ≡ s)
        × ((r : Robot F) × (d : Client F) × (rb ≡ some r)
            × (r.client ≡ some d)
            × (is_connected d ≡ true))
  to_robot-some none s said e = cc
  to_robot-some (some r) s said e =
      let (same, (d, has, up)) = if_connected-some r.client s said e in
      (same, (r, d, refl, has, up))

  voice-some :
      (answer : SpeechAnswer) (m : Manager F) (said : String)
      → voice_command answer m ≡ some said
      → (answer ≡ transcribed said)
        × (said ≢ "")
        × ((r : Robot F) × (d : Client F) × (get_current_robot m ≡ some r)
            × (r.client ≡ some d)
            × (is_connected d ≡ true))
  unfolding voice_command
  voice-some (failed _) m said e = cc
  voice-some (available _) m said e = cc
  voice-some (transcribed s) m said e = elim (Bool-cases (s =? "")) [
    | inl blank ↦ cc (rw blank at e)
    | inr spoken_text ↦
        let (same, rest) = to_robot-some (get_current_robot m) s said (rw spoken_text at e) in
        (ap transcribed (sym same), ground (arith, eq_iff s ""), rest)
  ]

  -- Speech is sent on only if it was transcribed, is not empty, and there is a current robot, with a
  -- client that is connected; and what is sent is the text of the answer.
  pub speech_transcribe-voice :
      (host : Host) (wr : Option WhisperRunner) (req : SpeechRequest) (m : Manager F)
      (t : List Action) (said : String)
      → let (_, (answer, voice)) = speech_transcribe host wr req m t in
        voice ≡ some said
        → (answer ≡ transcribed said)
          × (said ≢ "")
          × ((r : Robot F) × (d : Client F) × (get_current_robot m ≡ some r)
              × (r.client ≡ some d)
              × (is_connected d ≡ true))
  unfolding speech_transcribe
  speech_transcribe-voice host wr req m t said =
      voice-some (transcribe_request host wr req t).1 m said
