-- ===== src/Server/Start.antt =====
-- main.go: what the server starts with.
use rom_go_app.Prelude.{
  ◌≡◌, ◌≢◌, ◌⊎◌, String, List, [], ◌∷◌, ◌++◌, Float64, ◌=?◌, if◌then◌else◌, Bool-cases, inl, inr,
  refl, eq_iff, arith,
}
use rom_go_app.Config.{Config, load, env_or, home}
use rom_go_app.Config.Paths.{path, rooted, elements}
use rom_go_app.Config.Joins.{join-elements}
use rom_go_app.Speech.{WhisperRunner, new_whisper_runner}
use rom_go_app.Server.Sockets.{Site, start_site}

-- The address to listen on, the runner of whisper, and the registry with its sessions.
pub record Start (F : Type 0) : Type 0 where
  pub addr : String
  pub whisper : WhisperRunner
  pub site : Site F

module _ {F : Type 0} (fl : Float64 F) (getenv : String → String) where
  abbrev started : Config F → Start F
  started cfg = record {
    addr = cfg.listen_addr;
    whisper = new_whisper_runner cfg.whisper_bin_path cfg.whisper_model_path cfg.speech_log_dir;
    site = start_site;
  }

  unfoldable pub start_server : Start F
  start_server = started (load getenv fl)

-- The setting is the value of its variable, and the fallback if that is empty or not set.
abbrev pub Chosen : (String → String) → String → String → String → Type 0
Chosen getenv key fallback setting =
    ((getenv key ≢ "") × (setting ≡ getenv key)) ⊎ ((getenv key ≡ "") × (setting ≡ fallback))

-- The path of these elements below the home directory, however that is written.
abbrev pub below_home : (String → String) → List String → String
below_home getenv es = path (rooted (home getenv)) (elements (home getenv) ++ es)

env_or-Chosen :
    (getenv : String → String) (key fallback fallback' : String)
    → fallback ≡ fallback'
    → Chosen getenv key fallback' (env_or getenv key fallback)
env_or-Chosen getenv key fallback fallback' same = ground (arith, eq_iff (getenv key) "")

given_or-ne : (v d : String) → d ≢ "" → (if v =? "" then d else v) ≢ ""
given_or-ne v d n = elim (Bool-cases (v =? "")) [
  | inl none_given ↦ rw none_given n
  | inr given ↦ rw given (ground (arith, eq_iff v ""))
]

home-ne : (getenv : String → String) → home getenv ≢ ""
home-ne getenv = given_or-ne (getenv "HOME") "/home/data" (ground (arith, eq_iff "/home/data" ""))

module _ {F : Type 0} (fl : Float64 F) (getenv : String → String) where
  -- The server listens on the address of `LISTEN_ADDR`, or on ":8080". The program and the model of
  -- whisper and the directory for recordings are those of their variables, or stand below the home
  -- directory, which is cleaned; it is that of `HOME`, or "/home/data".
  pub start_server-Chosen :
      let s = start_server fl getenv in
      Chosen getenv "LISTEN_ADDR" ":8080" s.addr
      × Chosen getenv "WHISPER_BIN"
          (below_home getenv
            ("data" ∷ "app" ∷ "whisper.cpp" ∷ "build" ∷ "bin" ∷ "whisper-cli" ∷ []))
          s.whisper.bin_path
      × Chosen getenv "WHISPER_MODEL"
          (below_home getenv ("data" ∷ "app" ∷ "whisper.cpp" ∷ "models" ∷ "ggml-base.en.bin" ∷ []))
          s.whisper.model_path
      × Chosen getenv "SPEECH_LOG_DIR"
          (below_home getenv ("data" ∷ "log" ∷ "wav" ∷ []))
          s.whisper.log_dir
  unfolding start_server load new_whisper_runner
  start_server-Chosen = (
    env_or-Chosen getenv "LISTEN_ADDR" ":8080" ":8080" refl,
    env_or-Chosen getenv "WHISPER_BIN" _ _ (
        join-elements (home getenv) "data/app/whisper.cpp/build/bin/whisper-cli" _ (home-ne getenv)
          (λ root out. refl)),
    env_or-Chosen getenv "WHISPER_MODEL" _ _ (
        join-elements (home getenv) "data/app/whisper.cpp/models/ggml-base.en.bin" _
          (home-ne getenv) (λ root out. refl)),
    env_or-Chosen getenv "SPEECH_LOG_DIR" _ _
        (join-elements (home getenv) "data/log/wav" _ (home-ne getenv) (λ root out. refl)),
  )
