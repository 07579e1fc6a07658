-- ===== src/Config.antt =====
-- config/config.go: the settings, from the environment variables or their defaults.
pub mod Paths
pub mod Joins
use rom_go_app.Prelude.{ℕ, String, Float64, if◌then◌else◌, ◌=?◌}
use rom_go_app.Config.Paths.{join}

pub record Config (F : Type 0) : Type 0 where
  pub listen_addr : String
  pub rosbridge_port : ℕ
  pub whisper_bin_path : String
  pub whisper_model_path : String
  pub speech_log_dir : String
  pub default_linear_max : F
  pub default_angular_max : F

-- `getenv` is `os.Getenv`: "" for a variable that is not set.
module _ (getenv : String → String) where
  abbrev pub env_or : String → String → String
  env_or key fallback = if getenv key =? "" then fallback else getenv key

  abbrev pub home : String
  home = if getenv "HOME" =? "" then "/home/data" else getenv "HOME"

  unfoldable pub load : {F : Type 0} → Float64 F → Config F
  load fl = record {
    listen_addr = env_or "LISTEN_ADDR" ":8080";
    rosbridge_port = 9090;
    whisper_bin_path =
        env_or "WHISPER_BIN" (join home "data/app/whisper.cpp/build/bin/whisper-cli");
    whisper_model_path =
        env_or "WHISPER_MODEL" (join home "data/app/whisper.cpp/models/ggml-base.en.bin");
    speech_log_dir = env_or "SPEECH_LOG_DIR" (join home "data/log/wav");
    default_linear_max = fl.one_float;
    default_angular_max = fl.one_float;
  }
