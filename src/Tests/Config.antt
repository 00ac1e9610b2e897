-- ===== src/Tests/Config.antt =====
-- An environment with the settings that must be there, and a file with two lines.
use guhfrtui.Base.{◌≡◌, [], ◌∷◌, if◌then◌else◌, bytes_eq, nat_eq}
use guhfrtui.Text.{is_empty}
use guhfrtui.Text.Parts.{codes}
use guhfrtui.BotConfig.{Env, getenv, load}
use guhfrtui.BotConfig.Load.{Answers, load_lem}
use guhfrtui.BotConfig.DotEnv.{File, opened, load_dot_env, first_value, lines_of, load_dot_env_lem}

abbrev env : Env
env =
    (codes "BOT_TOKEN", codes " t ")
    ∷ ((codes "ERP_URL", codes "http://erp//")
        ∷ ((codes "ERP_API_KEY", codes "k")
            ∷ ((codes "ERP_API_SECRET", codes "s") ∷ ((codes "BOT_QUEUE_SIZE", codes "3") ∷ []))))

load_lem_example : Answers env (load env)
load_lem_example = load_lem env

abbrev file : File
file = opened (codes "ERP_API_KEY=x\nBOT_READER_PORT = '27011'\n")

load_dot_env_lem_example :
    getenv (codes "BOT_READER_PORT") (load_dot_env (codes ".env") file env).1 ≡ (
      if is_empty (getenv (codes "BOT_READER_PORT") env)
      then first_value (codes "BOT_READER_PORT") (lines_of (codes ".env") file)
      else getenv (codes "BOT_READER_PORT") env)
load_dot_env_lem_example = load_dot_env_lem (codes ".env") file env (codes "BOT_READER_PORT")
