-- ===== src/Cmd/Main.antt =====
-- cmd/paste/main.go. The three commands are functions to their exit codes.
use paste_thek4n_ru.Prelude.{List, [], ◌∷◌, ◌++◌, if◌then◌else◌}
use paste_thek4n_ru.Prelude.Bytes.{Bytes, codes, bytes_eq}
use paste_thek4n_ru.Cmd.Console.{Console, Exit}

-- `runServer`, `apikeysCommand` and `pingCommand`, which end the program by themselves.
pub record Commands (W : Type 0) : Type 0 where
  pub run_server : List Bytes → Exit W
  pub apikeys_command : List Bytes → Exit W
  pub ping_command : List Bytes → Exit W

abbrev usage_message : Bytes → Bytes
usage_message program =
    codes "usage: "
    ++ program
    ++ codes
        " <command>\n\nCommands:\n\trun       Run paste server.\n\tapikeys   API keys management.\n\tping      Ping command. Can be used for check app health.\n"

module _ {W : Type 0} (console : Console W) (commands : Commands W) where
  abbrev usage : Bytes → Exit W
  usage program w = (1, console.stderr (usage_message program) w)

  -- os.Args is the first argument and the list after it.
  unfoldable pub main_program : Bytes → List Bytes → Exit W
  unfolding bytes_eq
  main_program program [] = usage program
  main_program program (command ∷ args) =
      if bytes_eq command (codes "run")
      then commands.run_server args
      else if bytes_eq command (codes "apikeys")
      then commands.apikeys_command args
      else if bytes_eq command (codes "ping")
      then commands.ping_command args
      else usage program
