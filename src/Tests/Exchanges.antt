-- ===== src/Tests/Exchanges.antt =====
-- src/core/rest_handler.cpp with a network that answers.
use flowdriver.Base.{Text, codes, List, [], ◌∷◌, none, true, false, All, ◌≡◌, refl}
use flowdriver.Types.{RequestConfig, default_config}
use flowdriver.Rest.Defs.{Net, execute, is_https}
use flowdriver.Rest.Exchange.{Concludes, IsEncrypted, execute-Concludes, execute-IsEncrypted}

abbrev pub serving : Net
serving = record {
  attempt = λ calls. none;
  response = λ calls. record { result_int = 200; fields = []; body = codes "hi" };
}

abbrev secure_get : RequestConfig
secure_get = record default_config { method = codes "GET"; url = codes "https://h/a" }

execute-Concludes_example :
    Concludes serving secure_get (execute serving secure_get).0 (execute serving secure_get).1
execute-Concludes_example = execute-Concludes serving secure_get

execute-IsEncrypted_example : All IsEncrypted (execute serving secure_get).1
unfolding is_https flowdriver.Base.◌==◌
execute-IsEncrypted_example = execute-IsEncrypted serving secure_get refl
