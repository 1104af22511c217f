-- ===== src/Tests/Calls.antt =====
-- src/core/grpc_handler.cpp with the descriptors of a file.
use flowdriver.Base.{
  Lacks, ◌⊎◌, Text, codes, [], ◌∷◌, ◌++◌, none, some, ◌≡◌, refl, arith, ◌==◌, if◌then◌else◌,
}
use flowdriver.Types.{ErrorCode, default_config, default_result}
use flowdriver.Grpc.Defs.{Grpc, Handler, Service, Method, ProtoFile, init, binary, json, replied}
use flowdriver.Grpc.Services.{set_service}
use flowdriver.Grpc.Execute.{execute}
use flowdriver.Grpc.Calls.{IsCalled, opened, execute-IsCalled}
use flowdriver.Grpc.Lookup.{IsProto, named, set_service_listed_cases}

abbrev pub say : Method
say = record { name = codes "Say" }

abbrev pub greeter : Text → Service
greeter package_name = record {
  full_name = package_name ++ codes ".Greeter";
  name = codes "Greeter";
  methods = say ∷ [];
  find_method = λ n. if n == codes "Say" then some say else none;
}

-- A file of the package, with one service.
abbrev pub file : Text → ProtoFile
file package_name = record {
  package_name = package_name;
  services = greeter package_name ∷ [];
  find_service = λ n. named n (greeter package_name ∷ []);
}

pub file-IsProto : (p : Text) → IsProto (file p)
file-IsProto p = record { finds = λ n. refl; simple = ground arith; full = (refl, tt) }

abbrev loaded : Text → Handler
loaded p = record init { pool = 1; current_file = some (file p) }

abbrev pub calling : Handler
calling = record (loaded (codes "demo")) {
  current_service = some (1, greeter (codes "demo"));
  current_method = some (1, say);
}

abbrev pub echo : Grpc
echo = record {
  import = λ path. none;
  encode = λ m t. binary t;
  decode = λ m t. json t;
  call = λ c p hs t. replied t;
}

set_service_listed_cases_example :
    (Lacks b'.' (codes "a.b")
      × (t : Service) × (set_service (codes "a.b.Greeter") (loaded (codes "a.b"))
          ≡ (none, record (loaded (codes "a.b")) { current_service = some (1, t) }))
      × (t.name ≡ codes "Greeter"))
    ⊎ ((¬ Lacks b'.' (codes "a.b"))
        × ((set_service (codes "a.b.Greeter") (loaded (codes "a.b"))).0
            ≡ some (record {
              code = ErrorCode.invalid_argument;
              what = codes "Service not found: a.b.Greeter";
            })))
set_service_listed_cases_example =
    set_service_listed_cases (file (codes "a.b")) (loaded (codes "a.b")) 0 (greeter (codes "a.b"))
      (file-IsProto (codes "a.b")) refl refl

execute-IsCalled_example :
    IsCalled echo default_config calling
      (record default_result { body = codes "{}"; status_code = 200 })
    × ((execute echo default_config calling).1 ≡ opened calling)
unfolding execute
execute-IsCalled_example =
    execute-IsCalled echo default_config
      (record default_result { body = codes "{}"; status_code = 200 }) calling refl
