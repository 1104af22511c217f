-- ===== src/Tests/Displays.antt =====
-- A REST request from the call to the display, and the texts of the display.
use flowdriver.Base.{◌≡◌, refl, codes, List, [], ◌∷◌, ◌++◌, none, some, pos, true, false}
use flowdriver.Models.Response.{Qt, init as blank, get_time, microseconds}
use flowdriver.Manager.Protocols.{init}
use flowdriver.Manager.Requests.{check_request}
use flowdriver.Manager.Starting.{asked}
use flowdriver.Display.{Ended, execute_request-Delivers}
use flowdriver.Tests.Managers.{world, started}
use flowdriver.Tests.Exchanges.{serving}

-- Texts that are lower and trimmed already; the numbers are not shown.
abbrev plain : Qt
plain = record {
  lower = λ t. t;
  trimmed = λ t. t;
  split = λ c t. (codes "a") ∷ (codes "b") ∷ [];
  number = λ n. codes "n";
  number_fixed = λ n. codes "q";
}

-- A time above the limit is shown as whole milliseconds.
time_above : get_time plain (record blank { response_time = pos 1999 }) ≡ codes "q ms"
unfolding get_time
time_above = refl

time_at : get_time plain (record blank { response_time = pos 1000 }) ≡ codes "n" ++ microseconds
unfolding get_time
time_at = refl

execute_request-Delivers_example :
    Ended serving (asked (codes "GET") (codes "http://h/") [] [] world (init world)) started
unfolding init flowdriver.Manager.Protocols.initialize flowdriver.Manager.Protocols.construct
    flowdriver.Manager.Defs.protocol_name flowdriver.Base.◌==◌
    flowdriver.Manager.Protocols.release_handlers flowdriver.Manager.Requests.validate_rest_request
    flowdriver.Base.starts_with flowdriver.Manager.Requests.is_valid_method
    flowdriver.Manager.Requests.execute_request flowdriver.Manager.Requests.start_request
    flowdriver.Manager.Protocols.set_current_protocol flowdriver.Manager.Steps.step
execute_request-Delivers_example =
    execute_request-Delivers world serving (codes "GET") (codes "http://h/") [] [] (init world)
      started refl refl refl refl
