-- ===== src/Rest/Context.antt =====
-- src/core/rest_handler.cpp: the SSL context of a RestHandler, and cancel.
use flowdriver.Base.{ℕ, List, [], ◌∷◌, Option, none, some, Bool, true}
use flowdriver.Types.{RequestConfig}
use flowdriver.Url.{parse_url}
use flowdriver.Rest.Defs.{Call, resolves, Net, Outcome, is_https, execute}

-- `ssl_ctx` is the address in ssl_ctx_.
pub record Handler : Type 0 where
  pub ssl_ctx : Option ℕ

-- The constructor makes a context; nothing but setSSLContext replaces it.
abbrev pub init : ℕ → Handler
init ctx = record { ssl_ctx = some ctx }

unfoldable pub set_ssl_context : Option ℕ → Handler → Handler
set_ssl_context ctx h = record h { ssl_ctx = ctx }

unfoldable pub cancel : Handler → Handler
cancel h = h

-- `crashed` is the use of a null context.
pub data Ended : Type 0 where
  ended : Outcome → List Call → Ended
  crashed : Ended

-- The context is used for an https URL, when the host is resolved.
abbrev ended_with : Net → RequestConfig → Option ℕ → Bool → Ended
ended_with n config none true =
    elim (n.attempt (resolves (parse_url config.url).0 (parse_url config.url).1 ∷ [])) [
      | none ↦ crashed
      | some f ↦ ended (execute n config).0 (execute n config).1
    ]
ended_with n config _ _ = ended (execute n config).0 (execute n config).1

-- execute waits for the future of executeAsync.
unfoldable pub execute_on : Net → RequestConfig → Handler → Ended
execute_on n config h = ended_with n config h.ssl_ctx (is_https config.url)
