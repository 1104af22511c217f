-- ===== src/Protocol.antt =====
-- src/core/protocol_handler.cpp: the base class of the handlers.
use flowdriver.Base.{Text, codes, Option, none, some, is_empty, if◌then◌else◌}
use flowdriver.Types.{RequestConfig, Error, ErrorCode}

abbrev invalid_config : Text → Error
invalid_config what = record { code = ErrorCode.invalid_config; what = what }

-- The Error that validateConfig throws, if any. No handler calls it.
unfoldable pub validate_config : RequestConfig → Option Error
validate_config config =
    if is_empty config.url
    then some (invalid_config (codes "URL cannot be empty"))
    else if is_empty config.method
    then some (invalid_config (codes "Method cannot be empty"))
    else none
