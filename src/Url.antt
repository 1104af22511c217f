-- ===== src/Url.antt =====
-- src/core/rest_handler.cpp, parseUrl.
pub mod Grammar
pub mod Shape
use flowdriver.Base.{
  ℕ, ◌+◌, ◌-◌, Text, codes, ◌==◌, find, find_from, Option, none, some, take, drop, if◌then◌else◌,
}

-- The start of the host and the default port.
unfoldable pub scheme : Text → ℕ × Text
scheme url =
    if take 7 url == codes "http://"
    then (7, codes "80")
    else if take 8 url == codes "https://"
    then (8, codes "443")
    else (0, codes "80")

-- The text between the scheme and the first slash behind it.
unfoldable pub host_port : Text → ℕ → Option ℕ → Text
host_port url start none = drop start url
host_port url start (some path_start) = take (path_start - start) (drop start url)

-- The host and the port, split at the first colon.
unfoldable pub split_port : Text → Text → Option ℕ → Text × Text
split_port text default_port none = (text, default_port)
split_port text default_port (some colon) = (take colon text, drop (colon + 1) text)

unfoldable pub target_of : Text → Option ℕ → Text
target_of url none = codes "/"
target_of url (some path_start) = drop path_start url

-- Host, port and target.
unfoldable pub parse_url : Text → Text × Text × Text
parse_url url =
    let (start, default_port) = scheme url in
    let path_start = find_from b'/' start url in
    let text = host_port url start path_start in
    let (host, port) = split_port text default_port (find b':' text) in
    (host, port, target_of url path_start)
