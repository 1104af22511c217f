-- ===== src/Tests/Urls.antt =====
-- src/core/rest_handler.cpp: parseUrl at concrete URLs.
use flowdriver.Base.{Text, codes, none, some, true, false, ◌≡◌, refl, arith}
use flowdriver.Url.{parse_url, scheme, host_port, split_port}
use flowdriver.Url.Grammar.{UrlParts, IsWellFormed, parse_url-render, render}
use flowdriver.Url.Shape.{HasShape, parse_url-HasShape}

abbrev site : UrlParts
site = record {
  secure = true;
  host = codes "api.io";
  port = some (codes "8443");
  path = some (codes "v1/a");
}

site-IsWellFormed : IsWellFormed site
site-IsWellFormed = record {
  host_no_slash = ground arith;
  host_no_colon = ground arith;
  port_no_slash = ground arith;
}

parse_url-render_example : parse_url (render site) ≡ (codes "api.io", codes "8443", codes "/v1/a")
parse_url-render_example = parse_url-render site site-IsWellFormed

parse_url-HasShape_example :
    HasShape
      (parse_url (codes "http://h?x")).0
      (parse_url (codes "http://h?x")).1
      (parse_url (codes "http://h?x")).2
parse_url-HasShape_example = parse_url-HasShape (codes "http://h?x")

-- The host ends only at a slash: a query right behind it belongs to the host.
query_host : (parse_url (codes "http://h?x=1")).0 ≡ codes "h?x=1"
unfolding parse_url split_port flowdriver.Base.find host_port flowdriver.Base.find_from scheme
    flowdriver.Base.◌==◌
query_host = refl
