-- ===== src/Url/Grammar.antt =====
-- What parse_url answers on a URL that is put together from its parts.
use mathlib.Core.Option.{get_or}
use flowdriver.Base.{
  ℕ, ◌≡◌, refl, ap, ◌∙◌, Bool, true, false, Text, codes, ◌==◌, find, find_from, find-append,
  find-Lacks, Lacks, Lacks-append, Option, none, some, [], ◌∷◌, ◌++◌, drop, length,
  take-length-append, take_behind, drop_behind, drop-append_suc, arith, append-nil,
}
use flowdriver.Url.{scheme, host_port, split_port, target_of, parse_url}

-- `http[s]://host[:port][/path]`, the path without its slash.
pub record UrlParts : Type 0 where
  pub secure : Bool
  pub host : Text
  pub port : Option Text
  pub path : Option Text

abbrev pub scheme_text : Bool → Text
scheme_text true = codes "https://"
scheme_text false = codes "http://"

abbrev pub default_port : Bool → Text
default_port true = codes "443"
default_port false = codes "80"

abbrev pub port_text : Option Text → Text
port_text none = []
port_text (some p) = b':' ∷ p

abbrev pub path_text : Option Text → Text
path_text none = []
path_text (some p) = b'/' ∷ p

abbrev pub target_text : Option Text → Text
target_text none = codes "/"
target_text (some p) = b'/' ∷ p

pub render : UrlParts → Text
render u = scheme_text u.secure ++ ((u.host ++ port_text u.port) ++ path_text u.path)

-- The delimiters do not occur where they would be read as such.
abbrev pub PortLacksSlash : Option Text → Type 0
PortLacksSlash none = Unit
PortLacksSlash (some p) = Lacks b'/' p

pub record IsWellFormed (u : UrlParts) : Type 0 where
  pub host_no_slash : Lacks b'/' u.host
  pub host_no_colon : Lacks b':' u.host
  pub port_no_slash : PortLacksSlash u.port

authority-Lacks :
    (host : Text) (port : Option Text)
    → Lacks b'/' host
    → PortLacksSlash port
    → Lacks b'/' (host ++ port_text port)
authority-Lacks host none h k = Lacks-append b'/' host [] h tt
authority-Lacks host (some p) h k = Lacks-append b'/' host (b':' ∷ p) h ((λ e. omega arith), k)

-- The host with its port is found whatever follows it.
host_port_lem :
    (url auth : Text) (start : ℕ) (path : Option Text)
    → drop start url ≡ auth ++ path_text path
    → Lacks b'/' auth
    → (host_port url start (find_from b'/' start url) ≡ auth)
      × (target_of url (find_from b'/' start url) ≡ target_text path)
unfolding find_from host_port target_of
host_port_lem url auth start none e h =
    rw (e, append-nil auth, find-Lacks b'/' auth h) (e ∙ append-nil auth, refl)
host_port_lem url auth start (some p) e h =
    rw (e, find-append b'/' auth p h)
      (take_behind start url auth (b'/' ∷ p) e, drop_behind start url auth (b'/' ∷ p) e)

split_port_lem :
    (host : Text) (port : Option Text) (d : Text)
    → Lacks b':' host
    → split_port (host ++ port_text port) d (find b':' (host ++ port_text port))
      ≡ (host, get_or port d)
unfolding split_port
split_port_lem host none d h =
    rw (append-nil host, find-Lacks b':' host h, split_port)
      (ap (λ (t : Text). (t, d)) (append-nil host))
split_port_lem host (some p) d h =
    rw (find-append b':' host p h, split_port)
      (λ i. (take-length-append host (b':' ∷ p) i, drop-append_suc b':' host p i))

scheme_lem :
    (b : Bool) (rest : Text)
    → scheme (scheme_text b ++ rest) ≡ (length (scheme_text b), default_port b)
unfolding scheme ◌==◌
scheme_lem true rest = refl
scheme_lem false rest = refl

drop_scheme :
    (b : Bool) (rest : Text) → drop (length (scheme_text b)) (scheme_text b ++ rest) ≡ rest
drop_scheme true rest = refl
drop_scheme false rest = refl

-- For every URL of the grammar `http[s]://host[:port][/path]`, with no slash and no colon in the
-- host and no slash in the port, parse_url returns the host, the given port or else the scheme's
-- default (443 for https, 80 for http), and the path with its slash, or "/" where there is none.
pub parse_url-render :
    (u : UrlParts)
    → IsWellFormed u
    → parse_url (render u) ≡ (u.host, get_or u.port (default_port u.secure), target_text u.path)
unfolding parse_url render
parse_url-render u w =
    let auth : Text = u.host ++ port_text u.port in
    let (found, target) =
      host_port_lem (render u) auth (length (scheme_text u.secure)) u.path
        (drop_scheme u.secure (auth ++ path_text u.path))
        (authority-Lacks u.host u.port w.host_no_slash w.port_no_slash) in
    rw (
      scheme_lem u.secure (auth ++ path_text u.path),
      found,
      target,
      split_port_lem u.host u.port (default_port u.secure) w.host_no_colon,
    )
