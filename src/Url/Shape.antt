-- ===== src/Url/Shape.antt =====
-- What holds of parse_url's answer on every text, well formed or not.
use flowdriver.Base.{
  ℕ, ◌+◌, ◌≡◌, ◌∙◌, Text, find, find_from, Lacks, Lacks-find, Lacks-take-find, Lacks-take,
  Lacks-drop, drop-find, drop-add, add_sub_left, [], ◌∷◌, drop, Option-cases, arith, inl, inr,
}
use flowdriver.Url.{scheme, host_port, split_port, target_of, parse_url}

pub record HasShape (host port target : Text) : Type 0 where
  pub host_no_slash : Lacks b'/' host
  pub host_no_colon : Lacks b':' host
  pub port_no_slash : Lacks b'/' port
  pub rooted : (t : Text) × (target ≡ b'/' ∷ t)

host_port-Lacks :
    (url : Text) (start : ℕ) → Lacks b'/' (host_port url start (find_from b'/' start url))
unfolding find_from host_port
host_port-Lacks url start = elim (Option-cases (find b'/' (drop start url))) [
  | inl e ↦ rw (e, find_from, host_port) (Lacks-find b'/' _ e)
  | inr (p, e) ↦ rw (e, find_from, host_port, add_sub_left start p) (Lacks-take-find b'/' p _ e)
]

target_of_rooted :
    (url : Text) (start : ℕ) → (t : Text) × (target_of url (find_from b'/' start url) ≡ b'/' ∷ t)
unfolding find_from target_of
target_of_rooted url start = elim (Option-cases (find b'/' (drop start url))) [
  | inl e ↦ ([], rw (e, find_from, target_of))
  | inr (p, e) ↦
      let (t, f) = drop-find b'/' p _ e in
      (t, rw (e, find_from, target_of) (drop-add start p url ∙ f))
]

split_port-Lacks :
    (text d : Text)
    → Lacks b'/' text
    → Lacks b'/' d
    → Lacks b'/' (split_port text d (find b':' text)).0
      × Lacks b':' (split_port text d (find b':' text)).0
      × Lacks b'/' (split_port text d (find b':' text)).1
unfolding split_port
split_port-Lacks text d h k = elim (Option-cases (find b':' text)) [
  | inl e ↦ rw (e, split_port) (h, Lacks-find b':' text e, k)
  | inr (p, e) ↦
      rw (e, split_port)
        (Lacks-take b'/' p text h, Lacks-take-find b':' p text e, Lacks-drop b'/' (p + 1) text h)
]

scheme_port : (url : Text) → Lacks b'/' (scheme url).1
unfolding scheme
scheme_port url = ground arith

-- On every text, the host that parse_url answers has no slash and no colon, the port has no slash,
-- and the target begins with a slash.
pub parse_url-HasShape :
    (url : Text) → HasShape (parse_url url).0 (parse_url url).1 (parse_url url).2
unfolding parse_url
parse_url-HasShape url =
    let (start, d) = scheme url in
    let (host_slash, colon, port_slash) =
      split_port-Lacks (host_port url start (find_from b'/' start url)) d
        (host_port-Lacks url start) (scheme_port url) in
    record {
      host_no_slash = host_slash;
      host_no_colon = colon;
      port_no_slash = port_slash;
      rooted = target_of_rooted url start;
    }
