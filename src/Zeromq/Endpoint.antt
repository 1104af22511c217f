-- ===== src/Zeromq/Endpoint.antt =====
-- The endpoint that a binding socket binds.
use flowdriver.Base.{
  ◌+◌, ◌≡◌, refl, ap, ◌∙◌, Text, codes, find_from, find_text, find-append, find-Lacks, Lacks,
  starts_with, some, [], ◌∷◌, ◌++◌, take, drop, length, drop-add, drop-length-append, arith,
  append_assoc, suc-add, drop_behind,
}
use flowdriver.Zeromq.Configure.{wildcard, wildcard_from, bind_endpoint}

find_text_slashes :
    (s t : Text) → Lacks b'/' s → find_text (codes "//") (s ++ b'/' ∷ b'/' ∷ t) ≡ some (length s)
unfolding find_text starts_with
find_text_slashes [] t h = refl
find_text_slashes (x ∷ s) t h = ground (arith, find_text_slashes s t h.1)

drop_slashes : (s t : Text) → drop (length s + 2) (s ++ b'/' ∷ b'/' ∷ t) ≡ t
drop_slashes s t =
    drop-add (length s) 2 (s ++ b'/' ∷ b'/' ∷ t)
    ∙ ap (λ (u : Text). drop 2 u) (drop-length-append s (b'/' ∷ b'/' ∷ t))

-- The first bytes, cut after the slashes.
take_slashes : (s t : Text) → take (length s + 2) (s ++ b'/' ∷ b'/' ∷ t) ≡ s ++ codes "//"
take_slashes [] t = refl
take_slashes (x ∷ s) t =
    ap (λ k. take k (x ∷ (s ++ b'/' ∷ b'/' ∷ t))) (suc-add (length s) 2)
    ∙ ap (◌∷◌ x) (take_slashes s t)

-- A binding socket binds `prefix//host:port` at the wildcard host: `prefix//*:port`. (The prefix
-- has no slash, and the host no colon.)
pub bind_endpoint-wildcard :
    (prefix host port : Text)
    → Lacks b'/' prefix
    → Lacks b':' host
    → bind_endpoint (prefix ++ b'/' ∷ b'/' ∷ (host ++ b':' ∷ port))
      ≡ prefix ++ b'/' ∷ b'/' ∷ b'*' ∷ b':' ∷ port
unfolding bind_endpoint wildcard_from wildcard find_from
bind_endpoint-wildcard prefix host port h k =
    rw (find_text_slashes prefix (host ++ b':' ∷ port) h, wildcard_from)
      (rw (drop_slashes prefix (host ++ b':' ∷ port), find-append b':' host port k, wildcard)
        (rw
          (
            take_slashes prefix (host ++ b':' ∷ port),
            drop_behind (length prefix + 2) (prefix ++ b'/' ∷ b'/' ∷ (host ++ b':' ∷ port)) host
                (b':' ∷ port) (drop_slashes prefix (host ++ b':' ∷ port)),
          )
          (append_assoc prefix (codes "//") (b'*' ∷ b':' ∷ port))))

-- An endpoint with no colon behind the slashes is bound as it is, as an `ipc` path.
pub bind_endpoint_no_port :
    (prefix path : Text)
    → Lacks b'/' prefix
    → Lacks b':' path
    → bind_endpoint (prefix ++ b'/' ∷ b'/' ∷ path) ≡ prefix ++ b'/' ∷ b'/' ∷ path
unfolding bind_endpoint wildcard_from wildcard find_from
bind_endpoint_no_port prefix path h k =
    rw (find_text_slashes prefix path h, wildcard_from)
      (rw (drop_slashes prefix path, find-Lacks b':' path k, wildcard))
