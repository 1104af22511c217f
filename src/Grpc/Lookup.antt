-- ===== src/Grpc/Lookup.antt =====
-- Which services of a loaded file can be chosen by the names that the file lists.
use flowdriver.Base.{
  ℕ, zero, suc, ◌≡◌, refl, ap, ◌∙◌, Text, codes, ◌==◌, eq_iff, eq_refl, List, [], ◌∷◌, ◌++◌, Option,
  none, some, find-append, Lacks, All, drop-append_suc, if◌then◌else◌, arith, append_assoc,
  get_elem?, All-get_elem?, Bool-cases, Option-cases, Lacks-find, drop-find, Lacks-take-find, find,
  take, append-take-drop, sym, ◌⊎◌, inl, inr, subst,
}
use flowdriver.Types.{ErrorCode}
use flowdriver.Grpc.Defs.{Service, ProtoFile, Handler}
use flowdriver.Grpc.Services.{resolve, set_service}

-- The first service of a simple name.
unfoldable pub named : Text → List Service → Option Service
named n [] = none
named n (s ∷ ss) = if s.name == n then some s else named n ss

-- What Protocol Buffers documents of a file's descriptor: FindServiceByName looks the services up by
-- their simple names, which have no dot; a full name is the package and the simple name, joined by
-- a dot (the file declares a package).
pub record IsProto (f : ProtoFile) : Type 0 where
  pub finds : (n : Text) → f.find_service n ≡ named n f.services
  pub simple : All (λ s. Lacks b'.' s.name) f.services
  pub full : All (λ s. s.full_name ≡ f.package_name ++ b'.' ∷ s.name) f.services

not-Lacks : (c : ℕ) (p n : Text) → ¬ Lacks c (p ++ c ∷ n)
not-Lacks c [] n l = l.0 refl
not-Lacks c (x ∷ p) n l = not-Lacks c p n l.1

-- A name with a dot is no simple name.
named_dotted :
    (p n : Text) (ss : List Service)
    → All (λ s. Lacks b'.' s.name) ss
    → named (p ++ b'.' ∷ n) ss ≡ none
unfolding named
named_dotted p n [] a = refl
named_dotted p n (s ∷ ss) a = elim (Bool-cases (s.name == p ++ b'.' ∷ n)) [
  | inl e ↦ absurd (not-Lacks b'.' p n (subst (Lacks b'.') ((eq_iff _ _).0 e) a.0))
  | inr e ↦ rw e (named_dotted p n ss a.1)
]

named_listed :
    (ss : List Service) (i : ℕ) (s : Service)
    → get_elem? ss i ≡ some s
    → (t : Service) × (named s.name ss ≡ some t) × (t.name ≡ s.name)
unfolding named
named_listed [] i s e = cc
named_listed (x ∷ ss) zero s e = (x, ground (arith, eq_refl s.name), ground arith)
named_listed (x ∷ ss) (suc i) s e = elim (Bool-cases (x.name == s.name)) [
  | inl h ↦ (x, rw h, (eq_iff _ _).0 h)
  | inr h ↦ let (t, f, g) = named_listed ss i s e in (t, rw h f, g)
]

-- A name with a package in front of it: the second try cuts off its first segment.
pub resolve_dotted :
    (f : ProtoFile) (p n : Text)
    → IsProto f
    → Lacks b'.' p
    → resolve f (p ++ b'.' ∷ n) ≡ named n f.services
unfolding resolve
resolve_dotted f p n i h =
    rw (i.finds (p ++ b'.' ∷ n), named_dotted p n f.services i.simple, find-append b'.' p n h)
      (i.finds _ ∙ ap (λ (t : Text). named t f.services) (drop-append_suc b'.' p n))

-- Where the package has one segment, every service that the file lists can be chosen by its full
-- name: setService selects a service of the same simple name, and the descriptor is live.
set_service_listed :
    (f : ProtoFile) (h : Handler) (i : ℕ) (s : Service)
    → IsProto f
    → h.current_file ≡ some f
    → Lacks b'.' f.package_name
    → get_elem? f.services i ≡ some s
    → (t : Service) × (set_service s.full_name h
        ≡ (none, record h { current_service = some (h.pool, t) }))
      × (t.name ≡ s.name)
unfolding set_service
set_service_listed f h i s w e l m =
    let (t, found, same) = named_listed f.services i s m in
    let full = All-get_elem? _ f.services i s w.full m in
    (
      t,
      ground (arith, ap (resolve f) full ∙ (resolve_dotted f f.package_name s.name w l ∙ found)),
      same,
    )

-- Where the package has several segments, setService refuses the full name of every service that
-- the file lists: the second try cuts off only the first segment.
set_service_nested_package :
    (f : ProtoFile) (h : Handler) (i : ℕ) (s : Service) (p q : Text)
    → IsProto f
    → h.current_file ≡ some f
    → Lacks b'.' p
    → f.package_name ≡ p ++ b'.' ∷ q
    → get_elem? f.services i ≡ some s
    → (set_service s.full_name h).0
      ≡ some (record {
        code = ErrorCode.invalid_argument;
        what = codes "Service not found: " ++ s.full_name;
      })
unfolding set_service
set_service_nested_package f h i s p q w e l d m =
    let full = All-get_elem? _ f.services i s w.full m in
    let nested : s.full_name ≡ p ++ b'.' ∷ (q ++ b'.' ∷ s.name) =
      full
      ∙ (ap (λ (t : Text). t ++ b'.' ∷ s.name) d ∙ append_assoc p (b'.' ∷ q) (b'.' ∷ s.name)) in
    ground (
      arith,
      ap (resolve f) nested
          ∙ (resolve_dotted f p (q ++ b'.' ∷ s.name) w l
              ∙ named_dotted q s.name f.services w.simple),
    )

-- A service that a file lists, whose descriptor is as Protocol Buffers documents it, by its full
-- name. Either the package has one segment: then
-- setService selects a service of the same simple name, and the descriptor is live; or it has
-- several: then setService refuses the name, since the second try cuts off only the first segment.
pub set_service_listed_cases :
    (f : ProtoFile) (h : Handler) (i : ℕ) (s : Service)
    → IsProto f
    → h.current_file ≡ some f
    → get_elem? f.services i ≡ some s
    → (Lacks b'.' f.package_name
        × (t : Service) × (set_service s.full_name h
            ≡ (none, record h { current_service = some (h.pool, t) }))
        × (t.name ≡ s.name))
      ⊎ ((¬ Lacks b'.' f.package_name)
          × ((set_service s.full_name h).0
              ≡ some (record {
                code = ErrorCode.invalid_argument;
                what = codes "Service not found: " ++ s.full_name;
              })))
set_service_listed_cases f h i s w e m = elim (Option-cases (find b'.' f.package_name)) [
  | inl n ↦
      let l = Lacks-find b'.' f.package_name n in
      let (t, chosen, same) = set_service_listed f h i s w e l m in inl (l, t, chosen, same)
  | inr (k, n) ↦
      let (q, tail) = drop-find b'.' k f.package_name n in
      let whole : f.package_name ≡ take k f.package_name ++ b'.' ∷ q =
        sym (append-take-drop k f.package_name) ∙ ap (λ t. take k f.package_name ++ t) tail in
      inr (
        λ l. not-Lacks b'.' (take k f.package_name) q (subst (Lacks b'.') whole l),
        set_service_nested_package f h i s (take k f.package_name) q w e
            (Lacks-take-find b'.' k f.package_name n) whole m,
      )
]
