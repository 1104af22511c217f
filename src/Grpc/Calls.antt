-- ===== src/Grpc/Calls.antt =====
-- What a gRPC call that returns a result sent and got.
use flowdriver.Base.{
  ◌≡◌, List, ◌∙◌, ap, subst, nat_eq_iff, refl, ℕ, Text, [], ◌++◌, Option, some, none, arith, nat_eq,
  if◌then◌else◌, Bool-cases, inl, inr,
}
use flowdriver.Types.{RequestConfig, Header, RequestResult}
use flowdriver.Grpc.Defs.{
  Method, Service, Channel, Grpc, Handler, Reply, replied, refused, Encoded, binary, json, ok,
}
use flowdriver.Grpc.Services.{create_channel}
use flowdriver.Grpc.Execute.{
  execute, execute_method, method_path, json_request, encoded, answered, on_service,
  execute_selected, with_channel,
}

-- The channel of the handler, or a new one to its endpoint.
abbrev pub channel_of : Handler → Option Channel → Channel
channel_of h none = record { target = h.endpoint; ssl = h.use_ssl }
channel_of h (some c) = c

-- The result of a reply: 200 with the JSON of the response, or the code and the message of the
-- status.
abbrev pub IsResult : Grpc → Method → Reply → RequestResult → Type 0
IsResult g m (replied bytes) r = (r.status_code ≡ 200) × (g.decode m bytes ≡ json r.body)
IsResult g m (refused code message) r = (r.status_code ≡ code) × (r.error ≡ message) × (r.body ≡ [])

-- The call of the selected method, whose descriptors are live, with the request of the body and the
-- metadata of the authentication before those of the configuration.
pub record IsCalled (g : Grpc) (config : RequestConfig) (h : Handler) (res : RequestResult)
    : Type 0 where
  pub service : Service
  pub method : Method
  pub request : Text
  pub live_service : h.current_service ≡ some (h.pool, service)
  pub live_method : h.current_method ≡ some (h.pool, method)
  pub encodes : g.encode method (json_request config.body) ≡ binary request
  pub answered :
      IsResult g method
        (g.call
          (channel_of h h.channel)
          (method_path service method)
          (h.auth_headers ++ config.headers)
          request)
        res

-- The handler with its channel made.
abbrev pub opened : Handler → Handler
opened h = record h { channel = some (channel_of h h.channel) }

with_channel_lem :
    (h : Handler) (o : Option Channel)
    → h.channel ≡ o
    → with_channel o h ≡ record h { channel = some (channel_of h o) }
unfolding create_channel
with_channel_lem h none e = refl
with_channel_lem h (some c) e = ground arith

module _ (g : Grpc) (config : RequestConfig) (res : RequestResult) where
  answered_lem : (m : Method) (r : Reply) → answered g m r ≡ ok res → IsResult g m r res
  answered_lem m (replied bytes) q = ground arith
  answered_lem m (refused code message) q = ground arith

  encoded_lem :
      (c : Channel) (s : Service) (m : Method) (hs : List Header) (e : Encoded)
      → encoded g c s m hs e ≡ ok res
      → (request : Text) × (e ≡ binary request)
        × IsResult g m (g.call c (method_path s m) hs request) res
  encoded_lem c s m hs (binary request) q = (request, refl, answered_lem m _ q)
  encoded_lem c s m hs (Encoded.bad_json t) q = cc
  encoded_lem c s m hs Encoded.unserializable q = cc

  service_lem :
      (h : Handler) (m : Method) (o : Option (ℕ × Service))
      → h.current_service ≡ o
      → h.current_method ≡ some (h.pool, m)
      → on_service g config (opened h) (channel_of h h.channel) m o ≡ ok res
      → IsCalled g config h res
  service_lem h m none f k q = cc
  service_lem h m (some (pool, s)) f k q = elim (Bool-cases (nat_eq pool h.pool)) [
    | inl e ↦
        let (request, encodes, got) = encoded_lem _ s m _ _ (simp (e, if◌then◌else◌) at q) in
        record {
          service = s;
          method = m;
          request = request;
          live_service = f ∙ ap (λ n. some (n, s)) ((nat_eq_iff _ _).0 e);
          live_method = k;
          encodes = encodes;
          answered = got;
        }
    | inr e ↦ ground arith
  ]

  method_lem :
      (h : Handler) (pool : ℕ) (m : Method)
      → h.current_method ≡ some (pool, m)
      → (execute_method g config (opened h) (some (channel_of h h.channel)) (pool, m)) ≡ ok res
      → IsCalled g config h res
  unfolding execute_method
  method_lem h pool m f q = elim (Bool-cases (nat_eq pool h.pool)) [
    | inl e ↦
        service_lem h m _ refl (f ∙ ap (λ n. some (n, m)) ((nat_eq_iff _ _).0 e))
          (simp (e, if◌then◌else◌) at q)
    | inr e ↦ ground arith
  ]

  selected_lem :
      (h : Handler) (o : Option (ℕ × Method))
      → h.current_method ≡ o
      → (execute_selected g config h o).0 ≡ ok res
      → IsCalled g config h res × ((execute_selected g config h o).1 ≡ opened h)
  selected_lem h none f q = cc
  selected_lem h (some (pool, m)) f q =
      let made = with_channel_lem h h.channel refl in
      (
        method_lem h pool m f (
            subst (λ (k : Handler). execute_method g config k k.channel (pool, m) ≡ ok res) made q),
        made,
      )

  -- A gRPC call that returns a result was made with a live service and a live method: the request
  -- is the encoding of the body (of {} for an empty one), it went to the selected method over the
  -- channel of the handler, or a new one to its endpoint, with the metadata of the authentication
  -- before the configuration's; and the result is 200 with the JSON of the response, or the code
  -- and the message of the status. The URL of the configuration has no part in it.
  pub execute-IsCalled :
      (h : Handler)
      → (execute g config h).0 ≡ ok res
      → IsCalled g config h res × ((execute g config h).1 ≡ opened h)
  unfolding execute
  execute-IsCalled h q = selected_lem h h.current_method refl q
