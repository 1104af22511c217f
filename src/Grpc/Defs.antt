-- ===== src/Grpc/Defs.antt =====
-- The state of a GrpcHandler, and the code's view of Protocol Buffers and gRPC.
use flowdriver.Base.{ℕ, Text, codes, List, [], Option, none, Bool, false}
use flowdriver.Types.{Header, Error}

-- google::protobuf::MethodDescriptor and ServiceDescriptor; `find_method` is FindMethodByName.
pub record Method : Type 0 where
  pub name : Text

pub record Service : Type 0 where
  pub full_name : Text
  pub name : Text
  pub methods : List Method
  pub find_method : Text → Option Method

-- google::protobuf::FileDescriptor; `find_service` is FindServiceByName.
pub record ProtoFile : Type 0 where
  pub package_name : Text
  pub services : List Service
  pub find_service : Text → Option Service

-- JsonStringToMessage and SerializeToString.
pub data Encoded : Type 0 where
  binary : Text → Encoded
  bad_json : Text → Encoded
  unserializable : Encoded

-- ParseFromString and MessageToJsonString.
pub data Decoded : Type 0 where
  json : Text → Decoded
  unparsable unprintable : Decoded

-- The grpc::Status of a call, with the bytes of the response or the code and the message.
pub data Reply : Type 0 where
  replied : Text → Reply
  refused : ℕ → Text → Reply

-- grpc::CreateCustomChannel: the endpoint, and whether the credentials are those of SSL.
pub record Channel : Type 0 where
  pub target : Text
  pub ssl : Bool

-- The libraries and the network: the importer of .proto files, by path, the conversions of the
-- messages of a method, and the unary call of a method name with metadata and a request.
pub record Grpc : Type 0 where
  pub import : Text → Option ProtoFile
  pub encode : Method → Text → Encoded
  pub decode : Method → Text → Decoded
  pub call : Channel → Text → List Header → Text → Reply

-- The importer owns the descriptors: `pool` counts the importers made so far, and a descriptor that
-- is kept stands with the importer that it came from. It dangles if that is not the present one.
pub record Handler : Type 0 where
  pub pool : ℕ
  pub current_file : Option ProtoFile
  pub current_service : Option (ℕ × Service)
  pub current_method : Option (ℕ × Method)
  pub endpoint : Text
  pub use_ssl : Bool
  pub channel : Option Channel
  pub auth_headers : List Header

-- The constructor.
abbrev pub init : Handler
init = record {
  pool = 0;
  current_file = none;
  current_service = none;
  current_method = none;
  endpoint = codes "localhost:50051";
  use_ssl = false;
  channel = none;
  auth_headers = [];
}

-- `crash` is the use of a null or a dangling descriptor.
pub data Outcome {ℓ} (A : Type ℓ) : Type ℓ where
  ok : A → Outcome A
  throws : Error → Outcome A
  crash : Outcome A
