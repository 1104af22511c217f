-- ===== src/Types.antt =====
-- src/include/core/types.hpp and src/include/core/error.hpp: the data that the components share.
-- An `int` status code is a number: every code that the program stores is non-negative.
use flowdriver.Base.{ℕ, Text, List, [], Option}

pub record Header : Type 0 where
  pub name : Text
  pub value : Text

pub data Protocol : Type 0 where
  rest websocket grpc zeromq : Protocol

pub data AuthType : Type 0 where
  none basic bearer api_key : AuthType

pub record AuthConfig : Type 0 where
  pub type : AuthType
  pub username : Text
  pub password : Text
  pub token : Text
  pub api_key : Text
  pub api_key_location : Text
  pub api_key_name : Text

-- The timeout is in milliseconds.
pub record RequestConfig : Type 0 where
  pub protocol : Protocol
  pub method : Text
  pub url : Text
  pub headers : List Header
  pub body : Text
  pub auth : Option AuthConfig
  pub timeout : ℕ

abbrev pub default_config : RequestConfig
default_config = record {
  protocol = Protocol.rest;
  method = [];
  url = [];
  headers = [];
  body = [];
  auth = Option.none;
  timeout = 5000;
}

-- Times are in microseconds.
pub record RequestMetrics : Type 0 where
  pub total_time : ℕ
  pub dns_time : ℕ
  pub connect_time : ℕ
  pub tls_time : ℕ
  pub first_byte_time : ℕ
  pub bytes_sent : ℕ
  pub bytes_received : ℕ

abbrev pub default_metrics : RequestMetrics
default_metrics = record {
  total_time = 0;
  dns_time = 0;
  connect_time = 0;
  tls_time = 0;
  first_byte_time = 0;
  bytes_sent = 0;
  bytes_received = 0;
}

pub record RequestResult : Type 0 where
  pub status_code : ℕ
  pub headers : List Header
  pub body : Text
  pub metrics : RequestMetrics
  pub error : Text

abbrev pub default_result : RequestResult
default_result = record {
  status_code = 0;
  headers = [];
  body = [];
  metrics = default_metrics;
  error = [];
}

pub data ErrorCode : Type 0 where
  none invalid_argument internal_error invalid_state network_error ssl_error : ErrorCode
  timeout parse_error invalid_config unknown protocol_error zmq_error : ErrorCode

-- `what` is the message of the `std::runtime_error` below.
pub record Error : Type 0 where
  pub code : ErrorCode
  pub what : Text
