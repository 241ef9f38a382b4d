-- ===== src/Golang/Grpc.antt =====
-- The gRPC status codes that the services return, and an error with one.
use proto_ip.Golang.Text.{Text}

pub data Code : Type 0 where
  invalid_argument unavailable : Code

pub record Status : Type 0 where
  pub code : Code
  pub message : Text
