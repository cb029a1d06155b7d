-- ===== src/Discovery/Instance.antt =====
-- `ServiceInstance` of internal/discovery/consul.go.
use siger_api_gateway.Common.{String, Bool, Map, ℤ}

pub record ServiceInstance : Type 0 where
  pub id : String
  pub service_name : String
  pub address : String
  pub port : ℤ
  pub healthy : Bool
  pub metadata : Map String
