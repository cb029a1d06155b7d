-- ===== src/Http/Values.antt =====
-- The JSON values that the handlers send and publish. A time stands for its RFC 3339 text.
use siger_api_gateway.Common.{ℕ, String, ℤ, Time}

mutual
  pub data Json : Type 0 where
    null : Json
    str : String → Json
    num : ℕ → Json
    int : ℤ → Json
    time : Time → Json
    arr : Items → Json
    obj : Fields → Json

  pub data Items : Type 0 where
    nil : Items
    cons : Json → Items → Items

  pub data Fields : Type 0 where
    end : Fields
    field : String → Json → Fields → Fields
