-- ===== src/GeeRpc/Codec.antt =====
-- geerpc/codec/codec.go: the header that precedes each body.
use distributed_study.Common.{ℕ, Str}

pub record Header : Type 0 where
  pub service_method : Str
  pub seq : ℕ
  pub error : Str
