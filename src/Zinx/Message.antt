-- ===== src/Zinx/Message.antt =====
-- myzinx/znet/message.go: a message with its length field.
use distributed_study.Common.{ℕ, ◌%◌, ◌^◌, Str, length}

pub record Message : Type 0 where
  pub id : ℕ
  pub data_len : ℕ
  pub content : Str

-- The length field is a uint32.
unfoldable pub new_msg_package : ℕ → Str → Message
new_msg_package id content = record {
  id = id;
  data_len = length content % 2 ^ 32;
  content = content;
}
