-- ===== src/Zinx/Server.antt =====
-- myzinx/znet/server.go and utils/globalobj.go: the settings, and the server that accepts
-- connections.
--
-- The configuration file is what reading it gives, and `json.Unmarshal` is an argument, which
-- overwrites the settings that the file names. `none` of a result is a panic.
pub mod Numbers
mod Tests
use distributed_study.Common.{
  ℕ, ◌+◌, ◌%◌, ◌^◌, Str, bytes, Option, none, some, ◌>>=◌, List, [], ◌∷◌, Bool, true, false,
}
use distributed_study.Zinx.Connection.{Connection, new_connection}
use distributed_study.Zinx.MsgHandler.{MsgHandle, new_msg_handle, add_router, start_worker_pool}

pub record GlobalObj : Type 0 where
  pub host : Str
  pub tcp_port : ℕ
  pub name : Str
  pub version : Str
  pub max_packer_size : ℕ
  pub max_conn : ℕ
  pub worker_pool_size : ℕ
  pub max_worker_task_len : ℕ
  pub conf_file_path : Str

abbrev pub default_object : GlobalObj
default_object = record {
  name = bytes "ZinxServerApp";
  version = bytes "tcp4";
  tcp_port = 7777;
  host = bytes "0.0.0.0";
  max_conn = 12000;
  max_packer_size = 4096;
  conf_file_path = bytes "conf/zinx.json";
  worker_pool_size = 10;
  max_worker_task_len = 1024;
}

-- A file that cannot be read, or not be parsed, panics.
unfoldable pub reload :
    Option Str → (Str → GlobalObj → Option GlobalObj) → GlobalObj → Option GlobalObj
reload file unmarshal g = do text ← file; unmarshal text g

-- `init` of the package.
unfoldable pub init : Option Str → (Str → GlobalObj → Option GlobalObj) → Option GlobalObj
init file unmarshal = reload file unmarshal default_object

pub record Server : Type 0 where
  pub name : Str
  pub ip_version : Str
  pub ip : Str
  pub port : ℕ
  pub msg_handler : MsgHandle

-- `NewServer` reads the settings anew, and takes the name from them.
unfoldable pub new_server :
    Str
    → Option Str
    → (Str → GlobalObj → Option GlobalObj)
    → GlobalObj
    → Option (Server × GlobalObj)
new_server name file unmarshal g = do
  g' ← reload file unmarshal g
  some (
    record {
      name = g'.name;
      ip_version = g'.version;
      ip = g'.host;
      port = g'.tcp_port;
      msg_handler = new_msg_handle g'.worker_pool_size g'.max_worker_task_len;
    },
    g',
  )

-- `AddRouter` of the server.
unfoldable pub server_add_router : ℕ → ℕ → Server → Option Server
server_add_router msg_id router s = do
  mh ← add_router msg_id router s.msg_handler
  some (record s { msg_handler = mh })

-- The accept loop from the number `cid` on: an accept that fails is passed over.
unfoldable pub accept_from : ℕ → List Bool → List Connection
accept_from cid [] = []
accept_from cid (false ∷ rest) = accept_from cid rest
accept_from cid (true ∷ rest) = new_connection cid ∷ accept_from ((cid + 1) % 2 ^ 32) rest

-- `Start`, where the address can be listened on: the pool is opened, and the connections come.
unfoldable pub start : List Bool → Server → Server × List Connection
start accepts s =
    (record s { msg_handler = start_worker_pool s.msg_handler }, accept_from 0 accepts)
