-- ===== src/Lib.antt =====
-- The repository has three programs in Go, each with a part that this library models:
--
-- - geecache, a distributed cache. A node keeps its entries in a least-recently-used cache
--   (geecache/lru) behind a group (geecache/geecatche.go), which loads what is missing from a
--   peer or from its getter, once at a time for a key (geecache/singleflight), and picks the
--   peer of a key on a ring of hashes (geecache/consistenthash).
--
-- - geerpc, remote procedure calls. A server (geerpc/server.go) keeps services
--   (geerpc/service.go) and answers the messages of a connection; a client (geerpc/client.go)
--   numbers its calls and matches the responses to them; servers announce themselves to a
--   registry (geerpc/registry), from which clients choose (geerpc/xclient).
--
-- - myzinx, a TCP server whose connections read messages, packed with their length and number,
--   and hand them to a pool of workers (myzinx/znet).
--
-- Which file models what:
--
-- - Common: shared helpers. Str is a list of bytes; Dict is a Go map as a list of pairs with
--   lookup, insert and erase; add64, sub64 and slt64 are Go's int64 on their unsigned values;
--   split, join, trim_space and sort_strings are the functions of strings and sort.
-- - GeeCache.Lru: geecache/lru/lru.go. The list's elements have identities, and the map leads
--   to them. New, Get, RemoveOldest and Add are new, get, remove_oldest and add; the loop of
--   Add is evict, on fuel.
-- - GeeCache.ConsistentHash: geecache/consistenthash/consistenthash.go. New, Add and Get are
--   new, add and get; the hash is a field, as in the source.
-- - GeeCache.Cache: geecache/cache.go and byteview.go. add and get over GeeCache.Lru.
-- - GeeCache.Group: geecache/geecatche.go. Get, load, getFromPeer and getLocally are get, load,
--   get_from_peer and get_locally; NewGroup and GetGroup work on a Dict of groups.
-- - GeeCache.SingleFlight: geecache/singleflight/singleflight.go. Do is the steps enter,
--   finish, delete and wake of goroutines in any order.
-- - GeeCache.HttpPool: geecache/http.go. Set and PickPeer are set and pick_peer, over the ring
--   of GeeCache.ConsistentHash.
-- - GeeCache.Requests: geecache/http.go. ServeHTTP is serve_http, and the Get of httpGetter is
--   get, with what the network makes of a URL as an argument.
-- - GeeCache.Main: geecache/main/main.go. createGroup is create_group over search_db, the
--   handler of startAPIServer is serve_api, and main is start_node, up to listening.
-- - GeeCache.Cluster: geecache/main/main.go. startCacheServer is start_cache_server; a node of
--   a cluster is a group with the pool of its peers.
-- - GeeRpc.Codec: geerpc/codec/codec.go. The header of a message.
-- - GeeRpc.Client: geerpc/client.go. One action for each critical section of registerCall,
--   send, receive, terminateCalls and Close, and step runs one; a history is a list of actions
--   in any order. wait_call is what Call does with the signals.
-- - GeeRpc.Service: geerpc/service.go. registerMethods is register_methods, over the records
--   that stand for what reflect tells; GeeRpc.Service.Values has newArgv, newReplyv and the
--   call by reflection, by the types of their values.
-- - GeeRpc.Server: geerpc/server.go. findService, readRequest, serveCodec and ServeConn are
--   find_service, read_request, serve_codec and serve_conn, over the values on a connection;
--   the loop has fuel for each value. GeeRpc.Server.Handling has handleRequest as steps of its
--   two goroutines and its timer.
-- - GeeRpc.Link: geerpc/client.go and server.go. A client and a server with the values and
--   responses on their way; serve_codec's rounds are reads, handleRequest's goroutines works, a
--   write of a response that fails is cuts, a panic of a method panics, and a run is a list of
--   actions in any order.
-- - GeeRpc.Debug: geerpc/debug.go. ServeHTTP is serve_http, over debug_services.
-- - GeeRpc.Options: geerpc/client.go. parseOption is parse_option.
-- - GeeRpc.Dial: geerpc/client.go. NewClient, dialTimeout and Dial are new_client, dial_timeout
--   and dial.
-- - GeeRpc.Gob: geerpc/codec/god.go. Write is write.
-- - GeeRpc.Listening: geerpc/server.go. Accept and ServeHTTP are accept and serve_http.
-- - GeeRpc.Heartbeat: geerpc/registry/registry.go. Heartbeat and sendHeartbeat are heartbeat
--   and send_heartbeat, over GeeRpc.Registry.
-- - GeeRpc.Registry: geerpc/registry/registry.go. putServer, aliveServers and ServeHTTP are
--   put_server, alive_servers and serve_http, with the time as an argument.
-- - GeeRpc.Discovery: geerpc/xclient/discovery.go and discovery_gee.go. Get and GetAll are get
--   and get_all; Refresh is refresh, with the registry's answer as an argument.
-- - GeeRpc.XClient: geerpc/xclient/xclient.go. dial and Close are dial and close_all over the
--   clients of GeeRpc.Client, route is Call up to the client that it goes to, Broadcast is
--   broadcast over any discovery, and gather is what its goroutines do with the outcomes of
--   their calls.
-- - Zinx.MsgHandler: myzinx/znet/msghandler.go and request.go. AddRouter and DoMsgHandle are
--   add_router and do_msg_handle; SendMsgToTaskQueue is begin_send, make_queue and end_send,
--   between which other readers come, and a round of StartOneWorker is take_one.
-- - Zinx.Connection: myzinx/znet/connection.go. StartReader, startWriter, Start, Stop and
--   SendMsg are steps over the two channels.
-- - Zinx.Server: myzinx/znet/server.go and myzinx/utils/globalobj.go. NewServer and the accept
--   loop of Start are new_server and accept_from; Reload is reload.
-- - Zinx.Demo: myzinx/main/Server/Server.go and myzinx/main/Client/Client.go. The routers are
--   demo_replies, the two main functions demo_server and client_loop; exchange takes a request
--   through the reader, the pool, the router and the writer, in the order in which nothing else
--   runs.
-- - Zinx.Message and Zinx.DataPack: myzinx/znet/message.go and datapack.go. Pack and Unpack are
--   pack and unpack; a connection is the list of the reads that it will give.
--
-- Fuel and bounds: Add's loop takes fuel, and one round for each entry and one more are enough
-- where the limit is not negative; with a negative limit no fuel is. itoa takes one round for
-- each digit, and sort.Search one for each halving, below the length of what it searches, and
-- serveCodec one for each value on the connection. The bytes of a cache are an int64 and wrap
-- around; the numbers of calls are a uint64 and wrap around; a message's number and length are
-- uint32.
--
-- Not modelled: logging, the sockets, JSON, gob and protobuf, which the messages and options
-- come decoded from; reflection beyond the records named above; the main programs of geerpc,
-- and the text of the debug page. Registering handlers with net/http, and the base router and
-- the Stop of myzinx, which do nothing, have no model either.
pub mod Common
pub mod GeeCache
pub mod GeeRpc
pub mod Zinx
