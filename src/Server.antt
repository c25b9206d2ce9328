-- ===== src/Server.antt =====
-- src/libevent_server.c: the commands of clients. `Json` is what it uses of cJSON, `Frames` takes a
-- command out of the received bytes, `Command` is deal_client_cmd, and `Device` has the addresses
-- of a camera, as src/dev_opt.c uses them too. `Sdp` and `Digest` are src/dev_opt.c's reading of a
-- description and of a challenge, the latter with src/common/md5gen.c.
pub mod Frames
pub mod Framing
pub mod Json
pub mod Command
pub mod Device
pub mod Addresses
pub mod Replies
pub mod Sdp
pub mod Digest
pub mod Returned
pub mod Descriptions
pub mod Responses
