-- ===== src/Relay.antt =====
-- src/dev_opt.c: read_video_data_from_dev_task, which reads a camera's stream and sends its frames to
-- the clients. `Lists` is what it uses of SimCList and of libevent's buffers, `Packets` chooses the
-- packets, `Client` serves one client, `Dispatch` goes over the list of clients, and `Task` is the
-- loop over the packets.
pub mod Lists
pub mod Packets
pub mod Client
pub mod Dispatch
pub mod Task
pub mod Order
pub mod Queue
pub mod Bounds
pub mod Restart
pub mod Members
pub mod Served
pub mod Sent
