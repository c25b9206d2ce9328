-- ===== src/Registry.antt =====
-- src/libevent_server.c and src/dev_opt.c: the cameras and clients that the event thread registers.
pub mod Run
pub mod World
pub mod Text
pub mod Database
pub mod Lookup
pub mod Outside
pub mod Open
pub mod Request
pub mod Push
pub mod Session
pub mod Describe
pub mod Reader
pub mod Commands
pub mod Steps
pub mod Rules
pub mod Lock
pub mod Sound
pub mod Induction
pub mod Delivery
pub mod Sending
pub mod Stuck
pub mod Finding
pub mod Waiting
pub mod Refusing
