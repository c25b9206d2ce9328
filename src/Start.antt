-- ===== src/Start.antt =====
-- src/main.c and what it calls: `Serial` is the box's serial number (src/dev_opt.c), of which `Digits`
-- and `Number` prove, `Listen` the listening socket (src/libevent_server.c), and `Main` the start.
pub mod Serial
pub mod Digits
pub mod Number
pub mod Listen
pub mod Main
