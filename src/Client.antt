-- ===== src/Client.antt =====
-- The client process (winSockClient/, with winSockServer/src/TcpClient.cpp).
pub mod Tcp
pub mod Dialog
pub mod Resource
pub mod Setup
pub mod Connection
pub mod Receiving
pub mod Disconnect
pub mod Startup
pub mod System
pub mod Calls
mod Tests
