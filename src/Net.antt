-- ===== src/Net.antt =====
-- The reactor library, directory net/.
pub mod Buffer
pub mod TcpConnection
pub mod TimerQueue
pub mod Epoll
pub mod EventLoop
pub mod EventLoopThreadPool
pub mod TcpServer
