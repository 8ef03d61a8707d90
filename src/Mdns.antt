-- ===== src/Mdns.antt =====
-- Finding a server on the local network: `CMDns` of gui-app/src/Utils/mDNS/mDns.{hpp,cpp} and
-- `CMDnsAutoFinder` of gui-app/src/Utils/mDNS/mDnsAutoFind.cpp. The mdns library, which parses the
-- packets, is a parameter: a callback gets the records that it parsed.
pub mod Sockets
pub mod Query
pub mod Results
pub mod Replies
pub mod Heard
pub mod AutoFind
pub mod Worker
pub mod Address
mod Runs
