-- ===== src/Api.antt =====
-- src/bidding/api and src/bidding/application: requests, handlers and replies, the sockets that listen, and
-- the lifespan of the application.
pub mod Sockets
pub mod Replies
pub mod Delivered
pub mod Requests
pub mod Service
pub mod Handlers
pub mod Placing
pub mod Creating
pub mod Visits
pub mod Listening
pub mod App
