-- ===== src/Http.antt =====
-- pc-service/src/wol_unlock/http: what a request passes through before a handler, and how every
-- answer is signed. aiohttp is a parameter: a request is what it hands to the middlewares.
pub mod Request
pub mod Auth
pub mod Envelope
pub mod Handlers
pub mod Serve
pub mod Info
