-- ===== src/Edge.antt =====
-- crates/canopee-edge/src: the public front door, which maps the subdomain of an app to the peer
-- that publishes it.
pub mod Registration
pub mod Registry
pub mod Httpd
