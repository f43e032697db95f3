-- ===== src/Tests.antt =====
-- Runs of the components at concrete data.
mod Network
mod Boost
mod Views
mod Interests
mod Content
mod Handlers
mod Sockets
mod Crawler
mod Imports
mod Repairs
mod Ingest
