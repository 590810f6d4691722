-- ===== src/Tests.antt =====
-- Concrete inputs: each theorem applied where its conditions hold.
mod Data
mod Trading
mod Rules
mod Books
mod Services
mod Feeds
mod Exchange
mod Wiring
mod Tools
