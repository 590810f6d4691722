-- ===== src/Model/Lifecycles.antt =====
-- What the transition tables of server/internal/model allow over a whole life of a signal, an order
-- or a position.
pub mod Signals
pub mod Orders
pub mod Positions
