-- ===== src/Node.antt =====
-- internal/node: proxy nodes and the dynamic values that they are made of.
pub mod Value
pub mod Sprint
pub mod Types
pub mod Key
pub mod Names
pub mod Build
