-- ===== src/Engine/Stable.antt =====
-- A property of the books that a queue may shrink or go under, through the handlers that take orders
-- away. The children follow the handlers, in a section over such a property.
pub mod Shrink
pub mod Cancel
pub mod Match
