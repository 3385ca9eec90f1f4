-- ===== src/Services.antt =====
-- The four worker services (services/order, inventory, payment, shipping): their tables and the
-- handlers of their two steps. `fault` is the error of a statement that fails.
pub mod Order
pub mod Payment
pub mod Shipping
pub mod Inventory
