-- ===== src/Delivery.antt =====
-- service/src/delivery: the ways by which an envelope may travel.
pub mod Eligibility
