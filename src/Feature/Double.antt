-- ===== src/Feature/Double.antt =====
-- Numbers of type double: what the samplers use of them. No law is assumed, since a difference of
-- doubles is rounded.
pub record Double : Type 1 where
  pub Value : Type 0
  pub zero : Value
  pub minus : Value → Value → Value
