-- ===== src/Common/Results.antt =====
-- Results of fallible code, over the errors of a component.

pub data Result (E : Type 0) (A : Type 0) : Type 0 where
  ok : A → Result E A
  err : E → Result E A
