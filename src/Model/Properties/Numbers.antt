-- ===== src/Model/Properties/Numbers.antt =====
-- Numbers that the report carries and the modelled code never computes with.
use qurbrix_hwinfo.Common.{ℕ}

-- An `f32`, as its bit pattern.
abbrev pub F32 : Type 0
F32 = ℕ

-- An `i32`, as its bit pattern.
abbrev pub I32 : Type 0
I32 = ℕ
