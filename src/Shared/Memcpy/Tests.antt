-- ===== src/Shared/Memcpy/Tests.antt =====
-- An upward copy of 13 bytes onto a range that overlaps.
use oxidized.Common.{◌≡◌, inl, arith}
use oxidized.Shared.Memcpy.{Memory, memcpy, copied, memcpy_lem}

-- Every address holds its own number.
abbrev numbered : Memory
numbered a = a

memcpy_lem_example : memcpy numbered 100 105 13 ≡ copied numbered 100 105 13
memcpy_lem_example = memcpy_lem numbered 100 105 13 (inl (omega arith))
