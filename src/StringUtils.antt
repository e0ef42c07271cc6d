-- ===== src/StringUtils.antt =====
-- common/utils/StringUtils.cpp: `Trim`.
pub mod Wrap
pub mod WrapSound
mod Tests
use ua_5308_smtp.Prelude.{
  ◌+◌, ◌-◌, not, some, none, [], Bytes, is_blank, find_index?, find_last_index?, substr,
}

-- `Trim`
unfoldable pub trim : Bytes → Bytes
trim str = elim (find_index? (λ c. not (is_blank c)) str) [
  | none ↦ []
  | some start ↦ elim (find_last_index? (λ c. not (is_blank c)) str) [
    | none ↦ []
    | some end_pos ↦ substr str start (end_pos - start + 1)
  ]
]
