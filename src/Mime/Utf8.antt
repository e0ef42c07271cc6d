-- ===== src/Mime/Utf8.antt =====
-- common/utils/StringUtils.cpp: where `FindUtf8SafeEnd` cuts a text of UTF-8.
use ua_5308_smtp.Prelude.{
  dec_lt, ◌-◌, ℕ, zero, suc, ◌+◌, ◌≤◌, ◌<◌, ◌≡◌, refl, Bool, false, ◌&&◌, [], ◌∷◌, Bytes, length,
  get_or, drop, min, arith,
}
use ua_5308_smtp.StringUtils.Wrap.{is_continuation, safe_end_loop, find_utf8_safe_end}

abbrev pub starts_run : Bytes → Bool
starts_run (a ∷ b ∷ c ∷ d ∷ s) =
    is_continuation a && is_continuation b && is_continuation c && is_continuation d
starts_run _ = false

-- No four continuation bytes stand in a row, as in every text of UTF-8.
abbrev pub HasNoRun : Bytes → Type 0
HasNoRun [] = Unit {0}
HasNoRun (c ∷ s) = (starts_run (c ∷ s) ≡ false) × HasNoRun s

pub HasNoRun-drop : (n : ℕ) (s : Bytes) → HasNoRun s → HasNoRun (drop n s)
HasNoRun-drop zero s h = h
HasNoRun-drop (suc n) [] h = h
HasNoRun-drop (suc n) (c ∷ s) h = HasNoRun-drop n s h.1

abbrev is_run : Bytes → ℕ → Bool
is_run s i =
    is_continuation (get_or s (suc i) 0)
    && is_continuation (get_or s (suc (suc i)) 0)
    && is_continuation (get_or s (suc (suc (suc i))) 0)
    && is_continuation (get_or s (suc (suc (suc (suc i)))) 0)

run_at : (s : Bytes) (i : ℕ) → HasNoRun s → is_run s i ≡ false
run_at [] i h = refl
run_at (a ∷ []) i h = refl
run_at (a ∷ b ∷ s) (suc i) h = run_at (b ∷ s) i h.1
run_at (a ∷ b ∷ []) zero h = ground arith
run_at (a ∷ b ∷ c ∷ []) zero h = ground arith
run_at (a ∷ b ∷ c ∷ d ∷ []) zero h = ground arith
run_at (a ∷ b ∷ c ∷ d ∷ e ∷ s) zero h = h.1.0

safe_end_loop-le : (s : Bytes) (start n : ℕ) → safe_end_loop s start n ≤ n
unfolding safe_end_loop
safe_end_loop-le s start zero = omega arith
safe_end_loop-le s start (suc n) = ground (arith, safe_end_loop-le s start n)

safe_end_loop_pos :
    (s : Bytes) (n : ℕ) → HasNoRun s → 0 < safe_end_loop s 0 (suc (suc (suc (suc n))))
unfolding safe_end_loop
safe_end_loop_pos s n h = ground (arith, run_at s n h)

safe_end_loop-whole : (s : Bytes) (n : ℕ) → length s ≤ n → safe_end_loop s 0 n ≡ n
unfolding safe_end_loop
safe_end_loop-whole s zero h = refl
safe_end_loop-whole s (suc n) h = ground arith

-- A part of a text that is not empty has a byte or more, and at most as many as asked for.
pub find_utf8_safe_end_bounds :
    (s : Bytes) (max_bytes : ℕ)
    → HasNoRun s
    → 0 < length s
    → 4 ≤ max_bytes
    → (0 < find_utf8_safe_end s 0 max_bytes) × (find_utf8_safe_end s 0 max_bytes ≤ max_bytes)
unfolding find_utf8_safe_end
find_utf8_safe_end_bounds s max_bytes h pos large = elim (dec_lt max_bytes (length s)) [
  | yes shorter ↦
      let whole : min (0 + max_bytes) (length s) ≡ suc (suc (suc (suc (max_bytes - 4)))) =
        omega arith in
      rw whole (
        safe_end_loop_pos s (max_bytes - 4) h,
        omega (arith, safe_end_loop-le s 0 (suc (suc (suc (suc (max_bytes - 4)))))),
      )
  | no longer ↦
      let whole : min (0 + max_bytes) (length s) ≡ length s = omega arith in
      rw (whole, safe_end_loop-whole s (length s) (omega arith)) (pos, omega arith)
]
