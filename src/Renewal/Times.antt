-- ===== src/Renewal/Times.antt =====
-- `renewal_due` and `alert_due` of x509.rs. An instant counts nanoseconds from the earliest date
-- of the time crate; a `time::Duration` is a signed number of nanoseconds.
use grafhome_ca.Base.{ℕ, Bool, false, if◌then◌else◌, leb, not, true, ◌*◌, ◌+◌, ◌-◌}

-- `pos n` is n and `negsuc n` is -(n + 1).
pub data ℤ : Type 0 where
  pos negsuc : ℕ → ℤ

-- The difference of two instants.
abbrev pub since : ℕ → ℕ → ℤ
since later earlier =
    if leb earlier later then pos (later - earlier) else negsuc (earlier - later - 1)

-- A duration times a number that is not 0.
abbrev pub times : ℤ → ℕ → ℤ
times (pos n) k = pos (n * k)
times (negsuc n) k = negsuc ((n + 1) * k - 1)

abbrev pub leb_ℤ : ℤ → ℤ → Bool
leb_ℤ (pos m) (pos n) = leb m n
leb_ℤ (pos m) (negsuc n) = false
leb_ℤ (negsuc m) (pos n) = true
leb_ℤ (negsuc m) (negsuc n) = leb n m

abbrev pub ltb_ℤ : ℤ → ℤ → Bool
ltb_ℤ m n = not (leb_ℤ n m)

unfoldable pub renewal_due : ℕ → ℤ → ℕ → Bool
renewal_due not_after ttl now = leb_ℤ (times (since not_after now) 3) (times ttl 2)

unfoldable pub alert_due : ℕ → ℤ → ℕ → Bool
alert_due not_after ttl now = ltb_ℤ (times (since not_after now) 3) ttl
