-- ===== src/Base/Decimal.antt =====
-- The printing of a usize or a u16 in decimal.
use Prim.Native.Nat.{ℕ, zero, suc, ◌+◌, ◌/◌, ◌%◌}
use mathlib.Core.List.{[], ◌∷◌}
use object_storage_proxy.Base.Tests.{◌==◌, if◌then◌else◌}
use object_storage_proxy.Base.Text.{Bytes}

print_decimal : ℕ → ℕ → Bytes → Bytes
print_decimal zero n out = out
print_decimal (suc rounds) n out =
    let more = print_decimal rounds (n / 10) ((b'0' + n % 10) ∷ out) in
    if n / 10 == 0 then (b'0' + n) ∷ out else more

-- n.to_string(); twenty digits are enough for 64 bits
unfoldable pub to_text : ℕ → Bytes
unfolding print_decimal
to_text n = print_decimal 20 n []
