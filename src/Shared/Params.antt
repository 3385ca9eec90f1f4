-- ===== src/Shared/Params.antt =====
-- Numbers in the query parameters of the coordinator's and the notifier's routes. `number` is the
-- language's `Number` on the text of a parameter, with none for NaN, on whole numbers only.
use order_saga.Prelude.{ℕ, ℤ, pos, String, Option, none, some, nat_eq, if◌then◌else◌}

-- `… || fallback`
abbrev pub or_fallback : ℕ → Option ℤ → ℤ
or_fallback fallback none = pos fallback
or_fallback fallback (some (pos n)) = if nat_eq n 0 then pos fallback else pos n
or_fallback fallback (some n) = n

-- `Number(raw ?? fallback) || fallback`
unfoldable pub read_number : (String → Option ℤ) → ℕ → Option String → ℤ
read_number number fallback none = pos fallback
read_number number fallback (some raw) = or_fallback fallback (number raw)
