-- ===== src/Orders/Number.antt =====
-- Order numbers `GG-YYYYMMDD-NNNN` and payment references.
pub mod Laws
use green_garden_api.Prelude.{
  ℕ, zero, suc, ◌+◌, ◌≡◌, Bool, true, false, not, List, [], ◌∷◌, ◌++◌, Text, codes, ◌==◌,
  if◌then◌else◌, select, map, length, mem_text, Option, none, some,
}
use green_garden_api.Prelude.Digits.{print_padded}
use green_garden_api.Core.Text.{after_prefix, remove}
use green_garden_api.Database.Models.{Order, Db}
use green_garden_api.Database.Session.{Env}

-- `GG-YYYYMMDD-`, with today's date as `strftime("%Y%m%d")` gives it.
abbrev pub number_prefix : Text → Text
number_prefix today = codes "GG-" ++ (today ++ codes "-")

-- `f"{prefix}{sequence:04d}"`
unfoldable pub order_number_at : Text → ℕ → Text
unfolding print_padded
order_number_at today sequence = number_prefix today ++ print_padded sequence

-- `LIKE 'prefix%'`, for a prefix without wildcards.
abbrev pub starts_with : Text → Text → Bool
starts_with prefix s = elim (after_prefix prefix s) [ none ↦ false | some _ ↦ true ]

-- `set(…)`: each text once.
unfoldable pub to_set : List Text → List Text
to_set [] = []
to_set (t ∷ ts) = let rest = to_set ts in if mem_text t rest then rest else t ∷ rest

abbrev pub order_numbers : Db → List Text
order_numbers db = map (λ (o : Order). o.order_number) db.orders

-- The numbers that today's orders have taken.
unfoldable pub taken_numbers : Text → Db → List Text
unfolding to_set after_prefix
taken_numbers today db = to_set (select (starts_with (number_prefix today)) (order_numbers db))

-- `while f"{prefix}{sequence:04d}" in taken: sequence += 1`, on fuel.
unfoldable pub next_sequence : Text → List Text → ℕ → ℕ → ℕ
next_sequence today taken zero sequence = sequence
next_sequence today taken (suc fuel) sequence =
    let later = next_sequence today taken fuel (sequence + 1) in
    if mem_text (order_number_at today sequence) taken then later else sequence

-- The loop starts behind the count of taken numbers; one round more than that count is enough.
unfoldable pub generate_order_number : Text → Db → Text
unfolding order_number_at taken_numbers next_sequence
generate_order_number today db =
    let taken = taken_numbers today db in
    order_number_at today (next_sequence today taken (length taken + 1) (length taken + 1))

-- `order_number.replace("-", "")`
unfoldable pub payment_reference_for : Text → Text
payment_reference_for order_number = remove (λ c. c == b'-') order_number
