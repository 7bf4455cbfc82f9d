-- ===== src/Tests/Texts.antt =====
-- Normalised texts.
use green_garden_api.Prelude.{◌≡◌, refl, codes, ◌∷◌, ◌++◌, Text}
use green_garden_api.Core.Text.{normalize_slug, normalize_vn_phone, is_phone_separator}
use green_garden_api.Core.Text.Slug.{IsSlug, normalize_slug_canonical}
use green_garden_api.Core.Text.Phone.{IsSubscriber, normalize_vn_phone_spellings}
use green_garden_api.Core.Text.Escape.{like_literal, like_literal-escape_ilike_pattern}
use green_garden_api.Core.Text.{escape_ilike_pattern}
use green_garden_api.Prelude.{some}
use green_garden_api.Tests.Shop.{ascii}

abbrev subscriber : Text
subscriber = codes "912345678"

IsSubscriber-subscriber : IsSubscriber subscriber
unfolding is_phone_separator green_garden_api.Core.Text.lstrip
IsSubscriber-subscriber = record {
  free = (refl, (refl, (refl, (refl, (refl, (refl, (refl, (refl, (refl, tt)))))))));
  begins = refl;
  nine = refl;
}

normalize_slug_canonical_example :
    IsSlug (normalize_slug ascii (codes " Snake  Plant_XL! "))
    × (normalize_slug ascii (normalize_slug ascii (codes " Snake  Plant_XL! "))
        ≡ normalize_slug ascii (codes " Snake  Plant_XL! "))
normalize_slug_canonical_example = normalize_slug_canonical ascii (codes " Snake  Plant_XL! ")

normalize_vn_phone_spellings_example :
    (normalize_vn_phone (codes "+84" ++ subscriber) ≡ b'0' ∷ subscriber)
    × (normalize_vn_phone (codes "+840" ++ subscriber) ≡ b'0' ∷ subscriber)
    × (normalize_vn_phone (codes "84" ++ subscriber) ≡ b'0' ∷ subscriber)
    × (normalize_vn_phone (b'0' ∷ subscriber) ≡ b'0' ∷ subscriber)
normalize_vn_phone_spellings_example =
    normalize_vn_phone_spellings subscriber IsSubscriber-subscriber

like_literal-escape_ilike_pattern_example :
    like_literal (escape_ilike_pattern (codes "50%_off")) ≡ some (codes "50%_off")
like_literal-escape_ilike_pattern_example = like_literal-escape_ilike_pattern (codes "50%_off")

normalize_slug_run : normalize_slug ascii (codes " Snake  Plant_XL! ") ≡ codes "snake-plant-xl"
unfolding normalize_slug green_garden_api.Core.Text.ascii_lower
normalize_slug_run = refl

normalize_vn_phone_run : normalize_vn_phone (codes "+84 (912) 345-678") ≡ codes "0912345678"
unfolding normalize_vn_phone
normalize_vn_phone_run = refl
