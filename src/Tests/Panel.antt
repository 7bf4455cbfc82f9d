-- ===== src/Tests/Panel.antt =====
-- The admin panel: notifications, customers and categories.
use green_garden_api.Prelude.{◌≡◌, ◌⊎◌, ℕ, length, select, [], ◌∷◌}
use green_garden_api.Core.Errors.{AppError, ok, err}
use green_garden_api.Database.Session.{World, rollback}
use green_garden_api.Orders.Create.{new_order_notification}
use green_garden_api.Orders.Histories.{session}
use green_garden_api.Notifications.{is_unread, mark_all_notifications_read}
use green_garden_api.Notifications.Laws.{mark_all_notifications_read-cases}
use green_garden_api.Prelude.{codes}
use green_garden_api.Prelude.{refl, Text, some, none, true, false}
use green_garden_api.Database.Models.{Customer}
use green_garden_api.Database.Session.Invariants.{Holds}
use green_garden_api.Customers.{create_customer, update_customer}
use green_garden_api.Customers.Laws.{
  HasUniquePhones, update_customer-HasUniquePhones, create_customer-HasUniquePhones,
}
use green_garden_api.Categories.{NewCategory, CategoryChanges, new_category, update_category}
use green_garden_api.Categories.Laws.{HasUniqueSlugs, update_category-HasUniqueSlugs}
use green_garden_api.Tests.Shop.{shop, env_at}

abbrev informed : World
informed = session (record shop {
  notifications =
      new_order_notification (env_at 10) 11 (codes "GG-20250102-0001") (codes "An") ∷ [];
})

mark_all_notifications_read-cases_example :
    ((mark_all_notifications_read (env_at 90) informed).0
        ≡ ok (length (select is_unread informed.working.notifications)))
      × (◌≡◌ {A = ℕ}
          (length (
            select is_unread
              (mark_all_notifications_read (env_at 90) informed).1.committed.notifications))
          0)
    ⊎ (mark_all_notifications_read (env_at 90) informed
        ≡ (err AppError.database_error, rollback informed))
mark_all_notifications_read-cases_example = mark_all_notifications_read-cases (env_at 90) informed

abbrev pub guest : ℕ → Text → Customer
guest id phone = record {
  id = id;
  phone = phone;
  name = codes "An";
  email = none;
  is_active = true;
  created_at = id;
}

abbrev guests : World
guests = session (record shop { customers = guest 1 (codes "01") ∷ guest 2 (codes "02") ∷ [] })

guests-Holds : Holds HasUniquePhones guests
unfolding green_garden_api.Prelude.text_eq
guests-Holds = ((refl, refl, (refl, refl, tt)), (refl, refl, (refl, refl, tt)))

update_customer-HasUniquePhones_example :
    Holds HasUniquePhones
      (update_customer (env_at 90) 2 (some (codes "01")) none none false guests).1
update_customer-HasUniquePhones_example =
    update_customer-HasUniquePhones (env_at 90) 2 (some (codes "01")) none none false guests
      guests-Holds

create_customer-HasUniquePhones_example :
    Holds HasUniquePhones (create_customer (env_at 90) (codes "03") (codes "Binh") none guests).1
create_customer-HasUniquePhones_example =
    create_customer-HasUniquePhones (env_at 90) (codes "03") (codes "Binh") none guests refl
      guests-Holds

abbrev ferns : NewCategory
ferns = record {
  name = codes "Ferns";
  name_vi = none;
  slug = codes "ferns";
  description = none;
  description_vi = none;
  image_url = none;
  sort_order = 1;
  is_active = true;
}

abbrev changes : CategoryChanges
changes = record {
  name = none;
  name_vi = none;
  slug = some (codes "palms");
  description = none;
  description_vi = none;
  image_url = some none;
  sort_order = some 2;
  is_active = none;
}

abbrev catalogue : World
catalogue = session (record shop { categories = new_category (env_at 1) ferns ∷ [] })

catalogue-Holds : Holds HasUniqueSlugs catalogue
catalogue-Holds = ((refl, refl, tt), (refl, refl, tt))

update_category-HasUniqueSlugs_example :
    Holds HasUniqueSlugs (update_category (env_at 90) 1 changes catalogue).1
update_category-HasUniqueSlugs_example =
    update_category-HasUniqueSlugs (env_at 90) 1 changes catalogue catalogue-Holds
