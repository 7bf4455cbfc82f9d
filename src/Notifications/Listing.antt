-- ===== src/Notifications/Listing.antt =====
-- app/features/notifications/service.py: the listing.
use green_garden_api.Prelude.{ℕ, Bool, Option, List}
use green_garden_api.Database.Models.{Notification}
use green_garden_api.Database.Session.{Action, gets}
use green_garden_api.Listing.{list_page, newest_first, if_given, same_flag}

unfoldable pub notification_filters : Option Bool → Notification → Bool
notification_filters is_read n =
    if_given is_read (λ flag (m : Notification). same_flag flag m.is_read) n

unfoldable pub list_notifications : ℕ → ℕ → Option Bool → Action (List Notification × ℕ)
unfolding notification_filters
list_notifications page page_size is_read = gets (λ db.
    list_page (newest_first (λ (n : Notification). n.created_at) (λ (n : Notification). n.id))
      (notification_filters is_read) page page_size db.notifications)
