-- ===== src/Notifications.antt =====
-- app/features/notifications/service.py: reading and marking; the row that a checkout queues stands
-- in Orders/Create.
pub mod Laws
pub mod Listing
use green_garden_api.Prelude.{
  ℕ, ◌≡◌, Bool, true, false, not, Option, none, some, List, [], ◌∷◌, ◌==◌, find?, select, length,
  update_where,
}
use green_garden_api.Core.Errors.{AppError, Result, ok, err, or_raise}
use green_garden_api.Database.Models.{Notification, Db}
use green_garden_api.Database.Session.{
  World, Env, Action, pure, gets, lift, modify, atomically, commit, ◌>>=◌, ◌>>◌,
}

abbrev pub has_notification_id : ℕ → Notification → Bool
has_notification_id id n = n.id == id

abbrev pub is_unread : Notification → Bool
is_unread n = not n.is_read

abbrev pub as_read : Notification → Notification
as_read n = record n { is_read = true }

-- `UPDATE notifications SET is_read = true WHERE …`
abbrev pub read_where : (Notification → Bool) → Db → Db
read_where p db = record db { notifications = update_where p as_read db.notifications }

unfoldable pub get_notification : ℕ → Action Notification
get_notification notification_id = do
  notification ← gets (λ db. find? (has_notification_id notification_id) db.notifications)
  lift (or_raise notification AppError.notification_not_found)

module _ (env : Env) where
  unfoldable pub mark_notification_read : ℕ → Action Notification
  mark_notification_read notification_id = do
    notification ← get_notification notification_id
    modify (read_where (has_notification_id notification.id))
    atomically (commit env)
    get_notification notification.id

  -- The statement's row count is the number of rows that its condition takes.
  unfoldable pub mark_unread : Action ℕ
  mark_unread = do
    count ← gets (λ db. length (select is_unread db.notifications))
    modify (read_where is_unread)
    commit env
    pure count

  unfoldable pub mark_all_notifications_read : Action ℕ
  mark_all_notifications_read = atomically mark_unread
