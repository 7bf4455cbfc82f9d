-- ===== src/Notifications/Laws.antt =====
-- Marking everything as read.
use green_garden_api.Prelude.{
  ◌≡◌, refl, List, [], ◌∷◌, ◌⊎◌, inl, inr, select, length, update_where, Bool-cases,
}
use green_garden_api.Core.Errors.{AppError, ok, err}
use green_garden_api.Database.Models.{Notification}
use green_garden_api.Database.Session.{World, Env, continue, settle, rollback, commit}
use green_garden_api.Notifications.{
  is_unread, as_read, read_where, mark_unread, mark_all_notifications_read,
}

none-unread :
    (ns : List Notification) → length (select is_unread (update_where is_unread as_read ns)) ≡ 0
none-unread [] = refl
none-unread (n ∷ ns) = elim (Bool-cases n.is_read) [
  | inl read ↦ rw read (none-unread ns)
  | inr unread ↦ rw unread (none-unread ns)
]

-- Marking all notifications as read returns the number of those that were unread and commits a
-- database in which none is; or the database refuses, and the session is rolled back.
pub mark_all_notifications_read-cases :
    (env : Env) (w : World)
    → ((mark_all_notifications_read env w).0
          ≡ ok (length (select is_unread w.working.notifications)))
        × (length (select is_unread (mark_all_notifications_read env w).1.committed.notifications)
            ≡ 0)
      ⊎ (mark_all_notifications_read env w ≡ (err AppError.database_error, rollback w))
unfolding mark_all_notifications_read mark_unread commit
mark_all_notifications_read-cases env w =
    elim (Bool-cases (env.accepts (read_where is_unread w.working))) [
      | inl taken ↦ rw (taken, continue, settle) (inl (refl, none-unread w.working.notifications))
      | inr refused ↦ rw (refused, continue, settle) (inr refl)
    ]
