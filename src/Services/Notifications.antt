-- ===== src/Services/Notifications.antt =====
-- src/notifications/notifications.module.ts: what marks as read.
use zudue_api.Base.{String, Option, some}
use zudue_api.Json.{Json}
use zudue_api.Effect.{M, pure, ◌>>◌, call}
use zudue_api.Effect.Database.{run_as}
use zudue_api.Effect.Statements.{read_notification, read_notifications}
use zudue_api.Effect.Requests.{statement}
use zudue_api.Services.Answers.{success}

unfoldable pub mark_read : String → String → M (Option Json)
mark_read u id = run_as u (do call (statement (read_notification id u)); pure (some success))

unfoldable pub mark_all : String → M (Option Json)
mark_all u = run_as u (do call (statement (read_notifications u)); pure (some success))

-- The routes that write, with the path's `id` and the body.
pub data NotificationsAction : Type 0 where
  post_read : String → NotificationsAction
  post_read_all : NotificationsAction

unfoldable pub notifications : String → NotificationsAction → M (Option Json)
unfolding mark_all mark_read
notifications u (post_read id) = mark_read u id
notifications u post_read_all = mark_all u
