-- ===== src/Daemon/Activity.antt =====
-- `_with_project_activity` of boxerd/daemon.py, which is around every handler: it logs the call of a
-- project and hands over the project's waiting notifications with the answer.
use boxer.Base.{String, Bool, true, false, not, ◌&&◌, List, [], ◌∷◌, map, ◌==◌, if◌then◌else◌}
use boxer.Ipc.{Result, ok, err, Error, ipc_error, exception}
use boxer.Types.{ProjectNotification, CallerIdentity}
use boxer.Db.Activity.{record_project_call}
use boxer.Db.Notices.{list_pending_project_notifications, mark_project_notifications_delivered}
use boxer.Names.{text, starts_with}
use boxer.Action.{pure, ◌>>=◌, ◌>>◌}
use boxer.Services.{Services, query, write, now, new_id}
use boxer.Daemon.{Handler}

abbrev pub track_project : CallerIdentity → Bool
track_project caller =
    not caller.is_admin
    && (starts_with (text "p_") (text caller.project_id) && not (caller.project_id == "p_unknown"))

-- Only an `IPCError` carries notifications.
abbrev pub is_ipc_error : Error → Bool
is_ipc_error (ipc_error _) = true
is_ipc_error (exception _) = false

-- Whether the answer can carry them: a dict, or an `IPCError`.
abbrev pub can_carry : {A : Type 0} → (A → Bool) → Result A → Bool
can_carry is_dict (ok a) = is_dict a
can_carry is_dict (err e) = is_ipc_error e

-- The answer of a call, and the notifications in its `boxer_notices`.
pub record Answer (A : Type 0) : Type 0 where
  pub result : Result A
  pub boxer_notices : List ProjectNotification

module _ {Request World : Type 0} (services : Services World) where
  abbrev mark : List ProjectNotification → Handler Request World (Unit {0})
  mark [] = pure tt
  mark (n ∷ notices) = do
    t ← now services
    write (mark_project_notifications_delivered (map (λ n. n.id) (n ∷ notices)) t)

  -- At most five notifications are handed over, and marked as delivered.
  unfoldable pub deliver : CallerIdentity → Handler Request World (List ProjectNotification)
  deliver caller = do
    notices ← query (list_pending_project_notifications caller.project_id 5)
    mark notices
    pure notices

  unfoldable pub record_call : CallerIdentity → String → Handler Request World (Unit {0})
  record_call caller method =
      if track_project caller
      then (do
        id ← new_id services
        t ← now services
        write (record_project_call id caller.project_id method caller.user t))
      else pure tt

  -- What follows the handler's own result.
  unfoldable pub answer :
      {A : Type 0} → (A → Bool) → CallerIdentity → Result A → Handler Request World (Answer A)
  unfolding deliver
  answer is_dict caller result =
      if track_project caller && can_carry is_dict result
      then (do notices ← deliver caller; pure (record { result = result; boxer_notices = notices }))
      else pure (record { result = result; boxer_notices = [] })

  -- An exception of the handler is a result here, since notifications follow it.
  abbrev handled : {A : Type 0} → Handler Request World A → Handler Request World (Result A)
  handled handler s = let (r, t) = handler s in (ok r, t)

  unfoldable pub with_project_activity :
      {A : Type 0}
      → (A → Bool)
      → String
      → (CallerIdentity → Handler Request World A)
      → CallerIdentity
      → Handler Request World (Answer A)
  unfolding answer record_call
  with_project_activity is_dict method handler caller = do
    record_call caller method
    result ← handled (handler caller)
    answer is_dict caller result
