-- ===== src/Jobs/Refunds.antt =====
-- A question that expires is refunded and marked together (`expireWindows`, src/jobs/jobs.module.ts).
use zudue_api.Base.{◌≡◌, false, List, [], ◌∷◌, arith}
use zudue_api.Effect.{Env, History, history, call}
use zudue_api.Effect.Rules.{Keeps, Keeps-bind, Keeps-pure}
use zudue_api.Effect.Requests.{select_overdue_windows, refund_window, update_window_expired, Window}
use zudue_api.Effect.Database.{run_as_service, db_rpc}
use zudue_api.Effect.History.{surviving}
use zudue_api.Jobs.{Tally, zeros, count, expire_window, expire_each, expire_windows}

-- The windows that were refunded, and those that were marked EXPIRED, newest first.
abbrev refunds : History → List Window
refunds [] = []
refunds (refund_window w ∷ h) = w ∷ refunds h
refunds (q ∷ h) = refunds h

abbrev marks : History → List Window
marks [] = []
marks (update_window_expired w ∷ h) = w ∷ marks h
marks (q ∷ h) = marks h

-- Among the writes that no rollback undid, the refunds are exactly those of the windows marked EXPIRED.
abbrev pub RefundsMatch : History → Type 0
RefundsMatch h = refunds (surviving false h) ≡ marks (surviving false h)

IsMatched : Env → History → Type 0
IsMatched env h = RefundsMatch h

expire_window-match : (w : Window) → Keeps IsMatched (expire_window w)
unfolding expire_window run_as_service db_rpc surviving IsMatched
expire_window-match w = record { at = λ env h m. ground arith }

expire_each-match : (ws : List Window) (t : Tally) → Keeps IsMatched (expire_each ws t)
unfolding expire_each
expire_each-match [] t = Keeps-pure t
expire_each-match (w ∷ ws) t =
    Keeps-bind (expire_window w) _ (expire_window-match w)
      (λ fine. expire_each-match ws (count fine t))

select_overdue-match : Keeps IsMatched (run_as_service (call select_overdue_windows))
unfolding run_as_service surviving IsMatched
select_overdue-match = record { at = λ env h m. ground arith }

-- Whatever fails on the way, a sweep of expired questions leaves no window refunded and still OPEN, and
-- none marked EXPIRED without its refund.
pub expire_windows-match :
    (env : Env) (h : History) → RefundsMatch h → RefundsMatch (history (expire_windows env h))
unfolding expire_windows IsMatched
expire_windows-match env h m =
    (Keeps-bind _ _ select_overdue-match (λ rows. expire_each-match rows zeros)).at env h m
