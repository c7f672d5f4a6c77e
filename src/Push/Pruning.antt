-- ===== src/Push/Pruning.antt =====
-- Which tokens a push of src/push/push.service.ts deletes.
use zudue_api.Base.{◌≡◌, String, Bool}
use zudue_api.Json.{Json}
use zudue_api.Effect.{Env, History, ◌>>◌}
use zudue_api.Push.Reports.{reported, deletion_asked}

-- The deletion is asked for of exactly what was reported of this user's tokens, and of another user's as before.
record Pruned (u v t : String) (b : Bool) (env : Env) (h : History) : Type 0 where
  own : deletion_asked u t h ≡ reported env t h
  other : deletion_asked v t h ≡ b

-- Deletions of this token of this user were asked for as before.
record Unasked (u t : String) (b : Bool) (env : Env) (h : History) : Type 0 where
  unasked : deletion_asked u t h ≡ b
