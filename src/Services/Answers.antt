-- ===== src/Services/Answers.antt =====
-- What the handlers of statements answer, `{ success: true }`.
use zudue_api.Base.{true}
use zudue_api.Json.{Json, bool, obj, field, end}

abbrev pub success : Json
success = obj (field "success" (bool true) end)
