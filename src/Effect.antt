-- ===== src/Effect.antt =====
-- Handlers that talk to the database and to other services. Everything outside the process answers
-- through an environment, which sees the requests made so far; a handler is a function from it to a
-- result and the longer history. `src/db/database.service.ts` is the child `Database`.
pub mod Statements
pub mod Requests
pub mod Database
pub mod History
pub mod Rules
pub mod Committed
pub mod Aborted
use zudue_api.Base.{String, Option, none, some, List, ◌∷◌}
use zudue_api.Json.{Json}
use Requests.{Request, ReplyOf}

-- What a handler may throw. `driver` is any error of a library that is called.
pub data Error : Type 0 where
  bad_request : String → Error
  rejected : Option Json → Error
  forbidden not_found unauthorized : String → Error
  type_error : Error
  driver : String → Error
  plain : String → Error

pub data Reply (A : Type 0) : Type 0 where
  answer : A → Reply A
  fail : String → Reply A

-- The newest request first.
abbrev pub History : Type 0
History = List Request

abbrev pub Env : Type 0
Env = (r : Request) → History → Reply (ReplyOf r)

pub data Outcome (A : Type 0) : Type 0 where
  ok : A → History → Outcome A
  err : Error → History → Outcome A

abbrev pub M : Type 0 → Type 0
M A = Env → History → Outcome A

abbrev pub pure : {A : Type 0} → A → M A
pure a env h = ok a h

abbrev pub throw : {A : Type 0} → Error → M A
throw e env h = err e h

infixl 5 ◌>>=◌ ◌>>◌
abbrev pub ◌>>=◌ : {A B : Type 0} → M A → (A → M B) → M B
◌>>=◌ m f env h = elim (m env h) [ ok a h' ↦ f a env h' | err e h' ↦ err e h' ]

abbrev pub ◌>>◌ : {A B : Type 0} → M A → M B → M B
m >> k = m >>= λ _. k

-- `await` of a request: it is in the history whatever the answer.
abbrev pub call : (r : Request) → M (ReplyOf r)
call r env h = elim (env r h) [ answer a ↦ ok a (r ∷ h) | fail e ↦ err (driver e) (r ∷ h) ]

-- A request whose answer nobody waits for: `p.catch(() => undefined)` with no `await`.
abbrev pub tell : Request → M (Unit {0})
tell r env h = ok tt (r ∷ h)

-- `p.catch(() => undefined)`
abbrev pub attempt : {A : Type 0} → M A → M (Option A)
attempt m env h = elim (m env h) [ ok a h' ↦ ok (some a) h' | err e h' ↦ ok none h' ]

-- `try { m } catch { k }`, where what `m` did stays in the history.
abbrev pub try_catch : {A : Type 0} → M A → (Error → M A) → M A
try_catch m k env h = elim (m env h) [ ok a h' ↦ ok a h' | err e h' ↦ k e env h' ]

-- The error that a handler ended with, if any.
abbrev pub thrown : {A : Type 0} → Outcome A → Option Error
thrown (ok a h) = none
thrown (err e h) = some e

abbrev pub returned : {A : Type 0} → Outcome A → Option A
returned (ok a h) = some a
returned (err e h) = none

abbrev pub history : {A : Type 0} → Outcome A → History
history (ok a h) = h
history (err e h) = h
